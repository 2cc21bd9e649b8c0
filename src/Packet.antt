-- ===== src/Packet.antt =====
-- The packets of the MySQL protocol (network/eof.cc, ok.cc, err.cc, field.cc, auth.cc,
-- greeting.cc), a module for each, and the steps on an iterator that their `UnPack` methods share.
pub mod Eof
pub mod Ok
pub mod Err
pub mod Row
pub mod Field
pub mod Auth
pub mod Greeting
use uhp_sql.Common.{
  ℕ, ◌<◌, ◌≡◌, refl, ◌≢◌, Option, none, some, [], ◌∷◌, ◌++◌, arith, leb, ◌==◌, if◌then◌else◌, Bytes,
  length, drop, All, length-append, drop-append_length,
}

-- `seek += n`: past the end of the packet this is undefined.
unfoldable pub skip : ℕ → Bytes → Option Bytes
skip n it = if leb n (length it) then some (drop n it) else none

-- `std::find(seek, packet.end(), 0x00)`: the bytes before the first zero, and those from it on;
-- `none` if there is no zero.
unfoldable pub find_zero : Bytes → Option (Bytes × Bytes)
find_zero [] = none
find_zero (b ∷ it) =
    if b == 0
    then some ([], b ∷ it)
    else elim (find_zero it) [ none ↦ none | some (front, rest) ↦ some (b ∷ front, rest) ]

-- No byte is zero.
abbrev pub NoZero : Bytes → Type 0
NoZero = All (λ b. b ≢ 0)

-- A byte string, each element below 256.
abbrev pub IsBytes : Bytes → Type 0
IsBytes = All (λ b. b < 256)

pub skip-append : (s rest : Bytes) → skip (length s) (s ++ rest) ≡ some rest
unfolding skip
skip-append s rest = ground (arith, length-append s rest, drop-append_length s rest)

pub find_zero-append : (s rest : Bytes) → NoZero s → find_zero (s ++ 0 ∷ rest) ≡ some (s, 0 ∷ rest)
unfolding find_zero
find_zero-append [] rest h = refl
find_zero-append (b ∷ s) rest (hb, hs) = ground (arith, find_zero-append s rest hs)
