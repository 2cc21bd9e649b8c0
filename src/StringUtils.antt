-- ===== src/StringUtils.antt =====
-- network/string_utils.h: `Trim`, `StringSplit` and `StringsJoin`, by which the columns of a row are
-- kept in one string.
pub mod RoundTrip
use uhp_sql.Common.{
  ℕ, zero, suc, ◌+◌, Bool, true, false, ◌&&◌, ◌||◌, Option, none, some, List, [], ◌∷◌, ◌++◌, leb,
  ◌==◌, if◌then◌else◌, Bytes, ◌>>=◌, length, take, drop,
}

-- `c <= 32` on a signed `char`.
unfoldable pub is_blank : ℕ → Bool
is_blank c = leb c 32 || leb 128 c

unfoldable pub trim_left : Bytes → Bytes
unfolding is_blank
trim_left [] = []
trim_left (c ∷ s) = let rest = trim_left s in if is_blank c then rest else c ∷ s

unfoldable pub is_nil : Bytes → Bool
is_nil [] = true
is_nil (c ∷ s) = false

unfoldable pub trim_right : Bytes → Bytes
unfolding is_nil is_blank
trim_right [] = []
trim_right (c ∷ s) = let rest = trim_right s in if is_nil rest && is_blank c then [] else c ∷ rest

pub trim : Bytes → Bytes
trim s = trim_right (trim_left s)

is_prefix : Bytes → Bytes → Bool
is_prefix [] s = true
is_prefix (x ∷ d) [] = false
is_prefix (x ∷ d) (c ∷ s) = (x == c) && is_prefix d s

-- `std::string::find`: where `d` is first found, `none` for `npos`.
pub find : Bytes → Bytes → Option ℕ
find d [] = if is_prefix d [] then some 0 else none
find d (c ∷ s) =
    let rest = find d s in if is_prefix d (c ∷ s) then some 0 else (rest >>= λ k. some (suc k))

-- The loop of `StringSplit`. With a delimiter of at least one byte each turn shortens the
-- remainder, so its length is fuel enough.
pub split_loop : ℕ → Bytes → Bytes → List Bytes
split_loop zero d s = []
split_loop (suc fuel) d [] = []
split_loop (suc fuel) d (c ∷ s) = elim (find d (c ∷ s)) [
  | none ↦ (c ∷ s) ∷ []
  | some k ↦ trim (take k (c ∷ s)) ∷ split_loop fuel d (trim (drop (k + length d) (c ∷ s)))
]

pub string_split : Bytes → Bytes → List Bytes
string_split s d = split_loop (length s) d (trim s)

unfoldable pub join_from : Bool → List Bytes → Bytes → Bytes
join_from first [] d = []
join_from first (piece ∷ v) d = (if first then [] else d) ++ (piece ++ join_from false v d)

unfoldable pub strings_join : List Bytes → Bytes → Bytes
strings_join v d = join_from true v d
