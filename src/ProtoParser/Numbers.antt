-- ===== src/ProtoParser/Numbers.antt =====
-- A number that was printed is read back up to the end of its line.
use uhp_sql.Common.{
  ℕ, zero, suc, ◌+◌, ◌-◌, ◌*◌, ◌/◌, ◌%◌, ◌^◌, ◌≤◌, ◌<◌, ◌≡◌, refl, ap, ◌∙◌, true, false, some, [],
  ◌∷◌, ◌++◌, arith, ltb, ◌==◌, if_elim, Bytes, length, All, length-append,
}
use native.Mathlib.Nat.{pow-suc}
use uhp_sql.Meta.{decimal_digits}
use uhp_sql.ProtoParser.{ok, is_digit, scan_digits, get_int_until_crlf}

abbrev pub AreDigits : Bytes → Type 0
AreDigits s = All (λ c. is_digit c ≡ true) s

-- The number that digits go on to make.
abbrev value_from : ℕ → Bytes → ℕ
value_from n [] = n
value_from n (c ∷ s) = value_from (n * 10 + (c - b'0')) s

value_from-ge : (n : ℕ) (s : Bytes) → n ≤ value_from n s
value_from-ge n [] = omega arith
value_from-ge n (c ∷ s) = omega (arith, value_from-ge (n * 10 + (c - b'0')) s)

scan_digits-append :
    (n : ℕ) (s t : Bytes)
    → AreDigits s
    → value_from n s < 2 ^ 31
    → scan_digits n (s ++ t) ≡ scan_digits (value_from n s) t
unfolding scan_digits
scan_digits-append n [] t a small = refl
scan_digits-append n (c ∷ s) t (digit, a) small =
    let fits : ltb (n * 10 + (c - b'0')) (2 ^ 31) ≡ true =
      ground (arith, value_from-ge (n * 10 + (c - b'0')) s) in
    rw (digit, fits) (scan_digits-append (n * 10 + (c - b'0')) s t a small)

value_from-append :
    (n : ℕ) (s : Bytes) (c : ℕ) → value_from n (s ++ (c ∷ [])) ≡ value_from n s * 10 + (c - b'0')
value_from-append n [] c = refl
value_from-append n (d ∷ s) c = value_from-append (n * 10 + (d - b'0')) s c

AreDigits-append : (s : Bytes) (c : ℕ) → AreDigits s → is_digit c ≡ true → AreDigits (s ++ (c ∷ []))
AreDigits-append [] c a h = (h, tt)
AreDigits-append (d ∷ s) c (x, a) h = (x, AreDigits-append s c a h)

is_digit-add : (k : ℕ) → k < 10 → is_digit (b'0' + k) ≡ true
is_digit-add k h = ground arith

decimal_digits-AreDigits : (fuel n : ℕ) → AreDigits (decimal_digits fuel n)
unfolding decimal_digits
decimal_digits-AreDigits zero n = (is_digit-add (n % 10) (omega arith), tt)
decimal_digits-AreDigits (suc fuel) n =
    if_elim AreDigits (ltb n 10) (λ small. (is_digit-add n (ground arith), tt))
      (λ large.
        AreDigits-append (decimal_digits fuel (n / 10)) (b'0' + n % 10)
          (decimal_digits-AreDigits fuel (n / 10)) (is_digit-add (n % 10) (omega arith)))

-- Enough digits: each level of fuel halves what is left.
value_from-decimal_digits :
    (fuel n : ℕ) → n < 10 ^ suc fuel → value_from 0 (decimal_digits fuel n) ≡ n
unfolding decimal_digits
value_from-decimal_digits zero n h = omega arith
value_from-decimal_digits (suc fuel) n h =
    if_elim (λ s. value_from 0 s ≡ n) (ltb n 10) (λ small. omega arith)
      (λ large.
        value_from-append 0 (decimal_digits fuel (n / 10)) (b'0' + n % 10)
        ∙ omega (
          arith,
          value_from-decimal_digits fuel (n / 10) (omega (arith, h, pow-suc 10 (suc fuel))),
        ))

pub decimal_digits-some : (fuel n : ℕ) → 0 < length (decimal_digits fuel n)
unfolding decimal_digits
decimal_digits-some zero n = omega arith
decimal_digits-some (suc fuel) n =
    if_elim (λ (s : Bytes). 0 < length s) (ltb n 10) (λ small. omega arith)
      (λ large. omega (arith, length-append (decimal_digits fuel (n / 10)) ((b'0' + n % 10) ∷ [])))

end_of_line : (v : ℕ) (t : Bytes) → scan_digits v (13 ∷ 10 ∷ t) ≡ some (ok (v, t))
unfolding scan_digits
end_of_line v t =
    let more : ltb 0 (suc (length t)) ≡ true = ground arith in
    let some_left : (suc (length t) == 0) ≡ false = ground arith in rw (more, some_left) refl

-- A number below 2 ^ 31 and the end of its line.
pub get_int_until_crlf-decimal_digits :
    (n : ℕ) (rest : Bytes)
    → n < 2 ^ 31
    → get_int_until_crlf (decimal_digits 19 n ++ 13 ∷ 10 ∷ rest) ≡ some (ok (n, rest))
unfolding get_int_until_crlf
get_int_until_crlf-decimal_digits n rest small =
    let s = decimal_digits 19 n in
    let value : value_from 0 s ≡ n = value_from-decimal_digits 19 n (omega (arith, big)) in
    let long : ltb (length (s ++ 13 ∷ 10 ∷ rest)) 3 ≡ false =
      ground (arith, decimal_digits-some 19 n, length-append s (13 ∷ 10 ∷ rest)) in
    rw long (
      scan_digits-append 0 s (13 ∷ 10 ∷ rest) (decimal_digits-AreDigits 19 n) (omega (arith, value))
      ∙ ap (λ v. scan_digits v (13 ∷ 10 ∷ rest)) value
      ∙ end_of_line n rest)
  where
    big : 2 ^ 31 ≤ 10 ^ 20
    big = omega arith
