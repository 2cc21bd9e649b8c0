-- ===== src/StringUtils/RoundTrip.antt =====
-- Joined columns split again into the same ones.
use uhp_sql.Common.{
  ℕ, zero, suc, ◌+◌, ◌≤◌, ◌≡◌, refl, sym, ap, ap₂, ◌∙◌, ◌≢◌, inl, inr, true, false, ◌&&◌, none,
  some, List, [], ◌∷◌, ◌++◌, append-nil, append_assoc, arith, ◌==◌, Bool-cases, Bytes, length, take,
  drop, All, length-append, take-append_length, drop-append_length, drop-drop,
}
use uhp_sql.StringUtils.{
  is_blank, trim_left, is_nil, trim_right, trim, is_prefix, find, split_loop, string_split,
  join_from, strings_join,
}

-- A piece that survives: no blank at either end and nowhere the first byte of the delimiter.
pub record IsClean (x : ℕ) (p : Bytes) : Type 0 where
  pub left : trim_left p ≡ p
  pub right : trim_right p ≡ p
  pub apart : All (λ c. c ≢ x) p

is_prefix-append : (d r : Bytes) → is_prefix d (d ++ r) ≡ true
unfolding is_prefix
is_prefix-append [] r = refl
is_prefix-append (x ∷ d) r = ground (arith, is_prefix-append d r)

find-apart : (x : ℕ) (d p : Bytes) → All (λ c. c ≢ x) p → find (x ∷ d) p ≡ none
unfolding find is_prefix
find-apart x d [] h = refl
find-apart x d (c ∷ p) (ne, h) =
    let no : (x == c) && is_prefix d p ≡ false = ground arith in rw (no, find-apart x d p h)

find-append :
    (x : ℕ) (d p r : Bytes)
    → All (λ c. c ≢ x) p
    → find (x ∷ d) (p ++ ((x ∷ d) ++ r)) ≡ some (length p)
unfolding find is_prefix
find-append x d [] r h =
    let yes : (x == x) && is_prefix d (d ++ r) ≡ true = ground (arith, is_prefix-append d r) in
    rw yes
find-append x d (c ∷ p) r (ne, h) =
    let no : (x == c) && is_prefix d (p ++ ((x ∷ d) ++ r)) ≡ false = ground arith in
    rw (no, find-append x d p r h)

trim_right-cons : (c : ℕ) (s : Bytes) → s ≢ [] → trim_right s ≡ s → trim_right (c ∷ s) ≡ c ∷ s
unfolding trim_right is_nil
trim_right-cons c [] ne h = absurd (ne refl)
trim_right-cons c (y ∷ s) ne h = rw h

trim_right-append : (p s : Bytes) → s ≢ [] → trim_right s ≡ s → trim_right (p ++ s) ≡ p ++ s
trim_right-append [] s ne h = h
trim_right-append (c ∷ p) s ne h =
    trim_right-cons c (p ++ s) (append-ne p s ne) (trim_right-append p s ne h)
  where
    append-ne : (p s : Bytes) → s ≢ [] → p ++ s ≢ []
    append-ne p s ne e = absurd (ground (arith, ap length e, length-append p s))

length-trim_left : (s : Bytes) → length (trim_left s) ≤ length s
unfolding trim_left
length-trim_left [] = omega arith
length-trim_left (c ∷ s) = ground (arith, length-trim_left s)

head-trim_left : (c : ℕ) (s : Bytes) → trim_left (c ∷ s) ≡ c ∷ s → is_blank c ≡ false
unfolding trim_left
head-trim_left c s h = elim (Bool-cases (is_blank c)) [
  | inr e ↦ e
  | inl e ↦
      let h' : trim_left s ≡ c ∷ s = rw e at h in
      absurd (omega (arith, ap length h', length-trim_left s))
]

trim_left-append : (p s : Bytes) → trim_left p ≡ p → trim_left s ≡ s → trim_left (p ++ s) ≡ p ++ s
unfolding trim_left
trim_left-append [] s hp hs = hs
trim_left-append (c ∷ p) s hp hs = rw (head-trim_left c p hp)

-- The columns of a row that can be read again: clean ones, of which the last is not empty.
abbrev pub IsRow : ℕ → List Bytes → Type 0
IsRow x [] = Unit
IsRow x (p ∷ []) = IsClean x p × (p ≢ [])
IsRow x (p ∷ q ∷ v) = IsClean x p × IsRow x (q ∷ v)

strings_join-single : (p d : Bytes) → strings_join (p ∷ []) d ≡ p
unfolding strings_join join_from
strings_join-single p d = append-nil p

strings_join-cons :
    (p q : Bytes) (v : List Bytes) (d : Bytes)
    → strings_join (p ∷ q ∷ v) d ≡ p ++ (d ++ strings_join (q ∷ v) d)
unfolding strings_join join_from
strings_join-cons p q v d = refl

strings_join-ne :
    (x : ℕ) (p : Bytes) (v : List Bytes) (d : Bytes)
    → IsRow x (p ∷ v)
    → strings_join (p ∷ v) (x ∷ d) ≢ []
strings_join-ne x p [] d (_, ne) e = ne (sym (strings_join-single p (x ∷ d)) ∙ e)
strings_join-ne x p (q ∷ v) d r e = absurd (
    omega (
      arith,
      ap length e,
      ap length (strings_join-cons p q v (x ∷ d)),
      length-append p ((x ∷ d) ++ strings_join (q ∷ v) (x ∷ d)),
    ))

trim_left-strings_join :
    (x : ℕ) (v : List Bytes) (d : Bytes)
    → is_blank x ≡ false
    → IsRow x v
    → trim_left (strings_join v (x ∷ d)) ≡ strings_join v (x ∷ d)
unfolding trim_left strings_join join_from
trim_left-strings_join x [] d nb r = refl
trim_left-strings_join x (p ∷ []) d nb (c, ne) = rw (strings_join-single p (x ∷ d)) c.left
trim_left-strings_join x (p ∷ q ∷ v) d nb (c, r) =
    rw (strings_join-cons p q v (x ∷ d))
      (trim_left-append p ((x ∷ d) ++ strings_join (q ∷ v) (x ∷ d)) c.left (rw nb))

trim_right-strings_join :
    (x : ℕ) (v : List Bytes) (d : Bytes)
    → IsRow x v
    → trim_right (strings_join v (x ∷ d)) ≡ strings_join v (x ∷ d)
unfolding trim_right strings_join join_from
trim_right-strings_join x [] d r = refl
trim_right-strings_join x (p ∷ []) d (c, ne) = rw (strings_join-single p (x ∷ d)) c.right
trim_right-strings_join x (p ∷ q ∷ v) d (c, r) =
    let s = strings_join (q ∷ v) (x ∷ d) in
    rw (strings_join-cons p q v (x ∷ d), sym (append_assoc p (x ∷ d) s))
      (trim_right-append (p ++ (x ∷ d)) s (strings_join-ne x q v d r)
        (trim_right-strings_join x (q ∷ v) d r))

trim-strings_join :
    (x : ℕ) (v : List Bytes) (d : Bytes)
    → is_blank x ≡ false
    → IsRow x v
    → trim (strings_join v (x ∷ d)) ≡ strings_join v (x ∷ d)
unfolding trim
trim-strings_join x v d nb r =
    rw (trim_left-strings_join x v d nb r) (trim_right-strings_join x v d r)

-- The turns of the loop.
split_loop-end :
    (fuel : ℕ) (d s : Bytes) → s ≢ [] → find d s ≡ none → split_loop (suc fuel) d s ≡ s ∷ []
unfolding split_loop
split_loop-end fuel d [] ne e = absurd (ne refl)
split_loop-end fuel d (c ∷ s) ne e = rw (split_loop, e)

split_loop-turn :
    (fuel k : ℕ) (d s : Bytes)
    → s ≢ []
    → find d s ≡ some k
    → split_loop (suc fuel) d s ≡ trim (take k s) ∷ split_loop fuel d (trim (drop (k + length d) s))
unfolding split_loop
split_loop-turn fuel k d [] ne e = absurd (ne refl)
split_loop-turn fuel k d (c ∷ s) ne e = rw (split_loop, e)

trim-clean : (x : ℕ) (p : Bytes) → IsClean x p → trim p ≡ p
unfolding trim
trim-clean x p c = rw c.left c.right

nil_of_length : (s : Bytes) → length s ≡ 0 → s ≡ []
nil_of_length [] h = refl
nil_of_length (x ∷ s) h = absurd (omega arith)

split_loop-strings_join :
    (fuel x : ℕ) (v : List Bytes) (d : Bytes)
    → is_blank x ≡ false
    → IsRow x v
    → length (strings_join v (x ∷ d)) ≤ fuel
    → split_loop fuel (x ∷ d) (strings_join v (x ∷ d)) ≡ v
unfolding split_loop strings_join join_from
split_loop-strings_join zero x [] d nb r h = refl
split_loop-strings_join (suc fuel) x [] d nb r h = refl
split_loop-strings_join zero x (p ∷ v) d nb r h =
    absurd (strings_join-ne x p v d r (nil_of_length _ (omega arith)))
split_loop-strings_join (suc fuel) x (p ∷ []) d nb (c, ne) h =
    rw (strings_join-single p (x ∷ d)) (split_loop-end fuel (x ∷ d) p ne (find-apart x d p c.apart))
split_loop-strings_join (suc fuel) x (p ∷ q ∷ v) d nb (c, r) h =
    let s = strings_join (q ∷ v) (x ∷ d) in
    let whole = p ++ ((x ∷ d) ++ s) in
    let ne : whole ≢ [] = strings_join-ne x p (q ∷ v) d (c, r) in
    let taken : take (length p) whole ≡ p = take-append_length p ((x ∷ d) ++ s) in
    let left : drop (length p + length (x ∷ d)) whole ≡ s =
      sym (drop-drop (length (x ∷ d)) (length p) whole)
      ∙ ap (drop (length (x ∷ d))) (drop-append_length p ((x ∷ d) ++ s))
      ∙ drop-append_length (x ∷ d) s in
    let shorter : length s ≤ fuel =
      omega (arith, h, length-append p ((x ∷ d) ++ s), length-append d s) in
    split_loop-turn fuel (length p) (x ∷ d) whole ne (find-append x d p s c.apart)
    ∙ ap₂ (λ t u. trim t ∷ split_loop fuel (x ∷ d) (trim u)) taken left
    ∙ ap₂ (λ t u. t ∷ split_loop fuel (x ∷ d) u) (trim-clean x p c)
        (trim-strings_join x (q ∷ v) d nb r)
    ∙ ap (λ t. p ∷ t) (split_loop-strings_join fuel x (q ∷ v) d nb r shorter)

-- Splitting joined columns gives these columns again, for a delimiter that does not begin with a
-- blank, where no column has a blank at its ends or contains the first byte of the delimiter and the
-- last column, if any, is not empty.
pub string_split-strings_join :
    (x : ℕ) (d : Bytes) (v : List Bytes)
    → is_blank x ≡ false
    → IsRow x v
    → string_split (strings_join v (x ∷ d)) (x ∷ d) ≡ v
unfolding string_split
string_split-strings_join x d v nb r =
    rw (trim-strings_join x v d nb r)
      (split_loop-strings_join (length (strings_join v (x ∷ d))) x v d nb r (omega arith))
