-- ===== src/Store.antt =====
-- The Redis server that the program keeps its data in, and the commands that it sends there through
-- libredis. The server and the library are not part of the program: they are a parameter.
use uhp_sql.Common.{
  ℕ, ◌≡◌, true, false, Bool, not, ◌&&◌, ◌++◌, ◌≢◌, Option, none, some, List, [], ◌∷◌, ◌==◌,
  if◌then◌else◌, Bytes, bytes_eq, bytes_eq_refl, All, refl, ap, map, ◌∙◌, Bool-cases, inl, inr,
  arith,
}

-- A server in some state. GET after SET gives the value that was set, GET after DEL gives nothing,
-- and other keys keep theirs. Of SCAN with cursor 0, a pattern and a COUNT only the reply's list of
-- elements is known, a key and its value in turns; `none` is a reply that carries no elements.
pub record Redis : Type 1 where
  pub Store : Type 0
  pub get : Store → Bytes → Option Bytes
  pub put : Store → Bytes → Bytes → Store
  pub del : Store → Bytes → Store
  pub scan : Store → Bytes → ℕ → Option (List Bytes)
  pub get-put :
      (s : Store) (k v j : Bytes) → get (put s k v) j ≡ (if bytes_eq k j then some v else get s j)
  pub get-del :
      (s : Store) (k j : Bytes) → get (del s k) j ≡ (if bytes_eq k j then none else get s j)

-- A string as it goes through `c_str()`: up to its first zero byte.
unfoldable pub c_str : Bytes → Bytes
c_str [] = []
c_str (b ∷ s) = let rest = c_str s in if b == 0 then [] else b ∷ rest

-- No byte of a string is zero.
abbrev pub NoNul : Bytes → Type 0
NoNul s = All (λ b. b ≢ 0) s

pub NoNul-append : (s t : Bytes) → NoNul s → NoNul t → NoNul (s ++ t)
NoNul-append [] t hs ht = ht
NoNul-append (c ∷ s) t (hc, hs) ht = (hc, NoNul-append s t hs ht)

pub NoNul-byte : (c : ℕ) (s : Bytes) → (c == 0) ≡ false → NoNul s → NoNul (c ∷ s)
NoNul-byte c s hc hs = ((λ e. absurd (ground arith)), hs)

abbrev pub no_nul : Bytes → Bool
no_nul [] = true
no_nul (c ∷ s) = not (c == 0) && no_nul s

pub NoNul-text : (s : Bytes) → no_nul s ≡ true → NoNul s
NoNul-text [] h = tt
NoNul-text (c ∷ s) h = elim (Bool-cases (c == 0)) [
  | inl e ↦ absurd (cc (rw e at h))
  | inr ne ↦ NoNul-byte c s ne (NoNul-text s (rw ne at h))
]

pub c_str-NoNul : (s : Bytes) → NoNul s → c_str s ≡ s
unfolding c_str
c_str-NoNul [] h = refl
c_str-NoNul (b ∷ s) (hb, hs) = ground (arith, c_str-NoNul s hs)

c_str_idem : (s : Bytes) → c_str (c_str s) ≡ c_str s
unfolding c_str
c_str_idem [] = refl
c_str_idem (b ∷ s) = ground (arith, c_str_idem s)

-- The COUNT of a SCAN that names none.
abbrev pub default_count : ℕ
default_count = 10

-- The string of a reply to GET, read as a C string.
reply_str : Option Bytes → Option Bytes
reply_str none = none
reply_str (some v) = some (c_str v)

module _ (R : Redis) where
  -- `SET %s %s`, `GET %s`, `DEL %s` and `SCAN 0 MATCH %s [COUNT n]`.
  unfoldable pub command_set : R.Store → Bytes → Bytes → R.Store
  command_set s k v = R.put s (c_str k) (c_str v)

  unfoldable pub command_get : R.Store → Bytes → Option Bytes
  unfolding reply_str
  command_get s k = reply_str (R.get s (c_str k))

  unfoldable pub command_del : R.Store → Bytes → R.Store
  command_del s k = R.del s (c_str k)

  -- The strings of the reply's elements, each read as a C string.
  unfoldable pub command_scan : R.Store → Bytes → ℕ → Option (List Bytes)
  command_scan s pattern count = elim (R.scan s (c_str pattern) count) [
    | none ↦ none
    | some elements ↦ some (map c_str elements)
  ]

  pub command_get-none :
      (s : R.Store) (k : Bytes) → R.get s (c_str k) ≡ none → command_get s k ≡ none
  unfolding command_get reply_str
  command_get-none s k h = rw h refl

  pub command_get-command_set :
      (s : R.Store) (k v j : Bytes)
      → NoNul k
      → NoNul v
      → NoNul j
      → command_get (command_set s k v) j ≡ (if bytes_eq k j then some v else command_get s j)
  unfolding command_get command_set
  command_get-command_set s k v j hk hv hj =
      ap (λ t. reply_str (R.get (R.put s t (c_str v)) (c_str j))) (c_str-NoNul k hk)
      ∙ ap (λ t. reply_str (R.get (R.put s k t) (c_str j))) (c_str-NoNul v hv)
      ∙ ap reply_str (R.get-put s k v (c_str j))
      ∙ split
    where
      split :
          reply_str (if bytes_eq k (c_str j) then some v else R.get s (c_str j))
          ≡ (if bytes_eq k j then some v else reply_str (R.get s (c_str j)))
      split = elim (Bool-cases (bytes_eq k j)) [
        | inl e ↦ rw (c_str-NoNul j hj) (rw e (ap (λ t. some t) (c_str-NoNul v hv)))
        | inr ne ↦ rw (c_str-NoNul j hj) (rw ne refl)
      ]

  -- What was SET under a key, up to its first zero byte.
  pub command_get-command_set_same :
      (s : R.Store) (k v : Bytes) → command_get (command_set s k v) k ≡ some (c_str v)
  unfolding command_get command_set
  command_get-command_set_same s k v =
      let put : R.get (R.put s (c_str k) (c_str v)) (c_str k) ≡ some (c_str v) =
        R.get-put s (c_str k) (c_str v) (c_str k) ∙ rw (bytes_eq_refl (c_str k)) refl in
      ap reply_str put ∙ ap (λ t. some t) (c_str_idem v)

  -- A SET of another key.
  pub command_get-command_set_ne :
      (s : R.Store) (k v j : Bytes)
      → bytes_eq (c_str k) (c_str j) ≡ false
      → command_get (command_set s k v) j ≡ command_get s j
  unfolding command_get command_set
  command_get-command_set_ne s k v j ne =
      ap reply_str (R.get-put s (c_str k) (c_str v) (c_str j) ∙ rw ne refl)

  pub command_get-command_del :
      (s : R.Store) (k j : Bytes)
      → NoNul k
      → NoNul j
      → command_get (command_del s k) j ≡ (if bytes_eq k j then none else command_get s j)
  unfolding command_get command_del
  command_get-command_del s k j hk hj =
      ap (λ t. reply_str (R.get (R.del s t) (c_str j))) (c_str-NoNul k hk)
      ∙ ap reply_str (R.get-del s k (c_str j))
      ∙ split
    where
      split :
          reply_str (if bytes_eq k (c_str j) then none else R.get s (c_str j))
          ≡ (if bytes_eq k j then none else reply_str (R.get s (c_str j)))
      split = elim (Bool-cases (bytes_eq k j)) [
        | inl e ↦ rw (c_str-NoNul j hj) (rw e refl)
        | inr ne ↦ rw (c_str-NoNul j hj) (rw ne refl)
      ]
