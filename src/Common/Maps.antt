-- ===== src/Common/Maps.antt =====
-- `std::unordered_map` and `std::map` with strings for keys, as lists of entries.
use mathlib.Core.Path.{◌≡◌, refl}
use mathlib.Core.Logic.{inl, inr}
use mathlib.Core.Bool.{Bool, true, false}
use mathlib.Core.Option.{Option, none, some}
use mathlib.Core.List.{List, [], ◌∷◌}
use uhp_sql.Common.Tests.{if◌then◌else◌, Bool-cases, Bytes, bytes_eq, bytes_eq_sound}

-- The decision of `bytes_eq` does not change under equal strings.
bytes_eq_other : (i k j : Bytes) → bytes_eq i k ≡ false → bytes_eq k j ≡ true → bytes_eq i j ≡ false
bytes_eq_other i k j ne e = rw (← bytes_eq_sound k j e) ne

module _ {ℓ} {V : Type ℓ} where
  -- `find`.
  abbrev pub find_key : Bytes → List (Bytes × V) → Option V
  find_key j [] = none
  find_key j ((i, w) ∷ m) = if bytes_eq i j then some w else find_key j m

  -- `m[k] = v`.
  abbrev pub assign : Bytes → V → List (Bytes × V) → List (Bytes × V)
  assign k v [] = (k, v) ∷ []
  assign k v ((i, w) ∷ m) = if bytes_eq i k then (i, v) ∷ m else (i, w) ∷ assign k v m

  -- `insert`, which leaves an entry for the key as it is.
  abbrev pub insert_new : Bytes → V → List (Bytes × V) → List (Bytes × V)
  insert_new k v [] = (k, v) ∷ []
  insert_new k v ((i, w) ∷ m) = if bytes_eq i k then (i, w) ∷ m else (i, w) ∷ insert_new k v m

  -- `erase`.
  abbrev pub erase_key : Bytes → List (Bytes × V) → List (Bytes × V)
  erase_key k [] = []
  erase_key k ((i, w) ∷ m) = if bytes_eq i k then erase_key k m else (i, w) ∷ erase_key k m

  pub find_key-assign :
      (k j : Bytes) (v : V) (m : List (Bytes × V))
      → find_key j (assign k v m) ≡ (if bytes_eq k j then some v else find_key j m)
  find_key-assign k j v [] = refl
  find_key-assign k j v ((i, w) ∷ m) = elim (Bool-cases (bytes_eq i k)) [
    | inl e ↦ rw (e, bytes_eq_sound i k e) (split (bytes_eq k j))
    | inr ne ↦ elim (Bool-cases (bytes_eq k j)) [
      | inl e ↦ rw (ne, bytes_eq_other i k j ne e, find_key-assign k j v m, e) refl
      | inr ne' ↦ rw (ne, find_key-assign k j v m, ne') refl
    ]
  ]
    where
      split :
          (b : Bool)
          → (if b then some v else find_key j m)
            ≡ (if b then some v else if b then some w else find_key j m)
      split true = refl
      split false = refl

  pub find_key-insert_new :
      (k j : Bytes) (v : V) (m : List (Bytes × V))
      → find_key k m ≡ none
      → find_key j (insert_new k v m) ≡ (if bytes_eq k j then some v else find_key j m)
  find_key-insert_new k j v [] h = refl
  find_key-insert_new k j v ((i, w) ∷ m) h = elim (Bool-cases (bytes_eq i k)) [
    | inl e ↦ absurd (cc (rw e at h))
    | inr ne ↦ elim (Bool-cases (bytes_eq k j)) [
      | inl e ↦ rw (ne, bytes_eq_other i k j ne e, find_key-insert_new k j v m (rw ne at h), e) refl
      | inr ne' ↦ rw (ne, find_key-insert_new k j v m (rw ne at h), ne') refl
    ]
  ]

  -- An entry that is there stays as it is.
  pub find_key-insert_new_old :
      (k j : Bytes) (v w : V) (m : List (Bytes × V))
      → find_key j m ≡ some w
      → find_key j (insert_new k v m) ≡ some w
  find_key-insert_new_old k j v w [] h = cc
  find_key-insert_new_old k j v w ((i, u) ∷ m) h = elim (Bool-cases (bytes_eq i k)) [
    | inl e ↦ rw e h
    | inr ne ↦ elim (Bool-cases (bytes_eq i j)) [
      | inl e ↦ rw (ne, e) (rw e at h)
      | inr ne' ↦ rw (ne, ne') (find_key-insert_new_old k j v w m (rw ne' at h))
    ]
  ]

  pub find_key-erase_key :
      (k j : Bytes) (m : List (Bytes × V))
      → find_key j (erase_key k m) ≡ (if bytes_eq k j then none else find_key j m)
  find_key-erase_key k j [] = elim (Bool-cases (bytes_eq k j)) [ inl e ↦ rw e | inr e ↦ rw e ]
  find_key-erase_key k j ((i, w) ∷ m) = elim (Bool-cases (bytes_eq i k)) [
    | inl e ↦ elim (Bool-cases (bytes_eq k j)) [
      | inl e' ↦ rw (e, find_key-erase_key k j m, e') refl
      | inr ne' ↦
          let ij : bytes_eq i j ≡ false = rw (bytes_eq_sound i k e) ne' in
          rw (e, find_key-erase_key k j m, ne', ij) refl
    ]
    | inr ne ↦ elim (Bool-cases (bytes_eq k j)) [
      | inl e' ↦ rw (ne, bytes_eq_other i k j ne e', find_key-erase_key k j m, e') refl
      | inr ne' ↦ rw (ne, find_key-erase_key k j m, ne') refl
    ]
  ]
