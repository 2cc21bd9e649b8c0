-- ===== src/TaskManager/Invariant.antt =====
-- The map of the client list is ordered, each entry stands under its socket's key, and the counter of
-- new tasks counts them.
use uhp_sql.Common.{
  ℕ, not, ◌||◌, ◌<◌, ◌≡◌, refl, Bool, true, false, inl, inr, Bool-cases, Option, none, some, List,
  [], ◌∷◌, arith, ltb, ◌==◌, All, length,
}
use uhp_sql.TaskManager.{Sockets, key, find, insert, Ptr, TaskManager}

module _ {V : Type 0} where
  abbrev pub IsOrdered : List (ℕ × V) → Type 0
  IsOrdered [] = Unit
  IsOrdered ((k, v) ∷ m) = All (λ e. k < e.0) m × IsOrdered m

  above_trans : (j k : ℕ) (m : List (ℕ × V)) → j < k → All (λ e. k < e.0) m → All (λ e. j < e.0) m
  above_trans j k [] h a = tt
  above_trans j k ((i, v) ∷ m) h (a, rest) = (omega arith, above_trans j k m h rest)

  -- A key below all of a map is not in it.
  pub find-below : (k : ℕ) (m : List (ℕ × V)) → All (λ e. k < e.0) m → find k m ≡ none
  unfolding find
  find-below k [] a = refl
  find-below k ((i, v) ∷ m) (a, rest) = ground (arith, find-below k m rest)

  insert-above :
      (j k : ℕ) (v : V) (m : List (ℕ × V))
      → j < k
      → All (λ e. j < e.0) m
      → All (λ e. j < e.0) (insert k v m).1
  unfolding insert
  insert-above j k v [] h a = (h, tt)
  insert-above j k v ((i, u) ∷ m) h (a, rest) = ground (arith, insert-above j k v m h rest)

  pub insert-IsOrdered :
      (k : ℕ) (v : V) (m : List (ℕ × V)) → IsOrdered m → IsOrdered (insert k v m).1
  unfolding insert
  insert-IsOrdered k v [] o = (tt, tt)
  insert-IsOrdered k v ((i, u) ∷ m) (a, o) = elim (Bool-cases (ltb k i)) [
    | inl lt ↦ rw lt ((let h : k < i = ground arith in (h, above_trans k i m h a)), (a, o))
    | inr ge ↦ elim (Bool-cases (k == i)) [
      | inl eq ↦ rw (ge, eq) (a, o)
      | inr ne ↦ rw (ge, ne) (insert-above i k v m (ground arith) a, insert-IsOrdered k v m o)
    ]
  ]

  pub insert-All :
      (P : ℕ × V → Type 0) (k : ℕ) (v : V) (m : List (ℕ × V))
      → P (k, v)
      → All P m
      → All P (insert k v m).1
  unfolding insert
  insert-All P k v [] p a = (p, tt)
  insert-All P k v ((i, u) ∷ m) p (a, rest) = elim (Bool-cases (ltb k i)) [
    | inl lt ↦ rw lt (p, (a, rest))
    | inr ge ↦ elim (Bool-cases (k == i)) [
      | inl eq ↦ rw (ge, eq) (a, rest)
      | inr ne ↦ rw (ge, ne) (a, insert-All P k v m p rest)
    ]
  ]

  abbrev pub is_found : Option V → Bool
  is_found none = false
  is_found (some v) = true

  -- `insert` reports whether the key was new.
  pub insert-found :
      (k : ℕ) (v : V) (m : List (ℕ × V))
      → IsOrdered m
      → (insert k v m).0 ≡ not (is_found (find k m))
  unfolding insert find
  insert-found k v [] o = refl
  insert-found k v ((i, u) ∷ m) (a, o) = elim (Bool-cases (ltb k i)) [
    | inl lt ↦
        let ne : (i == k) ≡ false = ground arith in
        let below : All (λ e. k < e.0) m = above_trans k i m (ground arith) a in
        rw (lt, ne, find-below k m below) refl
    | inr ge ↦ elim (Bool-cases (k == i)) [
      | inl eq ↦ let eq' : (i == k) ≡ true = ground arith in rw (ge, eq, eq') refl
      | inr ne ↦
          let ne' : (i == k) ≡ false = ground arith in rw (ge, ne, ne') (insert-found k v m o)
    ]
  ]

  -- Behind `insert` the key is found, and of the others those that were.
  pub find-insert :
      (k j : ℕ) (v : V) (m : List (ℕ × V))
      → is_found (find j (insert k v m).1) ≡ (k == j || is_found (find j m))
  unfolding insert find
  find-insert k j v [] = elim (Bool-cases (k == j)) [ inl e ↦ rw e refl | inr e ↦ rw e refl ]
  find-insert k j v ((i, u) ∷ m) = elim (Bool-cases (ltb k i)) [
    | inl lt ↦ elim (Bool-cases (k == j)) [ inl e ↦ rw (lt, e) refl | inr e ↦ rw (lt, e) refl ]
    | inr ge ↦ elim (Bool-cases (k == i)) [
      | inl eq ↦ elim (Bool-cases (i == j)) [
        | inl e ↦ let e' : (k == j) ≡ true = ground arith in rw (ge, eq, e, e') refl
        | inr e ↦ let e' : (k == j) ≡ false = ground arith in rw (ge, eq, e, e') refl
      ]
      | inr ne ↦ elim (Bool-cases (i == j)) [
        | inl e ↦ let e' : (k == j) ≡ false = ground arith in rw (ge, ne, e, e') refl
        | inr e ↦ rw (ge, ne, e) (find-insert k j v m)
      ]
    ]
  ]

module _ (S : Sockets) where
  -- Every entry is a socket under its own key.
  abbrev pub IsKeyed : List (ℕ × Ptr S) → Type 0
  IsKeyed m = All (λ e. (s : S.Socket) × (e ≡ (key (S.get_id s), some s))) m

  pub record IsValid (t : TaskManager S) : Type 0 where
    pub ordered : IsOrdered t.tcp_sockets
    pub keyed : IsKeyed t.tcp_sockets
    pub not_null : All (λ p. (s : S.Socket) × (p ≡ some s)) t.new_tasks
    pub counted : t.new_cnt ≡ length t.new_tasks
