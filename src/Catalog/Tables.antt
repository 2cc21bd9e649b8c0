-- ===== src/Catalog/Tables.antt =====
-- What a `DataTable` answers about the columns that it was built from.
use uhp_sql.Common.{
  ℕ, suc, ◌+◌, ◌≡◌, ◌≢◌, refl, sym, ap, ◌∙◌, inl, inr, true, false, some, List, [], ◌∷◌, ◌++◌,
  append-nil, append_assoc, arith, Bool-cases, Bytes, bytes_eq, bytes_eq_sound, bytes_eq_refl,
  length, All, length-append, ◌==◌,
}
use uhp_sql.Common.Maps.{find_key, assign, find_key-assign}
use uhp_sql.FieldType.{at_key}
use uhp_sql.Meta.{DataType, TableColumn}
use uhp_sql.Catalog.{
  DataTable, add_col, add_cols, new_table, get_col_index, get_col_type, index_col_at,
}

-- No column has the name.
abbrev pub Fresh : Bytes → List TableColumn → Type 0
Fresh name cols = All (λ d. d.col_name ≢ name) cols

-- No two columns have the same name.
abbrev pub IsDistinct : List TableColumn → Type 0
IsDistinct [] = Unit
IsDistinct (c ∷ cols) = Fresh c.col_name cols × IsDistinct cols

IsDistinct-suffix : (pre cols : List TableColumn) → IsDistinct (pre ++ cols) → IsDistinct cols
IsDistinct-suffix [] cols h = h
IsDistinct-suffix (c ∷ pre) cols (hc, h) = IsDistinct-suffix pre cols h

add_cols-append :
    (t : DataTable) (i : ℕ) (pre cols : List TableColumn)
    → add_cols t i (pre ++ cols) ≡ add_cols (add_cols t i pre) (i + length pre) cols
unfolding add_cols
add_cols-append t i [] cols = let e : i + 0 ≡ i = omega arith in rw e refl
add_cols-append t i (c ∷ pre) cols =
    let e : i + suc (length pre) ≡ i + 1 + length pre = omega arith in
    rw e (add_cols-append (add_col t i c) (i + 1) pre cols)

not_bytes_eq : (s t : Bytes) → s ≢ t → bytes_eq s t ≡ false
not_bytes_eq s t ne = elim (Bool-cases (bytes_eq s t)) [
  | inl e ↦ absurd (ne (bytes_eq_sound s t e))
  | inr e ↦ e
]

find_key-assign_ne {ℓ} :
    {V : Type ℓ} (k j : Bytes) (v : V) (m : List (Bytes × V))
    → k ≢ j
    → find_key j (assign k v m) ≡ find_key j m
find_key-assign_ne k j v m ne = rw (find_key-assign k j v m, not_bytes_eq k j ne) refl

find_key-assign_self {ℓ} :
    {V : Type ℓ} (k : Bytes) (v : V) (m : List (Bytes × V)) → find_key k (assign k v m) ≡ some v
find_key-assign_self k v m = rw (find_key-assign k k v m, bytes_eq_refl k) refl

find_index-add_cols :
    (name : Bytes) (t : DataTable) (i : ℕ) (cols : List TableColumn)
    → Fresh name cols
    → find_key name (add_cols t i cols).col_index ≡ find_key name t.col_index
unfolding add_cols
find_index-add_cols name t i [] h = refl
find_index-add_cols name t i (c ∷ cols) (hc, h) =
    find_index-add_cols name (add_col t i c) (i + 1) cols h
    ∙ find_key-assign_ne c.col_name name i t.col_index hc

find_type-add_cols :
    (name : Bytes) (t : DataTable) (i : ℕ) (cols : List TableColumn)
    → Fresh name cols
    → find_key name (add_cols t i cols).col_type ≡ find_key name t.col_type
unfolding add_cols
find_type-add_cols name t i [] h = refl
find_type-add_cols name t i (c ∷ cols) (hc, h) =
    find_type-add_cols name (add_col t i c) (i + 1) cols h
    ∙ find_key-assign_ne c.col_name name c.col_type t.col_type hc

-- The entries of `index_col_` for columns from index `i` on.
abbrev numbered : ℕ → List TableColumn → List (ℕ × Bytes)
numbered i [] = []
numbered i (c ∷ cols) = (i, c.col_name) ∷ numbered (i + 1) cols

index_col-add_cols :
    (t : DataTable) (i : ℕ) (cols : List TableColumn)
    → (add_cols t i cols).index_col ≡ t.index_col ++ numbered i cols
unfolding add_cols
index_col-add_cols t i [] = sym (append-nil t.index_col)
index_col-add_cols t i (c ∷ cols) =
    index_col-add_cols (add_col t i c) (i + 1) cols
    ∙ append_assoc t.index_col ((i, c.col_name) ∷ []) (numbered (i + 1) cols)

cols-add_cols :
    (t : DataTable) (i : ℕ) (cols : List TableColumn) → (add_cols t i cols).cols ≡ t.cols ++ cols
unfolding add_cols
cols-add_cols t i [] = sym (append-nil t.cols)
cols-add_cols t i (c ∷ cols) =
    cols-add_cols (add_col t i c) (i + 1) cols ∙ append_assoc t.cols (c ∷ []) cols

at_key-numbered :
    (i j : ℕ) (pre cols : List TableColumn) (c : TableColumn)
    → j ≡ i + length pre
    → at_key [] j (numbered i (pre ++ c ∷ cols)) ≡ c.col_name
at_key-numbered i j [] cols c e = let same : (i == j) ≡ true = ground arith in rw same refl
at_key-numbered i j (d ∷ pre) cols c e =
    let other : (i == j) ≡ false = ground arith in
    rw other (at_key-numbered (i + 1) j pre cols c (omega arith))

-- The answers of a table about columns that stand in it from index `k` on.
abbrev pub Answers : DataTable → ℕ → List TableColumn → Type 0
Answers t k [] = Unit
Answers t k (c ∷ cols) =
    ((get_col_index t c.col_name ≡ k)
      × (index_col_at t k ≡ c.col_name)
      × (get_col_type t c.col_name ≡ c.col_type))
    × Answers t (suc k) cols

get_col_index-found :
    (t : DataTable) (name : Bytes) (i : ℕ)
    → find_key name t.col_index ≡ some i
    → get_col_index t name ≡ i
unfolding get_col_index
get_col_index-found t name i h = ground arith

get_col_type-found :
    (t : DataTable) (name : Bytes) (d : DataType)
    → find_key name t.col_type ≡ some d
    → get_col_type t name ≡ d
unfolding get_col_type
get_col_type-found t name d h = ground arith

abbrev bare : Bytes → DataTable
bare name = record { table_name = name; cols = []; col_type = []; col_index = []; index_col = [] }

new_table-column :
    (name : Bytes) (pre : List TableColumn) (c : TableColumn) (cols : List TableColumn)
    → Fresh c.col_name cols
    → let t = new_table name (pre ++ c ∷ cols) in
      (get_col_index t c.col_name ≡ length pre)
      × (index_col_at t (length pre) ≡ c.col_name)
      × (get_col_type t c.col_name ≡ c.col_type)
unfolding new_table add_cols index_col_at
new_table-column name pre c cols h =
    let t0 = add_cols (bare name) 0 pre in
    let split = add_cols-append (bare name) 0 pre (c ∷ cols) in
    (
      get_col_index-found _ c.col_name (length pre) (
          ap (λ t. find_key c.col_name t.col_index) split
          ∙ find_index-add_cols c.col_name _ (0 + length pre + 1) cols h
          ∙ find_key-assign_self c.col_name (0 + length pre) t0.col_index
          ∙ ap (λ n. some n) (omega arith)),
      ap (at_key [] (length pre)) (index_col-add_cols (bare name) 0 (pre ++ c ∷ cols))
          ∙ at_key-numbered 0 (length pre) pre cols c (omega arith),
      get_col_type-found _ c.col_name c.col_type (
          ap (λ t. find_key c.col_name t.col_type) split
          ∙ find_type-add_cols c.col_name _ (0 + length pre + 1) cols h
          ∙ find_key-assign_self c.col_name c.col_type t0.col_type),
    )

new_table-suffix :
    (name : Bytes) (pre cols : List TableColumn)
    → IsDistinct cols
    → Answers (new_table name (pre ++ cols)) (length pre) cols
new_table-suffix name pre [] h = tt
new_table-suffix name pre (c ∷ cols) (hc, h) =
    let e : length (pre ++ c ∷ []) ≡ suc (length pre) = omega (arith, length-append pre (c ∷ [])) in
    let rest : Answers (new_table name ((pre ++ c ∷ []) ++ cols)) (length (pre ++ c ∷ [])) cols =
      new_table-suffix name (pre ++ c ∷ []) cols h in
    (new_table-column name pre c cols hc, rw (e, append_assoc pre (c ∷ []) cols) at rest)

-- A table whose columns have distinct names answers for each of them with its place, finds its
-- name at that place and knows its type; and it holds the columns as they were given.
pub new_table-Answers :
    (name : Bytes) (cols : List TableColumn)
    → IsDistinct cols
    → Answers (new_table name cols) 0 cols × ((new_table name cols).cols ≡ cols)
unfolding new_table
new_table-Answers name cols h = (new_table-suffix name [] cols h, cols-add_cols (bare name) 0 cols)
