-- ===== src/Executor/Cells.antt =====
-- The columns of a row in the order of its table.
use uhp_sql.Common.{
  ℕ, zero, suc, ◌+◌, ◌<◌, ◌≡◌, ◌≢◌, refl, sym, ap, ◌∙◌, true, none, some, List, [], ◌∷◌, ◌++◌,
  append_assoc, ltb, arith, Bytes, length, get_elem?, set, replicate, All, length-append,
}
use uhp_sql.StringUtils.RoundTrip.{IsClean, IsRow}
use uhp_sql.Meta.{unknown, TableColumn}
use uhp_sql.Catalog.{DataTable, get_col_index}
use uhp_sql.Catalog.Tables.{Answers}
use uhp_sql.Executor.Rows.{Row, store_at, fill, decode_from}

-- The columns with values, in a statement that names them in the table's order.
abbrev pub labelled : List TableColumn → List Bytes → Row
labelled [] vals = []
labelled (c ∷ cols) [] = []
labelled (c ∷ cols) (v ∷ vals) =
    record { col_name = c.col_name; col_type = unknown; val = v } ∷ labelled cols vals

-- The columns with values and with their types.
abbrev pub typed : List TableColumn → List Bytes → Row
typed [] vals = []
typed (c ∷ cols) [] = []
typed (c ∷ cols) (v ∷ vals) =
    record { col_name = c.col_name; col_type = c.col_type; val = v } ∷ typed cols vals

store_at-middle :
    (pre : List Bytes) (u v : Bytes) (vals : List Bytes)
    → store_at (length pre) v (pre ++ u ∷ vals) ≡ some ((pre ++ v ∷ []) ++ vals)
unfolding store_at
store_at-middle pre u v vals =
    let inside : ltb (length pre) (length (pre ++ u ∷ vals)) ≡ true =
      ground (arith, length-append pre (u ∷ vals)) in
    rw inside (ap (λ t. some t) (set-middle pre))
  where
    set-middle : (p : List Bytes) → set (p ++ u ∷ vals) (length p) v ≡ (p ++ v ∷ []) ++ vals
    set-middle [] = refl
    set-middle (x ∷ p) = ap (λ t. x ∷ t) (set-middle p)

fill-from :
    (t : DataTable) (pre : List Bytes) (cols : List TableColumn) (vals : List Bytes)
    → Answers t (length pre) cols
    → length vals ≡ length cols
    → fill t (pre ++ replicate (length cols) []) (labelled cols vals) ≡ some (pre ++ vals)
unfolding fill
fill-from t pre [] [] a h = refl
fill-from t pre [] (v ∷ vals) a h = absurd (omega arith)
fill-from t pre (c ∷ cols) [] a h = absurd (omega arith)
fill-from t pre (c ∷ cols) (v ∷ vals) ((at, _, _), a) h =
    let next : length (pre ++ v ∷ []) ≡ suc (length pre) =
      omega (arith, length-append pre (v ∷ [])) in
    let rest : Answers t (length (pre ++ v ∷ [])) cols = rw next a in
    rw (at, store_at-middle pre [] v (replicate (length cols) []))
      (fill-from t (pre ++ v ∷ []) cols vals rest (omega arith)
        ∙ ap (λ u. some u) (append_assoc pre (v ∷ []) vals))

-- The loop over a statement's columns puts every value in its place.
pub fill-labelled :
    (t : DataTable) (cols : List TableColumn) (vals : List Bytes)
    → Answers t 0 cols
    → length vals ≡ length cols
    → fill t (replicate (length cols) []) (labelled cols vals) ≡ some vals
fill-labelled t cols vals a h = fill-from t [] cols vals a h

pub length-labelled :
    (cols : List TableColumn) (vals : List Bytes)
    → length vals ≡ length cols
    → length (labelled cols vals) ≡ length cols
length-labelled [] vals h = refl
length-labelled (c ∷ cols) [] h = absurd (omega arith)
length-labelled (c ∷ cols) (v ∷ vals) h = omega (arith, length-labelled cols vals (omega arith))

-- A stored row is read with the names and the types of its table.
pub decode_from-typed :
    (t : DataTable) (k : ℕ) (cols : List TableColumn) (vals : List Bytes)
    → Answers t k cols
    → length vals ≡ length cols
    → decode_from t k vals ≡ typed cols vals
unfolding decode_from
decode_from-typed t k [] [] a h = refl
decode_from-typed t k [] (v ∷ vals) a h = absurd (omega arith)
decode_from-typed t k (c ∷ cols) [] a h = absurd (omega arith)
decode_from-typed t k (c ∷ cols) (v ∷ vals) ((_, name, type), a) h =
    let next : k + 1 ≡ suc k = omega arith in
    rw (name, type, next, decode_from-typed t (suc k) cols vals a (omega arith))

-- Where a column stands.
pub get_col_index-Answers :
    (t : DataTable) (k i : ℕ) (cols : List TableColumn) (c : TableColumn)
    → Answers t k cols
    → get_elem? cols i ≡ some c
    → get_col_index t c.col_name ≡ k + i
get_col_index-Answers t k i [] c a h = cc
get_col_index-Answers t k zero (d ∷ cols) c ((at, _, _), a) h =
    ap (get_col_index t) (ap (λ o. elim o [ some x ↦ x.col_name | none ↦ [] ]) (sym h))
    ∙ at
    ∙ omega arith
get_col_index-Answers t k (suc i) (d ∷ cols) c (_, a) h =
    get_col_index-Answers t (suc k) i cols c a h ∙ omega arith

length-get_elem? :
    {A : Type 0} (xs : List A) (i : ℕ) (x : A) → get_elem? xs i ≡ some x → i < length xs
length-get_elem? [] i x h = cc
length-get_elem? (y ∷ xs) zero x h = omega arith
length-get_elem? (y ∷ xs) (suc i) x h = omega (arith, length-get_elem? xs i x h)

pub store_at-column :
    (i : ℕ) (v : Bytes) (vals : List Bytes) (cols : List TableColumn) (c : TableColumn)
    → get_elem? cols i ≡ some c
    → length vals ≡ length cols
    → store_at i v vals ≡ some (set vals i v)
unfolding store_at
store_at-column i v vals cols c h e =
    let inside : ltb i (length vals) ≡ true = ground (arith, length-get_elem? cols i c h) in
    rw inside refl

pub All-set {ℓ κ} :
    {A : Type ℓ} (P : A → Type κ) (xs : List A) (i : ℕ) (x : A)
    → All P xs
    → P x
    → All P (set xs i x)
All-set P [] i x h hx = h
All-set P (y ∷ xs) zero x (_, h) hx = (hx, h)
All-set P (y ∷ xs) (suc i) x (hy, h) hx = (hy, All-set P xs i x h hx)

-- A row stays one that can be read again.
pub IsRow-set :
    (x : ℕ) (vals : List Bytes) (i : ℕ) (v : Bytes)
    → IsRow x vals
    → IsClean x v
    → v ≢ []
    → IsRow x (set vals i v)
IsRow-set x [] i v h hv ne = h
IsRow-set x (p ∷ []) zero v h hv ne = (hv, ne)
IsRow-set x (p ∷ []) (suc i) v h hv ne = h
IsRow-set x (p ∷ q ∷ vals) zero v (hp, h) hv ne = (hv, h)
IsRow-set x (p ∷ q ∷ vals) (suc zero) v (hp, h) hv ne = (hp, IsRow-set x (q ∷ vals) zero v h hv ne)
IsRow-set x (p ∷ q ∷ vals) (suc (suc i)) v (hp, h) hv ne =
    (hp, IsRow-set x (q ∷ vals) (suc i) v h hv ne)
