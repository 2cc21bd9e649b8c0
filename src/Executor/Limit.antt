-- ===== src/Executor/Limit.antt =====
-- The rows that the scanning branches of `SelectRowsFromPMemKV` take from the reply to a SCAN.
use uhp_sql.Common.{
  ℕ, zero, suc, ◌+◌, ◌*◌, ◌^◌, ◌<◌, ◌≡◌, ◌≢◌, refl, ap, ◌∙◌, Bool, Bool-cases, inl, inr, true,
  false, some, List, [], ◌∷◌, ◌==◌, if◌then◌else◌, arith, Bytes, codes, take,
}
use uhp_sql.StringUtils.{string_split}
use uhp_sql.Store.{Redis, command_scan}
use uhp_sql.Catalog.{DataTable, DataBase, Dbms, get_cur_db, get_table, cur_table}
use uhp_sql.Statement.{OperatorType, greater}
use uhp_sql.Executor.Analyze.{SelectQuery}
use uhp_sql.Executor.Rows.{
  Row, data_key, decode_from, decode_row, is_above, scan_rows, past_limit, past_limit_greater,
  reply_rows, select_scan, select_op, select_rows,
}

-- The elements of a reply with these entries.
abbrev pub elements_of : List (Bytes × Bytes) → List Bytes
elements_of [] = []
elements_of ((key, value) ∷ es) = key ∷ value ∷ elements_of es

-- The rows of the entries whose keys are wanted.
abbrev pub rows_of : DataTable → (Bytes → Bool) → List (Bytes × Bytes) → List Row
rows_of t keep [] = []
rows_of t keep ((key, value) ∷ es) =
    let rest = rows_of t keep es in
    if keep key then decode_from t 0 (string_split value (codes "$$")) ∷ rest else rest

decode_row-table :
    (d : Dbms) (tab : Bytes) (t : DataTable) (value : Bytes)
    → cur_table d tab ≡ some t
    → decode_row d value tab ≡ some (decode_from t 0 (string_split value (codes "$$")))
unfolding decode_row
decode_row-table d tab t value h = rw h refl

scan_rows-from :
    (stop : ℕ → Bool) (keep : Bytes → Bool) (d : Dbms) (tab : Bytes) (t : DataTable) (n k : ℕ)
    (es : List (Bytes × Bytes))
    → cur_table d tab ≡ some t
    → ((j : ℕ) → j < k + n → stop (2 * j) ≡ false)
    → stop (2 * (k + n)) ≡ true
    → scan_rows stop keep d tab (2 * k) (elements_of es) ≡ some (rows_of t keep (take n es))
unfolding scan_rows
scan_rows-from stop keep d tab t zero k [] ht go end = refl
scan_rows-from stop keep d tab t (suc n) k [] ht go end = refl
scan_rows-from stop keep d tab t zero k ((key, value) ∷ es) ht go end =
    let now : stop (2 * k) ≡ true = ap stop (omega arith) ∙ end in rw now refl
scan_rows-from stop keep d tab t (suc n) k ((key, value) ∷ es) ht go end =
    let next : 2 * k + 2 ≡ 2 * suc k = omega arith in
    let rest : scan_rows stop keep d tab (2 * suc k) (elements_of es)
        ≡ some (rows_of t keep (take n es)) =
      scan_rows-from stop keep d tab t n (suc k) es ht (λ j h. go j (omega arith))
        (ap stop (omega arith) ∙ end) in
    rw (go k (omega arith), next, rest)
      (elim (Bool-cases (keep key)) [
        | inl wanted ↦ rw (wanted, decode_row-table d tab t value ht) refl
        | inr unwanted ↦ rw unwanted refl
      ])

past_limit-below : (n j : ℕ) → n * 2 < 2 ^ 64 → j < suc n → past_limit n (2 * j) ≡ false
past_limit-below n j small h = ground arith

past_limit-at : (n : ℕ) → n * 2 < 2 ^ 64 → n ≢ 0 → past_limit n (2 * suc n) ≡ true
past_limit-at n small h = ground arith

past_limit_greater-below :
    (n j : ℕ) → n * 2 + 1 < 2 ^ 64 → j < suc n → past_limit_greater n (2 * j) ≡ false
past_limit_greater-below n j small h = ground arith

past_limit_greater-at : (n : ℕ) → n * 2 + 1 < 2 ^ 64 → past_limit_greater n (2 * suc n) ≡ true
past_limit_greater-at n small = ground arith

cur_table-found :
    (d : Dbms) (b : DataBase) (tab : Bytes) (t : DataTable)
    → get_cur_db d ≡ some b
    → get_table b tab ≡ some t
    → cur_table d tab ≡ some t
unfolding cur_table
cur_table-found d b tab t hb ht = rw hb ht

scan_rows-all :
    (stop : ℕ → Bool) (keep : Bytes → Bool) (d : Dbms) (tab : Bytes) (t : DataTable) (k : ℕ)
    (es : List (Bytes × Bytes))
    → cur_table d tab ≡ some t
    → ((j : ℕ) → stop j ≡ false)
    → scan_rows stop keep d tab k (elements_of es) ≡ some (rows_of t keep es)
unfolding scan_rows
scan_rows-all stop keep d tab t k [] ht go = refl
scan_rows-all stop keep d tab t k ((key, value) ∷ es) ht go =
    rw (go k, scan_rows-all stop keep d tab t (k + 2) es ht go)
      (elim (Bool-cases (keep key)) [
        | inl wanted ↦ rw (wanted, decode_row-table d tab t value ht) refl
        | inr unwanted ↦ rw unwanted refl
      ])

-- What the analysis of a SELECT passes on.
abbrev pub query : Bool → OperatorType → Bytes → Bytes → Bytes → ℕ → SelectQuery
query scan_all op tab field value limit = record {
  op_type = op;
  query_tab = tab;
  query_field = field;
  query_value = value;
  limit = limit;
  scan_all = scan_all;
}

-- With no WHERE clause a SELECT gives the rows of the reply to the SCAN for the table's keys: all
-- of them with a limit of 0, and otherwise, for a limit of `n`, the first `n + 1`.
pub select_rows-all :
    (R : Redis) (d : Dbms) (b : DataBase) (t : DataTable) (s : R.Store) (op : OperatorType)
    (tab field value : Bytes) (n : ℕ) (es : List (Bytes × Bytes))
    → get_cur_db d ≡ some b
    → get_table b tab ≡ some t
    → command_scan R s (data_key b tab (codes "*")) 100 ≡ some (elements_of es)
    → n * 2 < 2 ^ 64
    → select_rows R d s (query true op tab field value n)
      ≡ some (rows_of t (λ key. true) (if n == 0 then es else take (n + 1) es))
unfolding select_rows select_scan reply_rows
select_rows-all R d b t s op tab field value n es hb ht hs small =
    let table = cur_table-found d b tab t hb ht in
    rw (hb, hs)
      (elim (Bool-cases (n == 0)) [
        | inl zero_limit ↦
            rw zero_limit
              (scan_rows-all (past_limit n) (λ key. true) d tab t 0 es table (λ j. ground arith))
        | inr limited ↦
            let next : n + 1 ≡ suc n = omega arith in
            rw (limited, next)
              (scan_rows-from (past_limit n) (λ key. true) d tab t (suc n) 0 es table
                (λ j h. past_limit-below n j small (omega (arith, h)))
                (ap (past_limit n) (omega arith) ∙ past_limit-at n small (ground arith)))
      ])

-- With a WHERE clause for a greater key, a SELECT looks at the first `n + 1` entries of the reply
-- only, for a limit of `n`, which is 0 where the statement names none; of these it gives the rows
-- with a greater key.
pub select_rows-greater :
    (R : Redis) (d : Dbms) (b : DataBase) (t : DataTable) (s : R.Store) (tab field value : Bytes)
    (n : ℕ) (es : List (Bytes × Bytes))
    → get_cur_db d ≡ some b
    → get_table b tab ≡ some t
    → command_scan R s (data_key b tab (codes "*")) 100 ≡ some (elements_of es)
    → n * 2 + 1 < 2 ^ 64
    → select_rows R d s (query false greater tab field value n)
      ≡ some (rows_of t (λ key. is_above key (data_key b tab value)) (take (n + 1) es))
unfolding select_rows select_op select_scan reply_rows
select_rows-greater R d b t s tab field value n es hb ht hs small =
    let next : n + 1 ≡ suc n = omega arith in
    rw (hb, hs, next)
      (scan_rows-from (past_limit_greater n) (λ key. is_above key (data_key b tab value)) d tab t
        (suc n) 0 es (cur_table-found d b tab t hb ht)
        (λ j h. past_limit_greater-below n j small (omega (arith, h)))
        (ap (past_limit_greater n) (omega arith) ∙ past_limit_greater-at n small))
