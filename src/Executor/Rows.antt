-- ===== src/Executor/Rows.antt =====
-- The functions of executor/ that carry a statement out in the store: `InsertRowToPMemKV`,
-- `DecodeRowResult`, `SelectRowsFromPMemKV`, `DeleteRowsInPMemKV` and `UpdateRowInPMemKV`. `none` is
-- a null pointer that is followed, an index out of range or undefined behaviour.
use uhp_sql.Common.{
  ℕ, ◌+◌, ◌*◌, ◌%◌, ◌^◌, Bool, true, false, not, ◌&&◌, Option, none, some, List, [], ◌∷◌, ◌++◌, ltb,
  ◌==◌, if◌then◌else◌, Bytes, codes, bytes_eq, ◌>>=◌, length, set, replicate,
}
use uhp_sql.StringUtils.{string_split, strings_join}
use uhp_sql.Meta.{TableColumn}
use uhp_sql.Store.{Redis, command_set, command_get, command_del, command_scan}
use uhp_sql.Catalog.{
  DataTable, DataBase, get_col_index, get_col_type, index_col_at, Dbms, get_cur_db, get_table,
  cur_table,
}
use uhp_sql.Statement.{OperatorType, equals, greater, like}
use uhp_sql.Executor.Analyze.{SelectQuery}

-- "data_" + dbName + "_" + tab + "_p_" + value.
abbrev pub data_key : DataBase → Bytes → Bytes → Bytes
data_key b tab value =
    codes "data_" ++ (b.db_name ++ (codes "_" ++ (tab ++ (codes "_p_" ++ value))))

-- `vals[index] = val`.
unfoldable pub store_at : ℕ → Bytes → List Bytes → Option (List Bytes)
store_at index val vals = if ltb index (length vals) then some (set vals index val) else none

-- The loop of `InsertRowToPMemKV`.
unfoldable pub fill : DataTable → List Bytes → List TableColumn → Option (List Bytes)
fill t vals [] = some vals
fill t vals (c ∷ row) = store_at (get_col_index t c.col_name) c.val vals >>= λ vs. fill t vs row

-- The loop of `DecodeRowResult` from index `i` on.
unfoldable pub decode_from : DataTable → ℕ → List Bytes → List TableColumn
decode_from t i [] = []
decode_from t i (val ∷ vals) =
    record { col_name = index_col_at t i; col_type = get_col_type t (index_col_at t i); val = val }
    ∷ decode_from t (i + 1) vals

abbrev pub Row : Type 0
Row = List TableColumn

unfoldable pub decode_row : Dbms → Bytes → Bytes → Option Row
decode_row d res tab = do
  t ← cur_table d tab
  some (decode_from t 0 (string_split res (codes "$$")))

-- The rows for the reply to a GET.
unfoldable pub single_row : Dbms → Bytes → Option Bytes → Option (List Row)
single_row d tab none = some []
single_row d tab (some result) = decode_row d result tab >>= λ row. some (row ∷ [])

-- `std::string::compare` is positive.
unfoldable pub is_above : Bytes → Bytes → Bool
is_above [] t = false
is_above (b ∷ s) [] = true
is_above (b ∷ s) (c ∷ t) = let rest = is_above s t in if b == c then rest else ltb c b

-- The loops over the elements of a reply, from index `i` on: where they break off, and for which keys
-- a row is decoded.
unfoldable pub scan_rows :
    (ℕ → Bool) → (Bytes → Bool) → Dbms → Bytes → ℕ → List Bytes → Option (List Row)
scan_rows stop keep d tab i [] = some []
scan_rows stop keep d tab i (key ∷ []) = if stop i then some [] else none
scan_rows stop keep d tab i (key ∷ value ∷ elements) =
    let rest = scan_rows stop keep d tab (i + 2) elements in
    if stop i
    then some []
    else if keep key
    then (do row ← decode_row d value tab; rows ← rest; some (row ∷ rows))
    else rest

-- A reply to a SCAN may carry no elements at all.
unfoldable pub reply_rows :
    (ℕ → Bool) → (Bytes → Bool) → Dbms → Bytes → Option (List Bytes) → Option (List Row)
reply_rows stop keep d tab none = some []
reply_rows stop keep d tab (some elements) = scan_rows stop keep d tab 0 elements

-- `limit != 0 && i > limit * 2`.
abbrev pub past_limit : ℕ → ℕ → Bool
past_limit limit i = not (limit == 0) && ltb (limit * 2 % 2 ^ 64) i

-- `i > limit * 2 + 1`.
abbrev pub past_limit_greater : ℕ → ℕ → Bool
past_limit_greater limit i = ltb ((limit * 2 + 1) % 2 ^ 64) i

-- The value without a `%` at its end; `back()` of an empty string is undefined.
unfoldable pub pop_percent : Bytes → Option Bytes
pop_percent [] = none
pop_percent (c ∷ []) = some (if c == b'%' then [] else c ∷ [])
pop_percent (c ∷ b ∷ s) = pop_percent (b ∷ s) >>= λ rest. some (c ∷ rest)

module _ (R : Redis) where
  -- The rows affected with the store, as for the functions below that change it.
  unfoldable pub insert_row : Dbms → R.Store → Bytes → Row → Option (ℕ × R.Store)
  insert_row d s tab_name [] = some (0, s)
  insert_row d s tab_name (c ∷ row) = do
    b ← get_cur_db d
    t ← get_table b tab_name
    vals ← fill t (replicate (length (c ∷ row)) []) (c ∷ row)
    some (1, command_set R s (data_key b tab_name c.val) (strings_join vals (codes "$$")))

  unfoldable pub select_scan :
      (ℕ → Bool) → (Bytes → Bool) → Dbms → R.Store → Bytes → Bytes → Option (List Row)
  unfolding reply_rows
  select_scan stop keep d s tab pattern = reply_rows stop keep d tab (command_scan R s pattern 100)

  unfoldable pub select_equal : Dbms → R.Store → DataBase → SelectQuery → Option (List Row)
  unfolding single_row
  select_equal d s b q =
      single_row d q.query_tab (command_get R s (data_key b q.query_tab q.query_value))

  -- The cases of the switch on the operator.
  unfoldable pub select_op :
      OperatorType → Dbms → R.Store → DataBase → SelectQuery → Option (List Row)
  unfolding select_scan select_equal
  select_op equals d s b q = select_equal d s b q
  select_op greater d s b q =
      select_scan (past_limit_greater q.limit)
        (λ key. is_above key (data_key b q.query_tab q.query_value)) d s q.query_tab
        (data_key b q.query_tab (codes "*"))
  select_op like d s b q = do
    value ← pop_percent q.query_value
    select_scan (past_limit q.limit) (λ key. true) d s q.query_tab
        (data_key b q.query_tab (value ++ codes "*"))
  select_op _ d s b q = some []

  -- `SelectRowsFromPMemKV`. Where no database is current the analysis has not come this far.
  unfoldable pub select_rows : Dbms → R.Store → SelectQuery → Option (List Row)
  unfolding select_scan select_op
  select_rows d s q = get_cur_db d >>= λ b.
      if q.scan_all
      then select_scan (past_limit q.limit) (λ key. true) d s q.query_tab
          (data_key b q.query_tab (codes "*"))
      else select_op q.op_type d s b q

  -- For `1` equal to `1` a `std::string` goes through the `...` of `redisCommand`, which is undefined.
  unfoldable pub delete_rows :
      Dbms → R.Store → Bytes → OperatorType × Bytes × Bytes → Option (ℕ × R.Store)
  delete_rows d s tab_name (equals, field, value) = get_cur_db d >>= λ b.
      if bytes_eq field (codes "1") && bytes_eq value (codes "1")
      then none
      else some (1, command_del R s (data_key b tab_name value))
  delete_rows d s tab_name (_, field, value) = get_cur_db d >>= λ b. some (1, s)

  -- What follows the reply to the GET.
  unfoldable pub update_found :
      Dbms → R.Store → Bytes → Bytes → Bytes → Bytes → Option Bytes → Option (ℕ × R.Store)
  update_found d s tab_name column value key none = some (0, s)
  update_found d s tab_name column value key (some o_value) = do
    t ← cur_table d tab_name
    cols ← store_at (get_col_index t column) value (string_split o_value (codes "$$"))
    some (1, command_set R s key (strings_join cols (codes "$$")))

  unfoldable pub update_row : Dbms → R.Store → Bytes → Bytes → Bytes → Bytes → Option (ℕ × R.Store)
  unfolding update_found
  update_row d s tab_name column value query_value = do
    b ← get_cur_db d
    let key = data_key b tab_name query_value
    update_found d s tab_name column value key (command_get R s key)
