-- ===== src/Executor/Analyze.antt =====
-- The `Analyze...Statement` functions of executor/. Their result is `none` for a null pointer that is
-- followed or an index out of range, `some none` where they return false, and otherwise what they
-- set.
use uhp_sql.Common.{
  ℕ, suc, Bool, true, false, Option, none, some, List, [], ◌∷◌, map, if◌then◌else◌, Bytes, codes,
  ◌>>=◌,
}
use uhp_sql.Common.Int.{ℤ, pos, negsuc, to_u64}
use uhp_sql.Meta.{unknown, TableColumn, new_column, decimal_digits}
use uhp_sql.Catalog.{Dbms, has_table}
use uhp_sql.Statement.{
  OperatorType, equals, Expr, null, literal_string, literal_int, operator, name_of, ival_of,
  CreateStatement, InsertStatement, SelectStatement, DeleteStatement, UpdateStatement,
}

abbrev pub Analysis : Type 0 → Type 0
Analysis A = Option (Option A)

-- What follows the test for the table.
abbrev if_table : {A : Type 0} → Dbms → Bytes → Analysis A → Analysis A
if_table d tab_name rest = has_table d tab_name >>= λ known. if known then rest else some none

-- `std::to_string` of an `int64_t`, of at most 19 digits.
pub int_to_string : ℤ → Bytes
int_to_string (pos n) = decimal_digits 18 n
int_to_string (negsuc n) = b'-' ∷ decimal_digits 18 (suc n)

-- The loop over `stmt->values`: values of other kinds are left out.
unfoldable pub col_values : List Expr → Option (List Bytes)
col_values [] = some []
col_values (null ∷ values) = none
col_values (literal_string name ∷ values) = col_values values >>= λ vs. some (name ∷ vs)
col_values (literal_int ival ∷ values) = col_values values >>= λ vs. some (int_to_string ival ∷ vs)
col_values (_ ∷ values) = col_values values

-- The loop that pairs the names with `colValues[i]`.
unfoldable pub pair_columns : List Bytes → List Bytes → Option (List TableColumn)
pair_columns [] vs = some []
pair_columns (n ∷ ns) [] = none
pair_columns (n ∷ ns) (v ∷ vs) = do
  row ← pair_columns ns vs
  some (record { col_name = n; col_type = unknown; val = v } ∷ row)

unfoldable pub analyze_create : CreateStatement → Analysis (Bytes × List TableColumn)
analyze_create stmt = do
  columns ← stmt.columns
  some (some (stmt.table_name, map (λ c. new_column c.0 c.1) columns))

unfoldable pub analyze_insert : Dbms → InsertStatement → Analysis (Bytes × List TableColumn)
analyze_insert d stmt = if_table d stmt.table_name (do
  columns ← stmt.columns
  values ← stmt.values
  vs ← col_values values
  row ← pair_columns columns vs
  some (some (stmt.table_name, row)))

-- The local variables of `Exec` that no analysis sets hold what was on the stack.
pub record Stack : Type 0 where
  pub op_type : OperatorType
  pub limit : ℕ

pub record SelectQuery : Type 0 where
  pub op_type : OperatorType
  pub query_tab : Bytes
  pub query_field : Bytes
  pub query_value : Bytes
  pub limit : ℕ
  pub scan_all : Bool

-- The operator, the field and the value of a `WHERE` clause; other kinds of clauses set nothing.
abbrev pub Condition : Type 0
Condition = OperatorType × Bytes × Bytes

unfoldable pub condition : Stack → Expr → Option Condition
condition stack null = none
condition stack (operator op left right) = do
  field ← name_of left
  value ← name_of right
  some (op, field, value)
condition stack _ = some (stack.op_type, [], [])

-- `static_cast<uint64_t>(stmt->limit->limit->ival)`, or 0 with no limit.
unfoldable pub limit_of : Option Expr → Option ℕ
limit_of none = some 0
limit_of (some expr) = ival_of expr >>= λ ival. some (to_u64 ival)

unfoldable pub select_where : Stack → Bytes → Expr → Option Expr → Analysis SelectQuery
select_where stack tab null limit = some (
    some (record {
      op_type = stack.op_type;
      query_tab = tab;
      query_field = [];
      query_value = [];
      limit = stack.limit;
      scan_all = true;
    }))
select_where stack tab where_clause limit = do
  (op, field, value) ← condition stack where_clause
  n ← limit_of limit
  some (
      some (record {
        op_type = op;
        query_tab = tab;
        query_field = field;
        query_value = value;
        limit = n;
        scan_all = false;
      }))

-- With no `WHERE` clause the limit is not read.
unfoldable pub analyze_select : Stack → Dbms → SelectStatement → Analysis SelectQuery
unfolding select_where
analyze_select stack d stmt =
    stmt.from_table >>= λ tab. if_table d tab (select_where stack tab stmt.where_clause stmt.limit)

-- With no clause at all the condition is that `1` equals `1`.
unfoldable pub delete_where : Stack → Expr → Option Condition
delete_where stack null = some (equals, codes "1", codes "1")
delete_where stack expr = condition stack expr

unfoldable pub analyze_delete : Stack → Dbms → DeleteStatement → Analysis (Bytes × Condition)
unfolding delete_where
analyze_delete stack d stmt =
    if_table d stmt.table_name
      (delete_where stack stmt.expr >>= λ c. some (some (stmt.table_name, c)))

-- The first of the assignments, as its column and its value.
unfoldable pub first_update :
    Stack → UpdateStatement → List (Bytes × Expr) → Analysis (Bytes × Bytes × Bytes × Condition)
first_update stack stmt [] = some none
first_update stack stmt ((column, expr) ∷ updates) = do
  value ← name_of expr
  c ← condition stack stmt.where_clause
  some (some (stmt.table_name, column, value, c))

unfoldable pub analyze_update :
    Stack → Dbms → UpdateStatement → Analysis (Bytes × Bytes × Bytes × Condition)
unfolding first_update
analyze_update stack d stmt = if_table d stmt.table_name (first_update stack stmt stmt.updates)
