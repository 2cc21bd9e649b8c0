-- ===== src/Statement.antt =====
-- What the executor reads of the statements that the parser builds: parser/expr.h and the statement
-- classes. The grammar that builds them is generated code.
use uhp_sql.Common.{Option, none, some, List, Bytes}
use uhp_sql.Common.Int.{ℤ, pos}
use uhp_sql.Meta.{DataType}

-- `OperatorType`.
pub data OperatorType : Type 0 where
  no_op between case case_list_element : OperatorType
  plus minus asterisk slash percentage caret : OperatorType
  equals not_equals less less_eq greater greater_eq like not_like i_like : OperatorType
  and or is_in concat : OperatorType
  not unary_minus is_null exists : OperatorType

-- `Expr*`: a null pointer, or a node of one of the kinds that the executor tells apart, with the
-- members that it reads. `named` and `unnamed` are the other kinds, which have a name or none, with
-- their `ival`.
pub data Expr : Type 0 where
  null : Expr
  star : Expr
  literal_string : Bytes → Expr
  literal_int : ℤ → Expr
  parameter : ℤ → Expr
  column_ref : Bytes → Expr
  operator : OperatorType → Expr → Expr → Expr
  named : Bytes → ℤ → Expr
  unnamed : ℤ → Expr

-- `std::string(expr->name)`: `none` is a null pointer that is followed.
unfoldable pub name_of : Expr → Option Bytes
name_of (literal_string name) = some name
name_of (column_ref name) = some name
name_of (named name ival) = some name
name_of _ = none

-- `expr->ival`, which is 0 where no constructor sets it.
unfoldable pub ival_of : Expr → Option ℤ
ival_of null = none
ival_of (literal_int ival) = some ival
ival_of (parameter id) = some id
ival_of (named name ival) = some ival
ival_of (unnamed ival) = some ival
ival_of _ = some (pos 0)

-- A pointer to a vector may be null.
pub record CreateStatement : Type 0 where
  pub table_name : Bytes
  pub columns : Option (List (Bytes × DataType))

pub record InsertStatement : Type 0 where
  pub table_name : Bytes
  pub columns : Option (List Bytes)
  pub values : Option (List Expr)

-- `from_table` is `fromTable->name`, and `limit` is the `limit` of the limit clause.
pub record SelectStatement : Type 0 where
  pub from_table : Option Bytes
  pub where_clause : Expr
  pub limit : Option Expr

pub record DeleteStatement : Type 0 where
  pub table_name : Bytes
  pub expr : Expr

pub record UpdateStatement : Type 0 where
  pub table_name : Bytes
  pub updates : List (Bytes × Expr)
  pub where_clause : Expr

pub data Statement : Type 0 where
  create : CreateStatement → Statement
  select : SelectStatement → Statement
  insert : InsertStatement → Statement
  delete : DeleteStatement → Statement
  update : UpdateStatement → Statement
  other : Statement
