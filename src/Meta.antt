-- ===== src/Meta.antt =====
-- meta/tablecolumn.cc, meta/datatable.cc and the description of a table in meta/database.cc, with
-- the type codes of parser/column_type.h.
pub mod Describe
use uhp_sql.Common.{
  ℕ, zero, suc, ◌+◌, ◌-◌, ◌*◌, ◌/◌, ◌%◌, ◌^◌, Bool, true, false, ◌&&◌, ◌||◌, Option, none, some,
  List, [], ◌∷◌, ◌++◌, ltb, leb, ◌==◌, if◌then◌else◌, Bytes, ◌>>=◌,
}

-- `hsql::DataType`.
pub data DataType : Type 0 where
  unknown : DataType
  int : DataType
  long : DataType
  float : DataType
  double : DataType
  decimal : DataType
  real : DataType
  char : DataType
  varchar : DataType
  text : DataType
  datetime : DataType
  date : DataType
  time : DataType
  smallint : DataType

-- `Int2DataType`, for an `int` that is not negative.
pub int_to_data_type : ℕ → DataType
int_to_data_type n =
    if n == 0
    then unknown
    else if n == 1
    then int
    else if n == 2
    then long
    else if n == 3
    then float
    else if n == 4
    then double
    else if n == 5
    then decimal
    else if n == 6
    then real
    else if n == 7
    then char
    else if n == 8
    then varchar
    else if n == 9
    then text
    else if n == 10
    then datetime
    else if n == 11
    then date
    else if n == 12
    then time
    else if n == 13
    then smallint
    else varchar

-- `DataType2Int`.
unfoldable pub data_type_to_int : DataType → ℕ
data_type_to_int unknown = 0
data_type_to_int int = 1
data_type_to_int long = 2
data_type_to_int float = 3
data_type_to_int double = 4
data_type_to_int decimal = 5
data_type_to_int real = 6
data_type_to_int char = 7
data_type_to_int varchar = 8
data_type_to_int text = 9
data_type_to_int datetime = 10
data_type_to_int date = 11
data_type_to_int time = 12
data_type_to_int smallint = 13

pub record TableColumn : Type 0 where
  pub col_name : Bytes
  pub col_type : DataType
  pub val : Bytes

-- The constructor without a value.
unfoldable pub new_column : Bytes → DataType → TableColumn
new_column col_name col_type = record { col_name = col_name; col_type = col_type; val = [] }

-- `std::to_string` on a number of at most `fuel + 1` digits.
unfoldable pub decimal_digits : ℕ → ℕ → Bytes
decimal_digits zero n = (b'0' + n % 10) ∷ []
decimal_digits (suc fuel) n =
    let front = decimal_digits fuel (n / 10) in
    if ltb n 10 then (b'0' + n) ∷ [] else front ++ ((b'0' + n % 10) ∷ [])

-- An `int` is at most 10 digits long.
unfoldable pub to_string : ℕ → Bytes
to_string n = decimal_digits 9 n

-- A sign and what is behind it, as `std::stoi` reads them.
read_sign : Bytes → Bool × Bytes
read_sign [] = (false, [])
read_sign (c ∷ s) =
    if c == b'-' then (true, s) else if c == b'+' then (false, s) else (false, c ∷ s)

-- The white space of `isspace`.
skip_space : Bytes → Bytes
skip_space [] = []
skip_space (c ∷ s) =
    let rest = skip_space s in if c == 32 || (leb 9 c && leb c 13) then rest else c ∷ s

is_digit : ℕ → Bool
is_digit c = leb b'0' c && leb c b'9'

-- The value of the digits in front.
read_digits : ℕ → Bytes → ℕ
read_digits n [] = n
read_digits n (c ∷ s) =
    let value = read_digits (n * 10 + (c - b'0')) s in if is_digit c then value else n

starts_with_digit : Bytes → Bool
starts_with_digit [] = false
starts_with_digit (c ∷ s) = is_digit c

-- `std::stoi`: a sign and a magnitude, or nothing where it throws.
pub stoi : Bytes → Option (Bool × ℕ)
stoi s =
    let (negative, digits) = read_sign (skip_space s) in
    let n = read_digits 0 digits in
    if starts_with_digit digits && ltb n (if negative then 2 ^ 31 + 1 else 2 ^ 31)
    then some (negative, n)
    else none

-- `Int2DataType(std::stoi(str))`; a negative `int` takes the default branch.
pub parse_type : Bytes → Option DataType
parse_type s = do
  (negative, n) ← stoi s
  some (if negative && ltb 0 n then varchar else int_to_data_type n)

-- The value that `CreateTable` stores for a table.
unfoldable pub describe : List TableColumn → Bytes
describe [] = []
describe (c ∷ []) = c.col_name ++ b'^' ∷ to_string (data_type_to_int c.col_type)
describe (c ∷ d ∷ cols) =
    c.col_name
    ++ b'^' ∷ (to_string (data_type_to_int c.col_type) ++ b'$' ∷ b'$' ∷ describe (d ∷ cols))

data Mark : Type 0 where
  caret : Mark
  dollar : Mark
  other : Mark

mark : ℕ → Mark
mark c = if c == b'^' then caret else if c == b'$' then dollar else other

-- The loop of `GetColFromStr`, with the extra `++i` behind a `$` as a flag, and the last column
-- behind it.
col_loop : Bool → Bytes → Bytes → Bytes → Option (List TableColumn)
col_loop skip colname str [] = parse_type str >>= λ t. some (new_column colname t ∷ [])
col_loop true colname str (c ∷ value) = col_loop false colname str value
col_loop false colname str (c ∷ value) = elim (mark c) [
  | caret ↦ col_loop false str [] value
  | dollar ↦ do
    t ← parse_type str
    cols ← col_loop true colname [] value
    some (new_column colname t ∷ cols)
  | other ↦ col_loop false colname (str ++ (c ∷ [])) value
]

pub get_col_from_str : Bytes → Option (List TableColumn)
get_col_from_str value = col_loop false [] [] value
