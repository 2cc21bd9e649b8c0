-- ===== src/Meta/Describe.antt =====
-- A table's description is read back as its columns when the tables are recovered.
use uhp_sql.Common.{
  ℕ, zero, suc, ◌+◌, ◌/◌, ◌%◌, ◌<◌, ◌≡◌, refl, sym, ap, ◌∙◌, ◌≢◌, inl, inr, false, none, some, List,
  [], ◌∷◌, ◌++◌, append-nil, append_assoc, arith, ltb, ◌==◌, Bool-cases, Bytes, All,
}
use uhp_sql.Meta.{
  DataType, unknown, int, long, float, double, decimal, real, char, varchar, text, datetime, date,
  time, smallint, int_to_data_type, data_type_to_int, TableColumn, new_column, stoi,
  starts_with_digit, read_sign, skip_space, decimal_digits, to_string, read_sign, skip_space,
  is_digit, read_digits, starts_with_digit, stoi, parse_type, describe, other, mark, col_loop,
  get_col_from_str,
}

-- No byte that `GetColFromStr` takes for a mark.
abbrev pub IsPlain : Bytes → Type 0
IsPlain s = All (λ c. (c ≢ b'^') × (c ≢ b'$')) s

IsPlain-append : (s t : Bytes) → IsPlain s → IsPlain t → IsPlain (s ++ t)
IsPlain-append [] t hs ht = ht
IsPlain-append (c ∷ s) t (hc, hs) ht = (hc, IsPlain-append s t hs ht)

IsPlain-digit : (k : ℕ) → k < 10 → IsPlain ((b'0' + k) ∷ [])
IsPlain-digit k h = ((λ e. absurd (omega arith), λ e. absurd (omega arith)), tt)

decimal_digits-IsPlain : (fuel n : ℕ) → IsPlain (decimal_digits fuel n)
unfolding decimal_digits
decimal_digits-IsPlain zero n = IsPlain-digit (n % 10) (omega arith)
decimal_digits-IsPlain (suc fuel) n = elim (Bool-cases (ltb n 10)) [
  | inl small ↦ rw small (IsPlain-digit n (ground arith))
  | inr large ↦ rw large (
      IsPlain-append (decimal_digits fuel (n / 10)) ((b'0' + n % 10) ∷ [])
        (decimal_digits-IsPlain fuel (n / 10)) (IsPlain-digit (n % 10) (omega arith)))
]

IsPlain-digits : (t : DataType) → IsPlain (to_string (data_type_to_int t))
unfolding to_string
IsPlain-digits t = decimal_digits-IsPlain 9 (data_type_to_int t)

parse_type-to_string : (t : DataType) → parse_type (to_string (data_type_to_int t)) ≡ some t
unfolding parse_type stoi read_sign skip_space is_digit read_digits starts_with_digit
    int_to_data_type to_string decimal_digits data_type_to_int
parse_type-to_string unknown = refl
parse_type-to_string int = refl
parse_type-to_string long = refl
parse_type-to_string float = refl
parse_type-to_string double = refl
parse_type-to_string decimal = refl
parse_type-to_string real = refl
parse_type-to_string char = refl
parse_type-to_string varchar = refl
parse_type-to_string text = refl
parse_type-to_string datetime = refl
parse_type-to_string date = refl
parse_type-to_string time = refl
parse_type-to_string smallint = refl

mark_other : (c : ℕ) → (c ≢ b'^') × (c ≢ b'$') → mark c ≡ other
unfolding mark
mark_other c (nc, nd) =
    let e : (c == b'^') ≡ false = ground arith in
    let f : (c == b'$') ≡ false = ground arith in rw (e, f)

col_loop-plain :
    (name str p rest : Bytes)
    → IsPlain p
    → col_loop false name str (p ++ rest) ≡ col_loop false name (str ++ p) rest
unfolding col_loop
col_loop-plain name str [] rest h = ap (λ s. col_loop false name s rest) (sym (append-nil str))
col_loop-plain name str (c ∷ p) rest (hc, h) =
    rw (col_loop, mark_other c hc)
      (col_loop-plain name (str ++ (c ∷ [])) p rest h
        ∙ ap (λ s. col_loop false name s rest) (append_assoc str (c ∷ []) p))

-- The name of a column, the mark and the type's code, read from the start of a column.
col_loop-column :
    (name old rest : Bytes) (t : DataType)
    → IsPlain name
    → col_loop false old [] (name ++ b'^' ∷ (to_string (data_type_to_int t) ++ rest))
      ≡ col_loop false name (to_string (data_type_to_int t)) rest
unfolding col_loop mark
col_loop-column name old rest t h =
    col_loop-plain old [] name (b'^' ∷ (to_string (data_type_to_int t) ++ rest)) h
    ∙ col_loop-plain name [] (to_string (data_type_to_int t)) rest (IsPlain-digits t)

-- The columns of a table that can be recovered: no mark in a name, and no value.
abbrev pub IsTable : List TableColumn → Type 0
IsTable cols = All (λ c. IsPlain c.col_name × (c.val ≡ [])) cols

without_value : (c : TableColumn) → c.val ≡ [] → new_column c.col_name c.col_type ≡ c
unfolding new_column
without_value c h = ap (λ v. record c { val = v }) (sym h)

col_loop-describe :
    (cols : List TableColumn) (c : TableColumn) (old : Bytes)
    → IsTable (c ∷ cols)
    → col_loop false old [] (describe (c ∷ cols)) ≡ some (c ∷ cols)
unfolding describe col_loop mark
col_loop-describe [] c old ((hn, hv), h) =
    let code = to_string (data_type_to_int c.col_type) in
    ap (λ s. col_loop false old [] (c.col_name ++ b'^' ∷ s)) (sym (append-nil code))
    ∙ col_loop-column c.col_name old [] c.col_type hn
    ∙ rw (parse_type-to_string c.col_type, without_value c hv)
col_loop-describe (d ∷ cols) c old ((hn, hv), h) =
    col_loop-column c.col_name old (b'$' ∷ b'$' ∷ describe (d ∷ cols)) c.col_type hn
    ∙ rw
        (parse_type-to_string c.col_type, col_loop-describe cols d c.col_name h, without_value c hv)

-- `GetColFromStr` on the description that `CreateTable` stores gives the columns of the table, for
-- at least one column, names without `^` and `$`, and columns that carry no value.
pub get_col_from_str-describe :
    (c : TableColumn) (cols : List TableColumn)
    → IsTable (c ∷ cols)
    → get_col_from_str (describe (c ∷ cols)) ≡ some (c ∷ cols)
unfolding get_col_from_str
get_col_from_str-describe c cols h = col_loop-describe cols c [] h

-- The empty string describes no table: `std::stoi` throws.
pub get_col_from_str-empty : get_col_from_str [] ≡ none
unfolding get_col_from_str col_loop parse_type stoi starts_with_digit read_sign skip_space
get_col_from_str-empty = refl
