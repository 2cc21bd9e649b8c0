-- ===== src/ProtoParser.antt =====
-- The parser of Redis requests, network/proto_parser.cc, and the formatters of network/common.cc. A
-- pointer into the received bytes is what is left of them. `none` is undefined behaviour: an `int`
-- that overflows, or a pointer past the end.
pub mod Numbers
pub mod RoundTrip
pub mod Format
use uhp_sql.Common.{
  ℕ, zero, suc, ◌+◌, ◌-◌, ◌*◌, ◌^◌, Bool, true, false, not, ◌&&◌, ◌||◌, Option, none, some, List,
  [], ◌∷◌, ◌++◌, ltb, leb, ◌==◌, if◌then◌else◌, Bytes, codes, ◌>>=◌, length, take, drop, get_or,
  set,
}
use uhp_sql.Common.Segments.{resize}
use uhp_sql.Meta.{decimal_digits}
use uhp_sql.UnboundedBuffer.{UnboundedBuffer, readable_size, push_data}

-- `ParseResult`, with the number or string that it comes with where it is `ok`.
pub data ParseResult (A : Type 0) : Type 0 where
  ok : A → ParseResult A
  wait : ParseResult A
  error : ParseResult A

-- A digit, as `isdigit` says.
abbrev pub is_digit : ℕ → Bool
is_digit c = leb b'0' c && leb c b'9'

-- The loop of `GetIntUntilCRLF`: the number, and what is left behind the line. Where the digits go
-- on to the end, the pointer moves two bytes past it.
unfoldable pub scan_digits : ℕ → Bytes → Option (ParseResult (ℕ × Bytes))
scan_digits value [] = none
scan_digits value (c ∷ s) =
    let value' = value * 10 + (c - b'0') in
    let rest = scan_digits value' s in
    if is_digit c
    then if ltb value' (2 ^ 31) then rest else none
    else if not (c == 13) || (ltb 0 (length s) && not (get_or s 0 0 == 10))
    then some error
    else if length s == 0
    then some wait
    else some (ok (value, drop 1 s))

unfoldable pub get_int_until_crlf : Bytes → Option (ParseResult (ℕ × Bytes))
unfolding scan_digits
get_int_until_crlf bytes = if ltb (length bytes) 3 then some wait else scan_digits 0 bytes

-- The members; `none` of a number is -1.
pub record ProtoParser : Type 0 where
  pub multi : Option ℕ
  pub param_len : Option ℕ
  pub num_of_param : ℕ
  pub params : List Bytes

abbrev pub initial : ProtoParser
initial = record { multi = none; param_len = none; num_of_param = 0; params = [] }

-- `Reset`.
unfoldable pub reset : ProtoParser → ProtoParser
reset p = record { multi = none; param_len = none; num_of_param = 0; params = take 3 p.params }

-- What a call leaves: whether it is done, has to wait or found an error, the bytes left, and the
-- parser.
abbrev pub Left : Type 0
Left = ParseResult (Unit {0}) × Bytes × ProtoParser

-- A number behind the byte `sign`. The answer to waiting or to an error says where the pointer
-- stands then: behind `sign` for the count of strings, before it for the length of a string.
unfoldable pub parse_number : ℕ → Bool → Bytes → Option (ParseResult (ℕ × Bytes) × Bytes)
unfolding get_int_until_crlf
parse_number sign restores bytes =
    let read = get_int_until_crlf (drop 1 bytes) >>= λ r.
    some (r, if restores then bytes else drop 1 bytes) in
    if ltb (length bytes) 3
    then some (wait, bytes)
    else if not (get_or bytes 0 0 == sign)
    then some (error, bytes)
    else read

-- `_ParseStrval` of a string of `n` bytes.
unfoldable pub parse_strval : ProtoParser → ℕ → Bytes → Option Left
parse_strval p n bytes =
    if leb (2 ^ 31) (n + 2)
    then none
    else if ltb (length bytes) (n + 2)
    then some (wait, bytes, p)
    else if not (get_or bytes n 0 == 13) || not (get_or bytes (n + 1) 0 == 10)
    then some (error, bytes, p)
    else some (
      ok tt,
      drop (n + 2) bytes,
      record p { param_len = none; params = set p.params p.num_of_param (take n bytes) },
    )

-- `_ParseStr` once the length is read, or not.
unfoldable pub parse_behind : ProtoParser → ParseResult (ℕ × Bytes) × Bytes → Option Left
unfolding parse_strval
parse_behind p (ok (n, rest), bytes) = parse_strval (record p { param_len = some n }) n rest
parse_behind p (wait, bytes) = some (wait, bytes, p)
parse_behind p (error, bytes) = some (error, bytes, p)

unfoldable pub parse_str : ProtoParser → Option ℕ → Bytes → Option Left
unfolding parse_behind parse_number
parse_str p none bytes = parse_number b'$' true bytes >>= λ r. parse_behind p r
parse_str p (some n) bytes = parse_strval p n bytes

-- The loop of `_ParseStrlist`, which has `left` strings to go.
unfoldable pub parse_strlist : ℕ → ProtoParser → Bytes → Option Left
unfolding parse_str
parse_strlist zero p bytes =
    some (ok tt, bytes, record p { params = resize p.num_of_param [] p.params })
parse_strlist (suc left) p bytes =
    let n = p.num_of_param in
    let room = record p {
      params = if ltb (length p.params) (n + 1) then resize (n + 1) [] p.params else p.params;
    } in
    parse_str room p.param_len bytes >>= λ r. elim r.0 [
      | ok _ ↦ parse_strlist left (record (r.2) { num_of_param = n + 1 }) r.1
      | wait ↦ some r
      | error ↦ some r
    ]

-- `ParseRequest` once the count of strings is read, or not.
unfoldable pub parse_strings : ProtoParser → ParseResult (ℕ × Bytes) × Bytes → Option Left
unfolding parse_strlist
parse_strings p (ok (n, rest), bytes) =
    parse_strlist (n - p.num_of_param) (record p { multi = some n }) rest
parse_strings p (wait, bytes) = some (wait, bytes, p)
parse_strings p (error, bytes) = some (error, bytes, p)

unfoldable pub parse_from : ProtoParser → Option ℕ → Bytes → Option Left
unfolding parse_strings parse_number
parse_from p none bytes = parse_number b'*' false bytes >>= λ r. parse_strings p r
parse_from p (some n) bytes = parse_strlist (n - p.num_of_param) p bytes

unfoldable pub parse_request : ProtoParser → Bytes → Option Left
unfolding parse_from
parse_request p bytes = parse_from p p.multi bytes
