-- ===== src/Tests/Requests.antt =====
-- Requests of Redis: one written and read, and ones that arrive in parts.
use uhp_sql.Common.{◌≡◌, refl, none, some, List, [], ◌∷◌, Bytes, codes, arith}
use uhp_sql.UnboundedBuffer.{UnboundedBuffer}
use uhp_sql.UnboundedBuffer.Invariant.{IsValid, contents}
use uhp_sql.ProtoParser.{
  ok, wait, error, scan_digits, get_int_until_crlf, initial, parse_number, parse_strval,
  parse_behind, parse_str, parse_strlist, parse_strings, parse_from, parse_request,
}
use uhp_sql.ProtoParser.RoundTrip.{reading, AreShort}
use uhp_sql.ProtoParser.Format.{write_request, parse_request-write_request}
use uhp_sql.Meta.{decimal_digits}

abbrev set_words : List Bytes
set_words = codes "set" ∷ [] ∷ codes "a\r\nb" ∷ []

abbrev buffer : UnboundedBuffer
buffer = record { read_pos = 1; write_pos = 1; buffer = 1 ∷ 2 ∷ [] }

buffer-IsValid : IsValid buffer
buffer-IsValid = record { ordered = omega arith; within = omega arith; addressable = omega arith }

set_words-AreShort : AreShort set_words
set_words-AreShort = (omega arith, (omega arith, (omega arith, tt)))

parse_request-write_request_example :
    (after : UnboundedBuffer) × (write_request set_words buffer ≡ some after)
    × IsValid after
    × (parse_request (reading none [] ((7 ∷ []) ∷ [])) (contents after)
        ≡ some (
          ok tt,
          [],
          record { multi = some 3; param_len = none; num_of_param = 3; params = set_words },
        ))
unfolding decimal_digits
parse_request-write_request_example =
    parse_request-write_request set_words ((7 ∷ []) ∷ []) buffer buffer-IsValid refl (omega arith)
      set_words-AreShort (omega arith)

-- A string that has not arrived whole is waited for, and read once the rest is there.
half_a_string :
    parse_request initial (codes "*1\r\n$3\r\nse")
    ≡ some (
      wait,
      codes "se",
      record { multi = some 1; param_len = some 3; num_of_param = 0; params = [] ∷ [] },
    )
unfolding parse_request parse_from parse_number get_int_until_crlf scan_digits parse_strings
    parse_strlist parse_str parse_behind parse_strval
half_a_string = refl

other_half :
    parse_request
      (record { multi = some 1; param_len = some 3; num_of_param = 0; params = [] ∷ [] })
      (codes "set\r\n")
    ≡ some (
      ok tt,
      [],
      record { multi = some 1; param_len = none; num_of_param = 1; params = codes "set" ∷ [] },
    )
unfolding parse_request parse_from parse_strlist parse_str parse_strval
other_half = refl

-- A count whose line has not arrived whole: the pointer stays behind the `*`, so what is left is
-- an error when the rest is there.
half_a_count : parse_request initial (codes "*12\r") ≡ some (wait, codes "12\r", initial)
unfolding parse_request parse_from parse_number get_int_until_crlf scan_digits parse_strings
half_a_count = refl

rest_of_count :
    parse_request initial (codes "12\r\n$3\r\n") ≡ some (error, codes "12\r\n$3\r\n", initial)
unfolding parse_request parse_from parse_number get_int_until_crlf scan_digits parse_strings
rest_of_count = refl

-- Where only digits have arrived, the pointer moves past the end.
digits_only : parse_request initial (codes "*123") ≡ none
unfolding parse_request parse_from parse_number get_int_until_crlf scan_digits
digits_only = refl
