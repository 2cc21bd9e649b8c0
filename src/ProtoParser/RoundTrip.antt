-- ===== src/ProtoParser/RoundTrip.antt =====
-- A request that was written is read back.
use uhp_sql.Common.{
  ℕ, suc, ◌+◌, ◌-◌, ◌^◌, ◌<◌, ◌≡◌, refl, ap, ◌∙◌, Bool, true, false, Option, none, some, List, [],
  ◌∷◌, ◌++◌, append-nil, append_assoc, arith, ltb, leb, ◌==◌, if◌then◌else◌, Bytes, length, All,
  get_or, set, drop, length-append, take-append_length, take_of_length-le,
}
use uhp_sql.Common.Segments.{resize}
use uhp_sql.Meta.{decimal_digits}
use uhp_sql.ProtoParser.{
  ok, ProtoParser, parse_number, parse_strval, parse_behind, parse_str, parse_strlist,
  parse_strings, parse_from, parse_request,
}
use uhp_sql.ProtoParser.Numbers.{get_int_until_crlf-decimal_digits, decimal_digits-some}

-- The end of a line, and what is behind it.
abbrev pub crlf : Bytes → Bytes
crlf rest = 13 ∷ 10 ∷ rest

-- A number behind a byte, as a line before `rest`.
abbrev pub number : ℕ → ℕ → Bytes → Bytes
number sign n rest = sign ∷ (decimal_digits 19 n ++ crlf rest)

-- The strings of a request before `rest`, and the whole request.
abbrev pub bulks : List Bytes → Bytes → Bytes
bulks [] rest = rest
bulks (v ∷ vs) rest = number b'$' (length v) (v ++ crlf (bulks vs rest))

abbrev pub request : List Bytes → Bytes → Bytes
request vs rest = number b'*' (length vs) (bulks vs rest)

parse_number-number :
    (sign : ℕ) (restores : Bool) (n : ℕ) (rest : Bytes)
    → n < 2 ^ 31
    → parse_number sign restores (number sign n rest)
      ≡ some (
        ok (n, rest),
        (if restores then number sign n rest else decimal_digits 19 n ++ crlf rest),
      )
unfolding parse_number
parse_number-number sign restores n rest small =
    let long : ltb (suc (length (decimal_digits 19 n ++ crlf rest))) 3 ≡ false =
      ground (arith, decimal_digits-some 19 n, length-append (decimal_digits 19 n) (crlf rest)) in
    let first : (sign == sign) ≡ true = ground arith in
    rw (long, first, get_int_until_crlf-decimal_digits n rest small) refl

get_or-append : (v : Bytes) (c : ℕ) (t : Bytes) → get_or (v ++ c ∷ t) (length v) 0 ≡ c
get_or-append [] c t = refl
get_or-append (x ∷ v) c t = get_or-append v c t

get_or-append_next :
    (v : Bytes) (c d : ℕ) (t : Bytes) → get_or (v ++ c ∷ d ∷ t) (length v + 1) 0 ≡ d
get_or-append_next [] c d t = refl
get_or-append_next (x ∷ v) c d t =
    let e : suc (length v) + 1 ≡ suc (length v + 1) = omega arith in
    rw e (get_or-append_next v c d t)

drop-append_two : (v : Bytes) (c d : ℕ) (t : Bytes) → drop (length v + 2) (v ++ c ∷ d ∷ t) ≡ t
drop-append_two [] c d t = refl
drop-append_two (x ∷ v) c d t =
    let e : suc (length v) + 2 ≡ suc (length v + 2) = omega arith in rw e (drop-append_two v c d t)

parse_strval-append :
    (p : ProtoParser) (v t : Bytes)
    → length v + 2 < 2 ^ 31
    → parse_strval p (length v) (v ++ crlf t)
      ≡ some (ok tt, t, record p { param_len = none; params = set p.params p.num_of_param v })
unfolding parse_strval
parse_strval-append p v t small =
    let fits : leb (2 ^ 31) (length v + 2) ≡ false = ground arith in
    let there : ltb (length (v ++ crlf t)) (length v + 2) ≡ false =
      ground (arith, length-append v (crlf t)) in
    rw
      (
        fits,
        there,
        get_or-append v 13 (10 ∷ t),
        get_or-append_next v 13 10 t,
        drop-append_two v 13 10 t,
        take-append_length v (crlf t),
      )
      refl

-- A parser that has read the strings `done`, with what an earlier request left behind them.
abbrev pub reading : Option ℕ → List Bytes → List Bytes → ProtoParser
reading multi done old = record {
  multi = multi;
  param_len = none;
  num_of_param = length done;
  params = done ++ old;
}

-- Room for the next string.
made_room : List Bytes → List Bytes
made_room [] = [] ∷ []
made_room (o ∷ old) = o ∷ old

room_for_next :
    (done old : List Bytes)
    → (if ltb (length (done ++ old)) (length done + 1)
        then resize (length done + 1) [] (done ++ old)
        else done ++ old)
      ≡ done ++ made_room old
unfolding made_room
room_for_next done [] =
    let all : done ++ [] ≡ done = append-nil done in
    let short : ltb (length done) (length done + 1) ≡ true = ground arith in
    let one : length done + 1 - length done ≡ 1 = omega arith in
    rw (all, short, take_of_length-le (length done + 1) done (omega arith), one) refl
room_for_next done (o ∷ old) =
    let there : ltb (length (done ++ o ∷ old)) (length done + 1) ≡ false =
      ground (arith, length-append done (o ∷ old)) in
    rw there refl

rest_of : List Bytes → List Bytes
rest_of [] = []
rest_of (o ∷ old) = old

set_next :
    (done old : List Bytes) (v : Bytes)
    → set (done ++ made_room old) (length done) v ≡ (done ++ (v ∷ [])) ++ rest_of old
unfolding made_room rest_of
set_next [] [] v = refl
set_next [] (o ∷ old) v = refl
set_next (d ∷ done) old v = ap (λ t. d ∷ t) (set_next done old v)

parse_str-bulk :
    (multi : Option ℕ) (done old : List Bytes) (v t : Bytes)
    → length v + 2 < 2 ^ 31
    → parse_str
        (record (reading multi done old) { params = done ++ made_room old })
        none
        (number b'$' (length v) (v ++ crlf t))
      ≡ some
          (ok tt, t, record (reading multi done old) { params = (done ++ (v ∷ [])) ++ rest_of old })
unfolding parse_str parse_behind
parse_str-bulk multi done old v t small =
    rw
      (
        parse_number-number b'$' true (length v) (v ++ crlf t) (omega arith),
        parse_strval-append
            (record {
              multi = multi;
              param_len = some (length v);
              num_of_param = length done;
              params = done ++ made_room old;
            })
            v t small,
        set_next done old v,
      )
      refl

-- The strings fit an `int` with the ends of their lines.
abbrev pub AreShort : List Bytes → Type 0
AreShort vs = All (λ v. length v + 2 < 2 ^ 31) vs

parse_strlist-bulks :
    (vs : List Bytes) (multi : Option ℕ) (done old : List Bytes) (rest : Bytes)
    → AreShort vs
    → parse_strlist (length vs) (reading multi done old) (bulks vs rest)
      ≡ some (ok tt, rest, reading multi (done ++ vs) [])
unfolding parse_strlist
parse_strlist-bulks [] multi done old rest short =
    let none_missing : length done - length (done ++ old) ≡ 0 =
      omega (arith, length-append done old) in
    rw (none_missing, take-append_length done old)
      (rw (append-nil done) (rw (append-nil done) refl))
parse_strlist-bulks (v ∷ vs) multi done old rest (small, short) =
    let next : length done + 1 ≡ length (done ++ (v ∷ [])) =
      omega (arith, length-append done (v ∷ [])) in
    rw (room_for_next done old, parse_str-bulk multi done old v (bulks vs rest) small)
      (ap
          (λ n.
            parse_strlist (length vs)
              (record {
                multi = multi;
                param_len = none;
                num_of_param = n;
                params = (done ++ (v ∷ [])) ++ rest_of old;
              })
              (bulks vs rest))
          next
        ∙ parse_strlist-bulks vs multi (done ++ (v ∷ [])) (rest_of old) rest short
        ∙ ap (λ l. some (ok tt, rest, reading multi l [])) (append_assoc done (v ∷ []) vs))

-- A request of fewer than 2 ^ 31 strings, each of which fits an `int` with the end of its line, is
-- read back whole by a parser that begins, whatever strings an earlier request left in it: all of
-- the strings, and what follows the request is left.
pub parse_request-request :
    (vs old : List Bytes) (rest : Bytes)
    → length vs < 2 ^ 31
    → AreShort vs
    → parse_request (reading none [] old) (request vs rest)
      ≡ some (
        ok tt,
        rest,
        record {
          multi = some (length vs);
          param_len = none;
          num_of_param = length vs;
          params = vs;
        },
      )
unfolding parse_request parse_from parse_strings
parse_request-request vs old rest few short =
    let all_left : length vs - 0 ≡ length vs = omega arith in
    rw (parse_number-number b'*' false (length vs) (bulks vs rest) few, all_left)
      (parse_strlist-bulks vs (some (length vs)) [] old rest short
        ∙ ap
            (λ l. some (
              ok tt,
              rest,
              record {
                multi = some (length vs);
                param_len = none;
                num_of_param = length vs;
                params = l;
              },
            ))
            (append-nil vs))
