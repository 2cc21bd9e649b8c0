-- ===== src/ProtoParser/Format.antt =====
-- The formatters of network/common.cc, which put replies and requests into an `UnboundedBuffer`. Each
-- returns how many bytes it added.
use uhp_sql.Common.{
  ℕ, ◌+◌, ◌^◌, ◌≤◌, ◌<◌, ◌≡◌, refl, sym, ap, ◌∙◌, true, Option, none, some, List, [], ◌∷◌, ◌++◌,
  append-nil, append_assoc, arith, ltb, if◌then◌else◌, Bytes, codes, ◌>>=◌, length, get_elem?,
  length-append,
}
use mathlib.Core.Path.{subst}
use uhp_sql.Meta.{decimal_digits}
use uhp_sql.UnboundedBuffer.{UnboundedBuffer, max_buffer_size, sub_size, readable_size, push_data}
use uhp_sql.UnboundedBuffer.Invariant.{IsValid, contents, length-contents, readable_size_lem}
use uhp_sql.UnboundedBuffer.Fifo.{push_data-Pushed}
use uhp_sql.ProtoParser.{parse_request, ok}
use uhp_sql.ProtoParser.RoundTrip.{
  crlf, number, bulks, request, reading, AreShort, parse_request-request,
}

-- The texts of `g_errorInfo`.
abbrev pub error_info : List Bytes
error_info =
    codes "+OK\r\n"
    ∷ codes "-ERR Operation against a key holding the wrong kind of value\r\n"
    ∷ codes "-ERR already exist"
    ∷ codes "-ERR no such key\r\n"
    ∷ codes "-ERR wrong number of arguments\r\n"
    ∷ codes "-ERR Unknown command\r\n"
    ∷ codes "-ERR value is not an integer or out of range\r\n"
    ∷ codes "-ERR syntax error\r\n"
    ∷ []

-- `PushData` of several pieces in turn.
abbrev pub push_pieces : List Bytes → UnboundedBuffer → Option UnboundedBuffer
push_pieces [] b = some b
push_pieces (d ∷ ds) b = push_data b d >>= λ p. push_pieces ds p.1

-- `ReplyError`, with no entry for Error_nop.
unfoldable pub reply_error : ℕ → UnboundedBuffer → Option UnboundedBuffer
reply_error err b = get_elem? error_info err >>= λ text. push_pieces (text ∷ []) b

-- The bytes added behind `b`.
abbrev pub added : UnboundedBuffer → UnboundedBuffer → ℕ × UnboundedBuffer
added b b' = (sub_size (readable_size b') (readable_size b), b')

unfoldable pub format_ok : UnboundedBuffer → Option (ℕ × UnboundedBuffer)
format_ok b = push_pieces (codes "+OK\r\n" ∷ []) b >>= λ b'. some (added b b')

unfoldable pub format_null : UnboundedBuffer → Option (ℕ × UnboundedBuffer)
format_null b = push_pieces (codes "$-1\r\n" ∷ []) b >>= λ b'. some (added b b')

-- `"%lu" CRLF`.
abbrev pub line_of : ℕ → Bytes
line_of n = decimal_digits 19 n ++ crlf []

-- What `FormatBulk` pushes.
abbrev pub pieces_of : Bytes → List Bytes
pieces_of s =
    (b'$' ∷ []) ∷ line_of (length s) ∷ (if ltb 0 (length s) then s ∷ crlf [] ∷ [] else crlf [] ∷ [])

-- `FormatBulk`; a string that is empty is not pushed.
unfoldable pub format_bulk : Bytes → UnboundedBuffer → Option (ℕ × UnboundedBuffer)
format_bulk s b = push_pieces (pieces_of s) b >>= λ b'. some (added b b')

-- `PreFormatMultiBulk`.
unfoldable pub pre_format_multi_bulk : ℕ → UnboundedBuffer → Option (ℕ × UnboundedBuffer)
pre_format_multi_bulk n b = push_pieces ((b'*' ∷ []) ∷ line_of n ∷ []) b >>= λ b'. some (added b b')

-- `FormatMultiBulk`.
unfoldable pub format_multi_bulk : List Bytes → UnboundedBuffer → Option (ℕ × UnboundedBuffer)
format_multi_bulk [] b = some (0, b)
format_multi_bulk (s ∷ vs) b =
    format_bulk s b >>= λ r. format_multi_bulk vs r.1 >>= λ rest. some (r.0 + rest.0, rest.1)

-- The bytes of some pieces together.
abbrev joined : List Bytes → Bytes
joined [] = []
joined (d ∷ ds) = d ++ joined ds

-- A formatter that adds `bytes` and returns their number.
pub record Adds (b : UnboundedBuffer) (bytes : Bytes) (r : Option (ℕ × UnboundedBuffer))
    : Type 0 where
  pub after : UnboundedBuffer
  pub returns : r ≡ some (length bytes, after)
  pub valid : IsValid after
  pub appended : contents after ≡ contents b ++ bytes

-- Pieces that were all pushed.
record PushedAll (b : UnboundedBuffer) (ds : List Bytes) (r : Option UnboundedBuffer) : Type 0 where
  after : UnboundedBuffer
  returns : r ≡ some after
  valid : IsValid after
  appended : contents after ≡ contents b ++ joined ds

push_pieces-PushedAll :
    (ds : List Bytes) (b : UnboundedBuffer)
    → IsValid b
    → length (joined ds) + length (contents b) ≤ max_buffer_size
    → PushedAll b ds (push_pieces ds b)
push_pieces-PushedAll [] b v fits = record {
  after = b;
  returns = refl;
  valid = v;
  appended = sym (append-nil (contents b));
}
push_pieces-PushedAll (d ∷ ds) b v fits =
    let one = push_data-Pushed b d v (omega (arith, length-append d (joined ds))) in
    let rest = push_pieces-PushedAll ds one.after one.valid (
      omega (
        arith,
        length-append d (joined ds),
        ap length one.appended,
        length-append (contents b) d,
      )) in
    record {
      after = rest.after;
      returns = rw one.returns rest.returns;
      valid = rest.valid;
      appended =
          rest.appended
          ∙ ap (λ t. t ++ joined ds) one.appended
          ∙ append_assoc (contents b) d (joined ds);
    }

-- A formatter that pushes pieces.
pushes-Adds :
    (ds : List Bytes) (b : UnboundedBuffer)
    → IsValid b
    → length (joined ds) + length (contents b) ≤ max_buffer_size
    → Adds b (joined ds) (push_pieces ds b >>= λ b'. some (added b b'))
pushes-Adds ds b v fits =
    let p = push_pieces-PushedAll ds b v fits in
    let n : sub_size (readable_size p.after) (readable_size b) ≡ length (joined ds) = omega (
      arith,
      readable_size_lem b v,
      readable_size_lem p.after p.valid,
      length-contents b v,
      length-contents p.after p.valid,
      ap length p.appended,
      length-append (contents b) (joined ds),
    ) in
    record {
      after = p.after;
      returns = rw p.returns (ap (λ k. some (k, p.after)) n);
      valid = p.valid;
      appended = p.appended;
    }

-- The pieces of a string are its bytes in a request.
bulk_pieces : (s : Bytes) → joined (pieces_of s) ≡ bulks (s ∷ []) []
bulk_pieces [] = ap (λ t. b'$' ∷ t) (append_assoc (decimal_digits 19 0) (crlf []) (crlf []))
bulk_pieces (x ∷ s) =
    let some_bytes : ltb 0 (length (x ∷ s)) ≡ true = ground arith in
    rw some_bytes
      (ap (λ t. b'$' ∷ t) (append_assoc (decimal_digits 19 (length (x ∷ s))) (crlf []) _))

bulks-cons : (s : Bytes) (vs : List Bytes) → bulks (s ∷ vs) [] ≡ bulks (s ∷ []) [] ++ bulks vs []
bulks-cons s vs =
    ap (λ t. b'$' ∷ (decimal_digits 19 (length s) ++ crlf t))
      (sym (append_assoc s (crlf []) (bulks vs [])))
    ∙ ap (λ t. b'$' ∷ t)
        (sym (append_assoc (decimal_digits 19 (length s)) (crlf (s ++ crlf [])) (bulks vs [])))

format_bulk-Adds :
    (s : Bytes) (b : UnboundedBuffer)
    → IsValid b
    → length (bulks (s ∷ []) []) + length (contents b) ≤ max_buffer_size
    → Adds b (bulks (s ∷ []) []) (format_bulk s b)
unfolding format_bulk
format_bulk-Adds s b v fits =
    subst (λ t. Adds b t (format_bulk s b)) (bulk_pieces s)
      (pushes-Adds (pieces_of s) b v (omega (arith, ap length (bulk_pieces s))))

format_multi_bulk-Adds :
    (vs : List Bytes) (b : UnboundedBuffer)
    → IsValid b
    → length (bulks vs []) + length (contents b) ≤ max_buffer_size
    → Adds b (bulks vs []) (format_multi_bulk vs b)
unfolding format_multi_bulk
format_multi_bulk-Adds [] b v fits = record {
  after = b;
  returns = refl;
  valid = v;
  appended = sym (append-nil (contents b));
}
format_multi_bulk-Adds (s ∷ vs) b v fits =
    let size = ap length (bulks-cons s vs) ∙ length-append (bulks (s ∷ []) []) (bulks vs []) in
    let one = format_bulk-Adds s b v (omega (arith, size)) in
    let rest = format_multi_bulk-Adds vs one.after one.valid (
      omega
        (arith, size, ap length one.appended, length-append (contents b) (bulks (s ∷ []) []))) in
    record {
      after = rest.after;
      returns = rw (one.returns, rest.returns) (ap (λ n. some (n, rest.after)) (sym size));
      valid = rest.valid;
      appended =
          rest.appended
          ∙ ap (λ t. t ++ bulks vs []) one.appended
          ∙ append_assoc (contents b) (bulks (s ∷ []) []) (bulks vs [])
          ∙ ap (λ t. contents b ++ t) (sym (bulks-cons s vs));
    }

pre_format_multi_bulk-Adds :
    (n : ℕ) (b : UnboundedBuffer)
    → IsValid b
    → length (number b'*' n []) + length (contents b) ≤ max_buffer_size
    → Adds b (number b'*' n []) (pre_format_multi_bulk n b)
unfolding pre_format_multi_bulk
pre_format_multi_bulk-Adds n b v fits =
    let pieces : List Bytes = (b'*' ∷ []) ∷ line_of n ∷ [] in
    let same : joined pieces ≡ number b'*' n [] = ap (λ t. b'*' ∷ t) (append-nil (line_of n)) in
    subst (λ t. Adds b t (pre_format_multi_bulk n b)) same
      (pushes-Adds pieces b v (omega (arith, ap length same)))

-- The count of the strings and the strings, as they are written for a request.
abbrev pub write_request : List Bytes → UnboundedBuffer → Option UnboundedBuffer
write_request vs b =
    pre_format_multi_bulk (length vs) b >>= λ r. format_multi_bulk vs r.1 >>= λ s. some s.1

-- `PreFormatMultiBulk` and `FormatMultiBulk` put a request into a buffer with nothing unread, from
-- which `ParseRequest` reads the same strings back, all of them at once and with nothing left, where
-- there are fewer than 2 ^ 31, each fits an `int` with the end of its line, and the whole stays
-- within MAX_BUFFER_SIZE.
pub parse_request-write_request :
    (vs old : List Bytes) (b : UnboundedBuffer)
    → IsValid b
    → contents b ≡ []
    → length vs < 2 ^ 31
    → AreShort vs
    → length (request vs []) ≤ max_buffer_size
    → (after : UnboundedBuffer) × (write_request vs b ≡ some after)
      × IsValid after
      × (parse_request (reading none [] old) (contents after)
          ≡ some (
            ok tt,
            [],
            record {
              multi = some (length vs);
              param_len = none;
              num_of_param = length vs;
              params = vs;
            },
          ))
parse_request-write_request vs old b v empty few short fits =
    let whole : request vs [] ≡ number b'*' (length vs) [] ++ bulks vs [] =
      ap (λ t. b'*' ∷ t)
        (sym (append_assoc (decimal_digits 19 (length vs)) (crlf []) (bulks vs []))) in
    let size = ap length whole ∙ length-append (number b'*' (length vs) []) (bulks vs []) in
    let none_yet = ap length empty in
    let one = pre_format_multi_bulk-Adds (length vs) b v (omega (arith, size, none_yet)) in
    let head : contents one.after ≡ number b'*' (length vs) [] =
      one.appended ∙ ap (λ t. t ++ number b'*' (length vs) []) empty in
    let rest =
      format_multi_bulk-Adds vs one.after one.valid (omega (arith, size, ap length head)) in
    let all : contents rest.after ≡ request vs [] =
      rest.appended ∙ ap (λ t. t ++ bulks vs []) head ∙ sym whole in
    (
      rest.after,
      rw (one.returns, rest.returns) refl,
      rest.valid,
      ap (parse_request (reading none [] old)) all ∙ parse_request-request vs old [] few short,
    )
