-- ===== src/AsyncBuffer/Fifo.antt =====
-- An `AsyncBuffer` is a queue of bytes: what is written comes out in order, whichever of the three
-- buffers it goes through.
use uhp_sql.Common.{
  ℕ, zero, suc, ◌+◌, ◌≤◌, ◌≡◌, refl, sym, ap, ◌∙◌, Bool, true, Option, some, List, [], ◌∷◌, ◌++◌,
  append-nil, append_assoc, arith, ltb, if◌then◌else◌, Bytes, ◌>>=◌, length, take, drop,
  length-append, length-take, take-append-drop, drop-append_length,
}
use uhp_sql.UnboundedBuffer.{max_buffer_size}
use uhp_sql.AsyncBuffer.{AsyncBuffer, Pieces, joined, write, process_buffer, skip}
use uhp_sql.AsyncBuffer.Write.{length-joined, IsValid, contents, Written, write-Written}
use uhp_sql.AsyncBuffer.Send.{front_size, Offered, process_buffer-Offered, skip-drop}

-- What happens to the buffer of a socket: a `Write`, or an attempt to send of which the system
-- takes at most `accepted` bytes, and whose `try_lock` answers `free`.
pub data Op : Type 0 where
  put : Pieces → Op
  send : (free : Bool) (accepted : ℕ) → Op

-- `if (nSent > 0) sendBuf_.Skip(nSent)`.
unfoldable pub skip_sent : AsyncBuffer → ℕ → Option AsyncBuffer
skip_sent a n = if ltb 0 n then skip a n else some a

-- An attempt to send, as the socket makes it: the bytes taken are passed over.
send_step : Bool → ℕ → AsyncBuffer → Option (Bytes × AsyncBuffer)
send_step free accepted a = do
  (pieces, b) ← process_buffer free a
  let sent = take accepted (joined pieces)
  c ← skip_sent b (length sent)
  some (sent, c)

-- The bytes sent altogether, and the buffer afterwards.
pub run : AsyncBuffer → List Op → Option (Bytes × AsyncBuffer)
run a [] = some ([], a)
run a (put ds ∷ ops) = write a ds >>= λ b. run b ops
run a (send free accepted ∷ ops) = do
  (sent, b) ← send_step free accepted a
  (later, c) ← run b ops
  some (sent ++ later, c)

-- The bytes that the operations write altogether.
abbrev pub written : List Op → Bytes
written [] = []
written (put ds ∷ ops) = joined ds ++ written ops
written (send free accepted ∷ ops) = written ops

pub record InOrder (a : AsyncBuffer) (ops : List Op) (r : Option (Bytes × AsyncBuffer))
    : Type 0 where
  pub sent : Bytes
  pub after : AsyncBuffer
  pub returns : r ≡ some (sent, after)
  pub valid : IsValid after
  pub in_order : sent ++ contents after ≡ contents a ++ written ops

skip_sent-drop :
    (a : AsyncBuffer) (n : ℕ)
    → IsValid a
    → n ≤ front_size a
    → (b : AsyncBuffer) × (skip_sent a n ≡ some b) × (contents b ≡ drop n (contents a)) × IsValid b
unfolding skip_sent
skip_sent-drop a zero v h = (a, refl, refl, v)
skip_sent-drop a (suc n) v h =
    let more : ltb 0 (suc n) ≡ true = ground arith in rw more (skip-drop a (suc n) v h)

-- What was taken from the front of a string, put back.
put_back : (k : ℕ) (j rest c : Bytes) → c ≡ j ++ rest → take k j ++ drop (length (take k j)) c ≡ c
put_back k j rest c e =
    let s = take k j in
    let whole : c ≡ s ++ (drop k j ++ rest) =
      e ∙ ap (λ t. t ++ rest) (sym (take-append-drop k j)) ∙ append_assoc s (drop k j) rest in
    ap (λ t. s ++ drop (length s) t) whole
    ∙ ap (λ t. s ++ t) (drop-append_length s (drop k j ++ rest))
    ∙ sym whole

-- The first `k` of the bytes offered, when they are passed over.
pub skip_sent-Offered :
    (free : Bool) (k : ℕ) (a : AsyncBuffer) (o : Offered free a (process_buffer free a))
    → (b : AsyncBuffer) × (skip_sent o.after (length (take k (joined o.pieces))) ≡ some b)
      × IsValid b
      × (take k (joined o.pieces) ++ contents b ≡ contents a)
skip_sent-Offered free k a o =
    let s = take k (joined o.pieces) in
    let fit : length s ≤ length (joined o.pieces) =
      omega (arith, length-take k (joined o.pieces)) in
    let (b, skipped, rest, valid) =
      skip_sent-drop o.after (length s) o.valid (omega (arith, fit, o.skippable)) in
    (
      b,
      skipped,
      valid,
      ap (λ t. s ++ t) (rest ∙ ap (drop (length s)) o.same)
          ∙ put_back k (joined o.pieces) o.rest (contents a) o.front,
    )

record Sent (a : AsyncBuffer) (r : Option (Bytes × AsyncBuffer)) : Type 0 where
  sent : Bytes
  after : AsyncBuffer
  returns : r ≡ some (sent, after)
  valid : IsValid after
  in_order : sent ++ contents after ≡ contents a

send_step-Sent :
    (free : Bool) (accepted : ℕ) (a : AsyncBuffer) → IsValid a → Sent a (send_step free accepted a)
unfolding send_step
send_step-Sent free accepted a v =
    let o = process_buffer-Offered free a v in
    let (b, skipped, valid, order) = skip_sent-Offered free accepted a o in
    record {
      sent = take accepted (joined o.pieces);
      after = b;
      returns = rw (o.returns, skipped);
      valid = valid;
      in_order = order;
    }

-- Every sequence of writes and attempts to send runs through on a valid buffer, as long as what is
-- to be sent and all that is written stay within MAX_BUFFER_SIZE, and what was sent with what is
-- left is what was there at first with all that was written, in order.
pub run-InOrder :
    (ops : List Op) (a : AsyncBuffer)
    → IsValid a
    → length (written ops) + length (contents a) ≤ max_buffer_size
    → InOrder a ops (run a ops)
unfolding run
run-InOrder [] a v h = record {
  sent = [];
  after = a;
  returns = refl;
  valid = v;
  in_order = sym (append-nil (contents a));
}
run-InOrder (put ds ∷ ops) a v h =
    let w : Written a ds (write a ds) =
      write-Written a ds v
        (omega (arith, length-append (joined ds) (written ops), length-joined ds)) in
    let r : InOrder w.after ops (run w.after ops) = run-InOrder ops w.after w.valid (
      omega (
        arith,
        length-append (joined ds) (written ops),
        ap length w.appended,
        length-append (contents a) (joined ds),
      )) in
    rw w.returns (record {
      sent = r.sent;
      after = r.after;
      returns = r.returns;
      valid = r.valid;
      in_order =
          r.in_order
          ∙ ap (λ s. s ++ written ops) w.appended
          ∙ append_assoc (contents a) (joined ds) (written ops);
    })
run-InOrder (send free accepted ∷ ops) a v h =
    let s : Sent a (send_step free accepted a) = send_step-Sent free accepted a v in
    let r : InOrder s.after ops (run s.after ops) =
      run-InOrder ops s.after s.valid
        (omega (arith, ap length s.in_order, length-append s.sent (contents s.after))) in
    rw (s.returns, r.returns)
      (record {
        sent = s.sent ++ r.sent;
        after = r.after;
        returns = refl;
        valid = r.valid;
        in_order =
            append_assoc s.sent r.sent (contents r.after)
            ∙ ap (λ t. s.sent ++ t) r.in_order
            ∙ sym (append_assoc s.sent (contents s.after) (written ops))
            ∙ ap (λ t. t ++ written ops) s.in_order;
      })
