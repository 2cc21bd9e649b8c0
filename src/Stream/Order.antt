-- ===== src/Stream/Order.antt =====
-- A socket sends in order what is written to it, whatever the system takes, and what the system does
-- not take is waited for.
use uhp_sql.Common.{
  ◌+◌, ◌≤◌, ◌≡◌, refl, sym, ap, ◌∙◌, Bool, true, false, not, ◌||◌, inl, inr, Bool-cases, Option,
  some, List, [], ◌∷◌, ◌++◌, append-nil, append_assoc, arith, ◌==◌, if◌then◌else◌, Bytes, ◌>>=◌,
  length, length-append,
}
use uhp_sql.UnboundedBuffer.{max_buffer_size}
use uhp_sql.AsyncBuffer.{AsyncBuffer, Pieces, total, joined, write, process_buffer}
use uhp_sql.AsyncBuffer.Write.{length-joined, IsValid, contents, write-Written}
use uhp_sql.AsyncBuffer.Send.{Offered, process_buffer-Offered}
use uhp_sql.AsyncBuffer.Fifo.{skip_sent-Offered}
use uhp_sql.Stream.{
  Stream, Outcome, accepted, sent_of, epoll_after, send_pieces, send, on_writeable,
}

-- A valid send buffer, and the event registered at least while `epollOut_` is set: for a new
-- connection it is registered although `epollOut_` is not set.
pub record IsWatched (s : Stream) : Type 0 where
  pub valid : IsValid s.send_buf
  pub watched : not s.epoll_out || s.write_event ≡ true

-- Calls of `SendPacket`, of `Send` and of `OnWriteable`, which is to be called where the write event
-- is registered. The sending thread calls `OnWritable` of the base class in its place: what comes
-- of that is in NetThread.
pub data Call : Type 0 where
  packet : Pieces → Call
  try_send : (free : Bool) (o : Outcome) → Call
  writeable : (free : Bool) (o : Outcome) → Call

unfoldable pub step : Call → Stream → Option (Bytes × Stream)
step (packet ds) s = write s.send_buf ds >>= λ a. some ([], record s { send_buf = a })
step (try_send free o) s = send free o s >>= λ r. some (r.1, r.2)
step (writeable free o) s =
    let called = on_writeable free o s >>= λ r. some (r.1, r.2) in
    if s.write_event then called else some ([], s)

-- The bytes sent altogether, and the socket afterwards.
pub run : List Call → Stream → Option (Bytes × Stream)
run [] s = some ([], s)
run (c ∷ cs) s = do (sent, s') ← step c s; (later, s'') ← run cs s'; some (sent ++ later, s'')

-- The bytes that one call, and that all of them write.
abbrev pub packet_of : Call → Bytes
packet_of (packet ds) = joined ds
packet_of (try_send free o) = []
packet_of (writeable free o) = []

abbrev pub packets_of : List Call → Bytes
packets_of [] = []
packets_of (c ∷ cs) = packet_of c ++ packets_of cs

-- A call that goes through: the bytes that went out and what is left are what was there with
-- `bytes` behind it.
pub record Streamed (s : Stream) (bytes : Bytes) (r : Option (Bytes × Stream)) : Type 0 where
  pub sent : Bytes
  pub after : Stream
  pub returns : r ≡ some (sent, after)
  pub watched : IsWatched after
  pub in_order : sent ++ contents after.send_buf ≡ contents s.send_buf ++ bytes

-- `_Send` on the pieces that `ProcessBuffer` offers.
pub record Pushed (s : Stream) (o : Outcome) (ds : Pieces) (r : Option Stream) : Type 0 where
  pub buffer : AsyncBuffer
  pub returns : r ≡ some (record s { send_buf = buffer; epoll_out = epoll_after s.epoll_out o ds })
  pub valid : IsValid buffer
  pub in_order : sent_of o ds ++ contents buffer ≡ contents s.send_buf

pub send_pieces-Pushed :
    (s : Stream) (free : Bool) (o : Outcome)
    (f : Offered free s.send_buf (process_buffer free s.send_buf))
    → Pushed s o f.pieces (send_pieces s o f.pieces f.after)
unfolding send_pieces
send_pieces-Pushed s free o f =
    let (b, skipped, valid, order) = skip_sent-Offered free (accepted o) s.send_buf f in
    record { buffer = b; returns = rw skipped refl; valid = valid; in_order = order }

abbrev pub socket : AsyncBuffer → Bool → Bool → Stream
socket a waits event = record { send_buf = a; epoll_out = waits; write_event = event }

enabled : (event waits : Bool) → not waits || (event || waits) ≡ true
enabled true true = refl
enabled true false = refl
enabled false true = refl
enabled false false = refl

kept : (waits : Bool) → not waits || waits ≡ true
kept true = refl
kept false = refl

send-Streamed :
    (free : Bool) (o : Outcome) (a : AsyncBuffer) (waits event : Bool)
    → IsWatched (socket a waits event)
    → Streamed (socket a waits event) [] (step (try_send free o) (socket a waits event))
unfolding step send
send-Streamed free o a true event w = record {
  sent = [];
  after = socket a true event;
  returns = refl;
  watched = w;
  in_order = sym (append-nil (contents a));
}
send-Streamed free o a false event w =
    let f = process_buffer-Offered free a w.valid in
    elim (Bool-cases (total f.pieces == 0)) [
      | inl nothing ↦
          rw (f.returns, nothing)
            (record {
              sent = [];
              after = socket f.after false event;
              returns = refl;
              watched = record { valid = f.valid; watched = refl };
              in_order = f.same ∙ sym (append-nil (contents a));
            })
      | inr something ↦
          let p = send_pieces-Pushed (socket a false event) free o f in
          let waits = epoll_after false o f.pieces in
          rw (f.returns, something, p.returns)
            (record {
              sent = sent_of o f.pieces;
              after = socket p.buffer waits (event || waits);
              returns = refl;
              watched = record { valid = p.valid; watched = enabled event waits };
              in_order = p.in_order ∙ sym (append-nil (contents a));
            })
    ]

on_writeable-Streamed :
    (free : Bool) (o : Outcome) (a : AsyncBuffer) (waits event : Bool)
    → IsWatched (socket a waits event)
    → Streamed (socket a waits event) [] (step (writeable free o) (socket a waits event))
unfolding step on_writeable
on_writeable-Streamed free o a waits false w = record {
  sent = [];
  after = socket a waits false;
  returns = refl;
  watched = w;
  in_order = sym (append-nil (contents a));
}
on_writeable-Streamed free o a waits true w =
    let f = process_buffer-Offered free a w.valid in
    elim (Bool-cases (total f.pieces == 0)) [
      | inl nothing ↦
          rw (f.returns, nothing)
            (record {
              sent = [];
              after = socket f.after false false;
              returns = refl;
              watched = record { valid = f.valid; watched = refl };
              in_order = f.same ∙ sym (append-nil (contents a));
            })
      | inr something ↦
          let p = send_pieces-Pushed (socket a waits true) free o f in
          let later = epoll_after waits o f.pieces in
          rw (f.returns, something, p.returns)
            (record {
              sent = sent_of o f.pieces;
              after = socket p.buffer later later;
              returns = refl;
              watched = record { valid = p.valid; watched = kept later };
              in_order = p.in_order ∙ sym (append-nil (contents a));
            })
    ]

step-Streamed :
    (c : Call) (s : Stream)
    → IsWatched s
    → length (packet_of c) + length (contents s.send_buf) ≤ max_buffer_size
    → Streamed s (packet_of c) (step c s)
unfolding step
step-Streamed (packet ds) s w room =
    let p = write-Written s.send_buf ds w.valid (omega (arith, length-joined ds)) in
    rw p.returns (record {
      sent = [];
      after = record s { send_buf = p.after };
      returns = refl;
      watched = record { valid = p.valid; watched = w.watched };
      in_order = p.appended;
    })
step-Streamed (try_send free o) s w room =
    send-Streamed free o s.send_buf s.epoll_out s.write_event w
step-Streamed (writeable free o) s w room =
    on_writeable-Streamed free o s.send_buf s.epoll_out s.write_event w

-- Every sequence of packets, of attempts to send and of events, whatever `writev` and `try_lock`
-- answer, goes through on a valid socket that is watched while it waits, as long as all that is to
-- be sent stays within MAX_BUFFER_SIZE. The socket stays so, and the bytes that went out
-- with those left are what was there at first with all packets behind it, in order.
pub run-Streamed :
    (cs : List Call) (s : Stream)
    → IsWatched s
    → length (packets_of cs) + length (contents s.send_buf) ≤ max_buffer_size
    → Streamed s (packets_of cs) (run cs s)
unfolding run
run-Streamed [] s w room = record {
  sent = [];
  after = s;
  returns = refl;
  watched = w;
  in_order = sym (append-nil (contents s.send_buf));
}
run-Streamed (c ∷ cs) s w room =
    let one = step-Streamed c s w (omega (arith, length-append (packet_of c) (packets_of cs))) in
    let rest : Streamed one.after (packets_of cs) (run cs one.after) =
      run-Streamed cs one.after one.watched (
        omega (
          arith,
          length-append (packet_of c) (packets_of cs),
          ap length one.in_order,
          length-append one.sent (contents one.after.send_buf),
          length-append (contents s.send_buf) (packet_of c),
        )) in
    rw (one.returns, rest.returns)
      (record {
        sent = one.sent ++ rest.sent;
        after = rest.after;
        returns = refl;
        watched = rest.watched;
        in_order =
            append_assoc one.sent rest.sent (contents rest.after.send_buf)
            ∙ ap (λ t. one.sent ++ t) rest.in_order
            ∙ sym (append_assoc one.sent (contents one.after.send_buf) (packets_of cs))
            ∙ ap (λ t. t ++ packets_of cs) one.in_order
            ∙ append_assoc (contents s.send_buf) (packet_of c) (packets_of cs);
      })
