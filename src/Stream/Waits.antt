-- ===== src/Stream/Waits.antt =====
-- What `Send` of network/stream_socket.cc leaves behind is waited for.
use uhp_sql.Common.{
  ℕ, suc, ◌+◌, ◌<◌, ◌≤◌, ◌≡◌, ◌⊎◌, refl, ap, ◌∙◌, Bool, true, false, ◌||◌, inl, inr, Bool-cases,
  Option, some, List, [], arith, ltb, ◌==◌, Bytes, length, take, length-take, take_of_length-le,
}
use uhp_sql.UnboundedBuffer.{max_buffer_size}
use uhp_sql.AsyncBuffer.{AsyncBuffer, Pieces, total, joined, process_buffer}
use uhp_sql.AsyncBuffer.Write.{length-joined, contents, nil_of_length}
use uhp_sql.AsyncBuffer.Send.{Offered, process_buffer-Offered}
use uhp_sql.Stream.{Stream, Outcome, again, failed, wrote, accepted, sent_of, epoll_after, send}
use uhp_sql.Stream.Order.{
  IsWatched, Call, try_send, step, run, packets_of, Streamed, send_pieces-Pushed, run-Streamed,
  socket,
}

-- `writev` takes some bytes, or none since the socket is not ready.
abbrev pub Answered : Outcome → Type 0
Answered o = (o ≡ again) ⊎ ((n : ℕ) × (o ≡ wrote (suc n)))

-- Both `epollOut_` and the event are set.
abbrev pub IsWaiting : Stream → Type 0
IsWaiting s = (s.epoll_out ≡ true) × (s.write_event ≡ true)

-- A call of `Send` on the socket `s`: nothing is left, or the socket waits for the poller, or
-- everything that `ProcessBuffer` offered went out, at least one byte.
pub record Settled (s : Stream) (r : Option (Bytes × Stream)) : Type 0 where
  pub sent : Bytes
  pub after : Stream
  pub returns : r ≡ some (sent, after)
  pub settled :
      (contents after.send_buf ≡ [])
      ⊎ IsWaiting after
      ⊎ ((pieces : Pieces) × (rest : AsyncBuffer) × (process_buffer true s.send_buf
            ≡ some (pieces, rest))
          × (sent ≡ joined pieces)
          × (0 < length sent))

or_true : (b : Bool) → b || true ≡ true
or_true true = refl
or_true false = refl

positive : (n m : ℕ) → wrote n ≡ wrote (suc m) → 0 < n
positive n m e = omega (arith, ap accepted e)

-- Behind `_Send` of at least one byte, `epollOut_` is set or all bytes went out.
epoll_after-cases :
    (o : Outcome) (ds : Pieces)
    → Answered o
    → 0 < total ds
    → (epoll_after false o ds ≡ true) ⊎ ((sent_of o ds ≡ joined ds) × (0 < length (sent_of o ds)))
epoll_after-cases again ds h some_bytes = inl refl
epoll_after-cases failed ds (inl e) some_bytes = absurd cc
epoll_after-cases failed ds (inr (n, e)) some_bytes = absurd cc
epoll_after-cases (wrote n) ds (inl e) some_bytes = absurd cc
epoll_after-cases (wrote n) ds (inr (m, e)) some_bytes =
    let ne = positive n m e in
    let size = length-joined ds in
    let taken = length-take n (joined ds) in
    elim (Bool-cases (ltb (length (take n (joined ds))) (total ds))) [
      | inl less ↦
          let some_taken : ltb 0 (length (take n (joined ds))) ≡ true = ground arith in
          inl (rw (some_taken, less) refl)
      | inr all ↦ inr (take_of_length-le n (joined ds) (ground arith), ground arith)
    ]

nothing_left :
    {a : AsyncBuffer} (f : Offered true a (process_buffer true a))
    → total f.pieces ≡ 0
    → contents f.after ≡ []
nothing_left f e = elim f.complete [
  | inl more ↦ absurd (more (nil_of_length _ (omega (arith, length-joined f.pieces))))
  | inr (inl taken) ↦ absurd cc
  | inr (inr none_left) ↦ f.same ∙ none_left
]

send-Settled :
    (o : Outcome) (a : AsyncBuffer) (waits event : Bool)
    → IsWatched (socket a waits event)
    → Answered o
    → Settled (socket a waits event) (step (try_send true o) (socket a waits event))
unfolding step send
send-Settled o a true event w h = record {
  sent = [];
  after = socket a true event;
  returns = refl;
  settled = inr (inl (refl, w.watched));
}
send-Settled o a false event w h =
    let f = process_buffer-Offered true a w.valid in
    elim (Bool-cases (total f.pieces == 0)) [
      | inl nothing ↦
          rw (f.returns, nothing)
            (record {
              sent = [];
              after = socket f.after false event;
              returns = refl;
              settled = inl (nothing_left f (ground arith));
            })
      | inr something ↦
          let p = send_pieces-Pushed (socket a false event) true o f in
          let waits = epoll_after false o f.pieces in
          rw (f.returns, something, p.returns)
            (record {
              sent = sent_of o f.pieces;
              after = socket p.buffer waits (event || waits);
              returns = refl;
              settled = elim (epoll_after-cases o f.pieces h (ground arith)) [
                | inl set ↦ inr (inl (set, ap (λ b. event || b) set ∙ or_true event))
                | inr (all, some_bytes) ↦ inr (inr (f.pieces, f.after, f.returns, all, some_bytes))
              ];
            })
    ]

-- On a valid socket that is watched while it waits, every sequence of packets, of attempts to send
-- and of events goes through, as long as all that is to be sent stays within MAX_BUFFER_SIZE: what
-- went out and what is left are in order, and the socket stays so. Where the system answers a call
-- of `Send` behind it with EAGAIN or takes a byte or more, and the lock is free, that call leaves
-- nothing to be sent, or sets `epollOut_` with the write event registered, or has sent, at least
-- one byte, all that `ProcessBuffer` offered.
pub run-Settled :
    (cs : List Call) (s : Stream) (o : Outcome)
    → IsWatched s
    → length (packets_of cs) + length (contents s.send_buf) ≤ max_buffer_size
    → Answered o
    → (x : Streamed s (packets_of cs) (run cs s)) × Settled x.after (step (try_send true o) x.after)
run-Settled cs s o w room h =
    let x = run-Streamed cs s w room in
    (x, send-Settled o x.after.send_buf x.after.epoll_out x.after.write_event x.watched h)
