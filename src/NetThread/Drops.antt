-- ===== src/NetThread/Drops.antt =====
-- StreamSockets in the hands of the sending thread.
use uhp_sql.Common.{
  ℕ, ◌≡◌, refl, ap, ◌∙◌, Bool, true, false, not, ◌&&◌, ◌||◌, inl, inr, Bool-cases, Option, some,
  List, [], ◌∷◌, arith, ◌==◌, bit_and, if◌then◌else◌, ◌>>=◌, All,
}
use uhp_sql.Stream
use uhp_sql.Stream.{Stream, Outcome, again}
use uhp_sql.NetThread.{Polled, on_write_event, each_event}

-- A stream socket with its `invalid_`, and what `try_lock` and `writev` will answer it.
pub record Connection : Type 0 where
  pub stream : Stream
  pub invalid : Bool
  pub answers : List (Bool × Outcome)

-- What the next call of `Send` is answered.
abbrev pub next_answer : List (Bool × Outcome) → Bool × Outcome
next_answer [] = (false, again)
next_answer (a ∷ answers) = a

abbrev pub later_answers : List (Bool × Outcome) → List (Bool × Outcome)
later_answers [] = []
later_answers (a ∷ answers) = answers

-- The connections, each by a number.
abbrev pub Connected : Type 0
Connected = ℕ → Connection

abbrev pub update : Connected → ℕ → Connection → Connected
update w s c t = if t == s then c else w t

-- A connection whose events the poller of the sending thread is told. To `Epoller::ModSocket` no
-- events mean `DelSocket`, so the poller has the socket exactly while it reports the write event.
abbrev pub polled_for : ℕ → Connection → Connection
polled_for events c = record c {
  stream = record (c.stream) { write_event = not (bit_and events 2 == 0) };
}

-- `OnError`: it sets `invalid_`, and calls `onDisconnect_` where it was not set, which is left
-- out here.
abbrev pub give_up : Connection → Connection
give_up c = record c { invalid = true }

-- The class StreamSocket as a thread sees it. It declares `OnWriteable`, so a call of `OnWritable` is
-- one of the base class, which returns false. `read` is its `OnReadable`; the poller is that of the
-- sending thread.
abbrev pub stream_socket : (Connection → Option (Bool × Connection)) → Polled
stream_socket read = record {
  World = Connected;
  Socket = ℕ;
  on_readable = λ w s. read (w s) >>= λ r. some (r.0, update w s r.1);
  on_writable = λ w s. some (false, w);
  send = λ w s.
      let answer = next_answer ((w s).answers) in
      Stream.send answer.0 answer.1 ((w s).stream) >>= λ r.
      some
        (r.0, update w s (record (w s) { stream = r.2; answers = later_answers ((w s).answers) }));
  on_error = λ w s. update w s (give_up (w s));
  is_invalid = λ w s. (w s).invalid;
  epoll_out = λ w s. (w s).stream.epoll_out;
  is_stream = λ s. true;
  add_socket = λ w s events. (true, update w s (polled_for events (w s)));
  mod_socket = λ w s events. update w s (polled_for events (w s));
  del_socket = λ w s. update w s (polled_for 0 (w s));
}

-- The write event or an error is among the events.
abbrev pub is_fatal : ℕ → Bool
is_fatal events = not (bit_and events 2 == 0) || not (bit_and events 4 == 0)

-- A connection is reported with the write event or an error.
abbrev pub is_reported : List (ℕ × ℕ) → ℕ → Bool
is_reported [] s = false
is_reported ((events, t) ∷ fired) s = (s == t && is_fatal events) || is_reported fired s

-- A loop over the events that goes through, and what it makes of the connections.
pub record GivesUp (w : Connected) (fired : List (ℕ × ℕ)) (r : Option Connected) : Type 0 where
  pub after : Connected
  pub returns : r ≡ some after
  pub given_up : (s : ℕ) → after s ≡ (if is_reported fired s then give_up (w s) else w s)

-- `OnError` of one socket, and of that socket again, as the others see it.
give_up_at :
    (w : Connected) (t s : ℕ)
    → update w t (give_up (w t)) s ≡ (if (s == t && true) || false then give_up (w s) else w s)
give_up_at w t s = elim (Bool-cases (s == t)) [
  | inl e ↦ let same : t ≡ s = ground arith in rw (e, same) refl
  | inr ne ↦ rw ne refl
]

give_up_again :
    (w : Connected) (t s : ℕ)
    → update (update w t (give_up (w t))) t (give_up (update w t (give_up (w t)) t)) s
      ≡ (if (s == t && true) || false then give_up (w s) else w s)
give_up_again w t s = elim (Bool-cases (s == t)) [
  | inl e ↦
      let same : t ≡ s = ground arith in
      let own : (s == s) ≡ true = ground arith in rw (e, same, own) refl
  | inr ne ↦ rw ne refl
]

kept : (w : Connected) (t s : ℕ) → w s ≡ (if (s == t && false) || false then give_up (w s) else w s)
kept w t s = elim (Bool-cases (s == t)) [ inl e ↦ rw e refl | inr ne ↦ rw ne refl ]

or_reported :
    (x y : Bool) (c d : Connection)
    → d ≡ (if x || false then give_up c else c)
    → (if y then give_up d else d) ≡ (if x || y then give_up c else c)
or_reported true true c d e = ap give_up e
or_reported true false c d e = e
or_reported false true c d e = ap give_up e
or_reported false false c d e = e

module _ (read : Connection → Option (Bool × Connection)) where
  one_event :
      (w : Connected) (events t : ℕ)
      → (bit_and events 1 == 0) ≡ true
      → GivesUp w ((events, t) ∷ []) (on_write_event (stream_socket read) w (events, t))
  unfolding on_write_event
  one_event w events t no_read = elim (Bool-cases (bit_and events 2 == 0)) [
    | inl no_write ↦ elim (Bool-cases (bit_and events 4 == 0)) [
      | inl no_error ↦
          rw (no_read, no_write, no_error)
            (record {
              after = w;
              returns = refl;
              given_up = λ s. rw (no_write, no_error) (kept w t s);
            })
      | inr error ↦
          rw (no_read, no_write, error)
            (record {
              after = update w t (give_up (w t));
              returns = refl;
              given_up = λ s. rw (no_write, error) (give_up_at w t s);
            })
    ]
    | inr written ↦ elim (Bool-cases (bit_and events 4 == 0)) [
      | inl no_error ↦
          rw (no_read, written, no_error)
            (record {
              after = update w t (give_up (w t));
              returns = refl;
              given_up = λ s. rw written (give_up_at w t s);
            })
      | inr error ↦
          rw (no_read, written, error)
            (record {
              after =
                  update (update w t (give_up (w t))) t (give_up (update w t (give_up (w t)) t));
              returns = refl;
              given_up = λ s. rw written (give_up_again w t s);
            })
    ]
  ]

  -- Whatever the poller reports to the sending thread, the write event makes it send nothing: where no
  -- read event is among them, the loop over the reported events goes through, every connection
  -- reported with the write event or an error is made invalid, and the other connections, and all
  -- send buffers, stay as they are.
  pub each_event-GivesUp :
      (w : Connected) (fired : List (ℕ × ℕ))
      → All (λ e. (bit_and e.0 1 == 0) ≡ true) fired
      → GivesUp w fired
          (each_event (stream_socket read) (on_write_event (stream_socket read)) w fired)
  unfolding each_event
  each_event-GivesUp w [] h = record { after = w; returns = refl; given_up = λ s. refl }
  each_event-GivesUp w ((events, t) ∷ fired) (no_read, h) =
      let one = one_event w events t no_read in
      let rest = each_event-GivesUp one.after fired h in
      record {
        after = rest.after;
        returns = rw one.returns rest.returns;
        given_up = λ s.
            rest.given_up s
            ∙ or_reported (s == t && is_fatal events) (is_reported fired s) (w s) (one.after s)
                (one.given_up s);
      }
