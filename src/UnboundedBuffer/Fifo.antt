-- ===== src/UnboundedBuffer/Fifo.antt =====
-- An `UnboundedBuffer` behaves as the queue of its unread bytes.
use uhp_sql.Common.{
  ℕ, zero, suc, ◌+◌, ◌-◌, ◌^◌, ◌≤◌, ◌<◌, min, ◌≡◌, refl, sym, ap, ◌∙◌, ◌⊎◌, inl, inr, Bool, false,
  Option, some, List, [], ◌∷◌, ◌++◌, append-nil, arith, ◌==◌, Bytes, ◌>>=◌, length, take, drop,
  length-append, length-take, length-drop, take_of_length-le, drop-nil,
}
use uhp_sql.Common.Segments.{
  segment, overwrite, length-segment, length-overwrite, segment-overwrite_end, take-segment,
  drop-segment,
}
use uhp_sql.UnboundedBuffer.{
  UnboundedBuffer, max_buffer_size, add_size, readable_size, assure_space, write_at, push_data_at,
  push_data, adjust_write_ptr, adjust_read_ptr, peek_data_at, peek_data, shrink, clear,
}
use uhp_sql.UnboundedBuffer.Invariant.{
  IsValid, contents, length-contents, readable_size_lem, Assured, assure_space-Assured,
}

-- A push that returns: the count, a valid buffer, and the bytes behind the unread ones.
pub record Pushed (b : UnboundedBuffer) (bytes : Bytes) (r : Option (ℕ × UnboundedBuffer))
    : Type 0 where
  pub after : UnboundedBuffer
  pub returns : r ≡ some (length bytes, after)
  pub valid : IsValid after
  pub appended : contents after ≡ contents b ++ bytes

-- The `memcpy` and the pointer move, on a buffer with room.
Pushed-write :
    (b c : UnboundedBuffer) (bytes : Bytes)
    → Assured b (length bytes) c
    → Pushed b bytes (write_at c bytes 0 >>= λ p. some (p.0, adjust_write_ptr p.1 p.0))
unfolding write_at adjust_write_ptr
Pushed-write b c bytes g =
    let v = g.valid in
    let room = g.room in
    record {
      after = record {
        read_pos = c.read_pos;
        write_pos = add_size c.write_pos (length bytes);
        buffer = overwrite (add_size c.write_pos 0) bytes c.buffer;
      };
      returns = ground arith;
      valid = omega (arith, length-overwrite (add_size c.write_pos 0) bytes c.buffer);
      appended =
          let e1 : add_size c.write_pos 0 ≡ c.write_pos = omega arith in
          let e2 : add_size c.write_pos (length bytes) - c.read_pos
              ≡ c.write_pos - c.read_pos + length bytes =
            omega arith in
          rw (e1, e2)
            (segment-overwrite_end c.read_pos c.write_pos bytes c.buffer v.ordered (omega arith)
              ∙ ap (λ s. s ++ bytes) g.same);
    }

-- `PushData` on a valid buffer whose unread bytes and the new ones together stay within
-- MAX_BUFFER_SIZE passes its `assert`, returns the number of the new bytes, keeps the buffer valid,
-- and puts them behind the unread ones, whatever had to be grown or moved.
pub push_data-Pushed :
    (b : UnboundedBuffer) (bytes : Bytes)
    → IsValid b
    → length bytes + length (contents b) ≤ max_buffer_size
    → Pushed b bytes (push_data b bytes)
unfolding push_data push_data_at adjust_write_ptr
push_data-Pushed b [] v fits = record {
  after = record b { write_pos = add_size b.write_pos 0 };
  returns = refl;
  valid = omega arith;
  appended =
      let e : add_size b.write_pos 0 ≡ b.write_pos = omega arith in rw e (sym (append-nil _));
}
push_data-Pushed b (x ∷ bytes) v fits =
    let size : add_size (length (x ∷ bytes)) 0 ≡ length (x ∷ bytes) =
      omega (arith, length-contents b v) in
    let full : (readable_size b == max_buffer_size) ≡ false =
      ground (arith, readable_size_lem b v) in
    let some_bytes : (length (x ∷ bytes) == 0) ≡ false = ground arith in
    rw (some_bytes, full, size)
      (Pushed-write b (assure_space b (length (x ∷ bytes))) (x ∷ bytes)
        (assure_space-Assured b (length (x ∷ bytes)) v (omega (arith, length-contents b v))))

take_zero {ℓ} : {A : Type ℓ} (s : List A) → take 0 s ≡ []
take_zero s = refl

-- A peek at `n` bytes: what it copies out, what it leaves, and a valid buffer.
pub record Peeked (b : UnboundedBuffer) (n : ℕ) (r : Bytes × UnboundedBuffer) : Type 0 where
  pub out : r.0 ≡ take n (contents b)
  pub left : contents r.1 ≡ drop n (contents b)
  pub valid : IsValid r.1

peek_data_at_lem :
    (b : UnboundedBuffer) (n : ℕ)
    → IsValid b
    → n < 2 ^ 64
    → peek_data_at b n 0 ≡ take n (contents b)
unfolding peek_data_at
peek_data_at_lem b n v h = ground (
  arith,
  take-segment n b.read_pos (b.write_pos - b.read_pos) b.buffer,
  take_zero (drop b.read_pos b.buffer),
)

drop-min {ℓ} : {A : Type ℓ} (n : ℕ) (s : List A) → drop (min n (length s)) s ≡ drop n s
drop-min zero s = let e : min zero (length s) ≡ 0 = omega arith in rw e
drop-min (suc n) [] = drop-nil (min (suc n) 0)
drop-min (suc n) (x ∷ s) =
    let e : min (suc n) (suc (length s)) ≡ suc (min n (length s)) = omega arith in
    rw e (drop-min n s)

-- `PeekData` on a valid buffer, for an `n` that is a `size_t`, copies out the first `n` unread
-- bytes, or all of them if there are fewer, leaves the others unread, and keeps the buffer valid.
pub peek_data-Peeked :
    (b : UnboundedBuffer) (n : ℕ) → IsValid b → n < 2 ^ 64 → Peeked b n (peek_data b n)
unfolding peek_data adjust_read_ptr
peek_data-Peeked b n v h =
    let w = b.write_pos - b.read_pos in
    let len : length (contents b) ≡ w = length-contents b v in
    let taken : length (take n (contents b)) ≡ min n w =
      omega (arith, length-take n (contents b)) in
    let pos : add_size b.read_pos (min n w) ≡ b.read_pos + min n w = omega arith in
    let rest : b.write_pos - (b.read_pos + min n w) ≡ w - min n w = omega arith in
    let m : min n w ≡ min n (length (contents b)) = omega arith in
    rw (peek_data_at_lem b n v h, taken, pos)
      (record {
        out = refl;
        left = rw rest (
            sym (drop-segment (min n w) b.read_pos w b.buffer)
            ∙ ap (λ k. drop k (contents b)) m
            ∙ drop-min n (contents b));
        valid = omega arith;
      })

-- `Clear` leaves no unread byte.
contents-clear : (b : UnboundedBuffer) → contents (clear b) ≡ []
unfolding clear
contents-clear b = refl

clear-IsValid : (b : UnboundedBuffer) → IsValid b → IsValid (clear b)
unfolding clear
clear-IsValid b v = omega arith

-- The copy that `Shrink` makes.
abbrev trimmed : UnboundedBuffer → UnboundedBuffer
trimmed b = record {
  read_pos = 0;
  write_pos = readable_size b;
  buffer = segment b.read_pos (readable_size b) b.buffer;
}

contents-trimmed : (b : UnboundedBuffer) → IsValid b → contents (trimmed b) ≡ contents b
contents-trimmed b v =
    let e : readable_size b ≡ b.write_pos - b.read_pos = omega arith in
    rw e (take_of_length-le _ (contents b) (omega (arith, length-contents b v)))

trimmed-IsValid : (b : UnboundedBuffer) → IsValid b → IsValid (trimmed b)
trimmed-IsValid b v = omega (arith, length-segment b.read_pos (readable_size b) b.buffer)

shrink-cases :
    (tight : Bool) (b : UnboundedBuffer)
    → IsValid b
    → (shrink (length b.buffer) tight b ≡ some b)
      ⊎ (shrink (length b.buffer) tight b ≡ some (trimmed b))
unfolding shrink
shrink-cases tight b v = ground arith

-- `Shrink` on a vector whose capacity is its size passes its asserts, keeps the unread bytes and
-- keeps a valid buffer valid.
pub shrink-contents :
    (tight : Bool) (b : UnboundedBuffer)
    → IsValid b
    → (c : UnboundedBuffer) × (shrink (length b.buffer) tight b ≡ some c)
      × (contents c ≡ contents b)
      × IsValid c
shrink-contents tight b v = elim (shrink-cases tight b v) [
  | inl same ↦ (b, same, refl, v)
  | inr copy ↦ (trimmed b, copy, contents-trimmed b v, trimmed-IsValid b v)
]

-- What a client does with a buffer.
pub data Op : Type 0 where
  push : Bytes → Op
  peek : ℕ → Op
  reset : Op

-- The calls in order, with the bytes that the peeks return.
pub run : UnboundedBuffer → List Op → Option (List Bytes × UnboundedBuffer)
run b [] = some ([], b)
run b (push bytes ∷ ops) = push_data b bytes >>= λ r. run r.1 ops
run b (peek n ∷ ops) = let (out, b') = peek_data b n in run b' ops >>= λ r. some (out ∷ r.0, r.1)
run b (reset ∷ ops) = run (clear b) ops

-- The same calls on a queue of bytes.
pub run_queue : Bytes → List Op → List Bytes × Bytes
run_queue q [] = ([], q)
run_queue q (push bytes ∷ ops) = run_queue (q ++ bytes) ops
run_queue q (peek n ∷ ops) = let (outs, q') = run_queue (drop n q) ops in (take n q ∷ outs, q')
run_queue q (reset ∷ ops) = run_queue [] ops

-- The bytes that the calls push altogether.
abbrev pub pushed_bytes : List Op → ℕ
pushed_bytes [] = 0
pushed_bytes (push bytes ∷ ops) = length bytes + pushed_bytes ops
pushed_bytes (peek n ∷ ops) = pushed_bytes ops
pushed_bytes (reset ∷ ops) = pushed_bytes ops

-- The sizes asked for are `size_t`.
abbrev pub SizesFit : List Op → Type 0
SizesFit [] = Unit
SizesFit (push bytes ∷ ops) = SizesFit ops
SizesFit (peek n ∷ ops) = (n < 2 ^ 64) × SizesFit ops
SizesFit (reset ∷ ops) = SizesFit ops

-- The outcome of a run against the queue's.
pub record Agrees (r : Option (List Bytes × UnboundedBuffer)) (s : List Bytes × Bytes)
    : Type 0 where
  pub after : UnboundedBuffer
  pub returns : r ≡ some (s.0, after)
  pub same : contents after ≡ s.1
  pub valid : IsValid after

-- No sequence of pushes, peeks and clears tells a valid buffer from the queue of its unread bytes,
-- as long as those and all that is pushed stay within MAX_BUFFER_SIZE; no assert fails.
pub run_refines :
    (ops : List Op) (b : UnboundedBuffer) (q : Bytes)
    → IsValid b
    → contents b ≡ q
    → SizesFit ops
    → pushed_bytes ops + length q ≤ max_buffer_size
    → Agrees (run b ops) (run_queue q ops)
unfolding run run_queue
run_refines [] b q v e fits total = record { after = b; returns = refl; same = e; valid = v }
run_refines (push bytes ∷ ops) b q v e fits total =
    let p : Pushed b bytes (push_data b bytes) =
      push_data-Pushed b bytes v (omega (arith, ap length e)) in
    rw p.returns (
      run_refines ops p.after (q ++ bytes) p.valid (p.appended ∙ ap (λ s. s ++ bytes) e) fits
        (omega (arith, length-append q bytes)))
run_refines (peek n ∷ ops) b q v e (hn, fits) total =
    let p : Peeked b n (peek_data b n) = peek_data-Peeked b n v hn in
    let rest : Agrees (run (peek_data b n).1 ops) (run_queue (drop n q) ops) =
      run_refines ops (peek_data b n).1 (drop n q) p.valid (p.left ∙ ap (drop n) e) fits
        (omega (arith, length-drop n q)) in
    rw (p.out, e, rest.returns)
      (record { after = rest.after; returns = refl; same = rest.same; valid = rest.valid })
run_refines (reset ∷ ops) b q v e fits total =
    run_refines ops (clear b) [] (clear-IsValid b v) (contents-clear b) fits (omega arith)
