-- ===== src/AsyncBuffer/Write.antt =====
-- What is still to be sent from an `AsyncBuffer`, and `AsyncBuffer::Write`.
use uhp_sql.Common.{
  ◌+◌, ◌-◌, ◌≤◌, ◌≡◌, refl, sym, ap, ◌∙◌, inl, inr, true, ◌||◌, Option, some, [], ◌∷◌, ◌++◌,
  append-nil, append_assoc, arith, ltb, ◌==◌, Bool-cases, Bytes, ◌>>=◌, length, length-append,
}
use uhp_sql.Common.Segments.{segment}
use uhp_sql.UnboundedBuffer
use uhp_sql.UnboundedBuffer.{UnboundedBuffer, add_size, max_buffer_size}
use uhp_sql.UnboundedBuffer.Invariant as Back
use uhp_sql.UnboundedBuffer.Fifo as BackFifo
use uhp_sql.CircularBuffer
use uhp_sql.CircularBuffer.{CircularBuffer, BufferSequence}
use uhp_sql.CircularBuffer.Invariant as Ring
use uhp_sql.CircularBuffer.Push as RingPush
use uhp_sql.AsyncBuffer.{
  AsyncBuffer, Pieces, total, joined, push_all_back, push_all, write_back, write, unread,
}

pub record IsValid (a : AsyncBuffer) : Type 0 where
  pub tmp : Back.IsValid a.tmp_buf
  pub ring : Ring.IsValid a.buffer
  pub back : Back.IsValid a.back_buf
  pub counted : a.back_bytes ≡ length (Back.contents a.back_buf)

-- What is still to be sent, in the order of sending.
abbrev pub contents : AsyncBuffer → Bytes
contents a = Back.contents a.tmp_buf ++ (Ring.contents a.buffer ++ Back.contents a.back_buf)

pub length-joined : (ds : Pieces) → length (joined ds) ≡ total ds
length-joined [] = refl
length-joined (d ∷ ds) = omega (arith, length-append d (joined ds), length-joined ds)

record PushedBack (b : UnboundedBuffer) (ds : Pieces) : Type 0 where
  after : UnboundedBuffer
  returns : push_all_back b ds ≡ some after
  valid : Back.IsValid after
  appended : Back.contents after ≡ Back.contents b ++ joined ds

push_all_back-PushedBack :
    (b : UnboundedBuffer) (ds : Pieces)
    → Back.IsValid b
    → total ds + length (Back.contents b) ≤ max_buffer_size
    → PushedBack b ds
unfolding push_all_back
push_all_back-PushedBack b [] v h = record {
  after = b;
  returns = refl;
  valid = v;
  appended = sym (append-nil (Back.contents b));
}
push_all_back-PushedBack b (d ∷ ds) v h =
    let p = BackFifo.push_data-Pushed b d v (omega arith) in
    let r : PushedBack p.after ds =
      push_all_back-PushedBack p.after ds p.valid
        (omega (arith, ap length p.appended, length-append (Back.contents b) d)) in
    record {
      after = r.after;
      returns = rw p.returns r.returns;
      valid = r.valid;
      appended =
          r.appended
          ∙ ap (λ s. s ++ joined ds) p.appended
          ∙ append_assoc (Back.contents b) d (joined ds);
    }

record PushedRing (b : CircularBuffer) (ds : Pieces) : Type 0 where
  after : CircularBuffer
  returns : push_all b ds ≡ some after
  valid : Ring.IsValid after
  appended : Ring.contents after ≡ Ring.contents b ++ joined ds

push_all-PushedRing :
    (b : CircularBuffer) (ds : Pieces)
    → Ring.IsValid b
    → total ds ≤ CircularBuffer.writeable_size b
    → PushedRing b ds
unfolding push_all
push_all-PushedRing b [] v h = record {
  after = b;
  returns = refl;
  valid = v;
  appended = sym (append-nil (Ring.contents b));
}
push_all-PushedRing b (d ∷ ds) v h =
    let p = RingPush.push_data-Pushed_ring b d v (omega arith) in
    let r : PushedRing p.after ds = push_all-PushedRing p.after ds p.valid (
      omega (
        arith,
        ap length p.appended,
        length-append (Ring.contents b) d,
        p.size,
        (Ring.sizes_lem b v).1,
        (Ring.sizes_lem p.after p.valid).1,
      )) in
    record {
      after = r.after;
      returns = rw p.returns r.returns;
      valid = r.valid;
      appended =
          r.appended
          ∙ ap (λ s. s ++ joined ds) p.appended
          ∙ append_assoc (Ring.contents b) d (joined ds);
    }

length-contents :
    (a : AsyncBuffer)
    → length (contents a)
      ≡ length (Back.contents a.tmp_buf)
        + (length (Ring.contents a.buffer) + length (Back.contents a.back_buf))
length-contents a = omega (
  arith,
  length-append (Back.contents a.tmp_buf) (Ring.contents a.buffer ++ Back.contents a.back_buf),
  length-append (Ring.contents a.buffer) (Back.contents a.back_buf),
)

-- More bytes at the end of the last of three strings.
append_third : (s t u d : Bytes) → s ++ (t ++ (u ++ d)) ≡ (s ++ (t ++ u)) ++ d
append_third s t u d = simp append_assoc

-- More bytes at the end of the second where the third is empty.
append_second : (s t u d : Bytes) → u ≡ [] → s ++ ((t ++ d) ++ u) ≡ (s ++ (t ++ u)) ++ d
append_second s t u d e = rw e (simp (append_assoc, append-nil))

pub nil_of_length : (s : Bytes) → length s ≡ 0 → s ≡ []
nil_of_length [] h = refl
nil_of_length (x ∷ s) h = absurd (omega arith)

-- What `Write` does.
pub record Written (a : AsyncBuffer) (ds : Pieces) (r : Option AsyncBuffer) : Type 0 where
  pub after : AsyncBuffer
  pub returns : r ≡ some after
  pub valid : IsValid after
  pub appended : contents after ≡ contents a ++ joined ds

Written-back :
    (a : AsyncBuffer) (ds : Pieces)
    → IsValid a
    → total ds + length (contents a) ≤ max_buffer_size
    → Written a ds (write_back a ds)
unfolding write_back
Written-back a ds v h =
    let p : PushedBack a.back_buf ds =
      push_all_back-PushedBack a.back_buf ds v.back (omega (arith, length-contents a)) in
    let bytes : add_size a.back_bytes (total ds) ≡ a.back_bytes + total ds =
      omega (arith, length-contents a) in
    let counted : a.back_bytes + total ds ≡ length (Back.contents p.after) = omega (
      arith,
      ap length p.appended,
      length-append (Back.contents a.back_buf) (joined ds),
      length-joined ds,
    ) in
    let test : (a.back_bytes + total ds == UnboundedBuffer.readable_size p.after) ≡ true =
      ground (arith, Back.readable_size_lem p.after p.valid) in
    record {
      after = record a { back_buf = p.after; back_bytes = a.back_bytes + total ds };
      returns = rw (p.returns, bytes, test);
      valid = record { tmp = v.tmp; ring = v.ring; back = p.valid; counted = counted };
      appended =
          ap (λ t. Back.contents a.tmp_buf ++ (Ring.contents a.buffer ++ t)) p.appended
          ∙ append_third (Back.contents a.tmp_buf) (Ring.contents a.buffer)
              (Back.contents a.back_buf) (joined ds);
    }

Written-ring :
    (a : AsyncBuffer) (ds : Pieces)
    → IsValid a
    → a.back_bytes ≡ 0
    → total ds ≤ CircularBuffer.writeable_size a.buffer
    → Written a ds (push_all a.buffer ds >>= λ b. some (record a { buffer = b }))
Written-ring a ds v empty room =
    let p : PushedRing a.buffer ds = push_all-PushedRing a.buffer ds v.ring room in
    let none_left : Back.contents a.back_buf ≡ [] = nil_of_length _ (omega (arith, v.counted)) in
    record {
      after = record a { buffer = p.after };
      returns = rw p.returns;
      valid = record { tmp = v.tmp; ring = p.valid; back = v.back; counted = v.counted };
      appended =
          ap (λ t. Back.contents a.tmp_buf ++ (t ++ Back.contents a.back_buf)) p.appended
          ∙ append_second (Back.contents a.tmp_buf) (Ring.contents a.buffer)
              (Back.contents a.back_buf) (joined ds) none_left;
    }

-- `Write` on a valid buffer passes its asserts, keeps the buffer valid, and puts the bytes behind
-- all that is still to be sent, as long as these together stay within MAX_BUFFER_SIZE.
pub write-Written :
    (a : AsyncBuffer) (ds : Pieces)
    → IsValid a
    → total ds + length (contents a) ≤ max_buffer_size
    → Written a ds (write a ds)
unfolding write
write-Written a ds v h =
    elim (Bool-cases
      (ltb 0 a.back_bytes || ltb (CircularBuffer.writeable_size a.buffer) (total ds))) [
        | inl behind ↦ rw behind (Written-back a ds v h)
        | inr direct ↦ rw direct (Written-ring a ds v (ground arith) (ground arith))
      ]

pub unread_lem : (b : UnboundedBuffer) → Back.IsValid b → unread b ≡ Back.contents b
unread_lem b v =
    let e : UnboundedBuffer.readable_size b ≡ b.write_pos - b.read_pos =
      omega (arith, Back.readable_size_lem b v, Back.length-contents b v) in
    ap (λ n. segment b.read_pos n b.buffer) e
