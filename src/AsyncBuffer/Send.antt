-- ===== src/AsyncBuffer/Send.antt =====
-- `AsyncBuffer::ProcessBuffer` and `AsyncBuffer::Skip`: what is sent next.
use uhp_sql.Common.{
  ℕ, ◌≤◌, ◌<◌, ◌≡◌, refl, sym, ap, ◌∙◌, ◌≢◌, ◌↔◌, ◌⊎◌, inl, inr, Bool, true, false, ◌&&◌, Option,
  some, [], ◌∷◌, ◌++◌, append-nil, arith, ltb, leb, ◌==◌, if◌then◌else◌, Bool-cases, Bytes, length,
  drop, drop-append_le,
}
use uhp_sql.Common.Segments.{segment}
use uhp_sql.UnboundedBuffer
use uhp_sql.UnboundedBuffer.{UnboundedBuffer, add_size, max_buffer_size}
use uhp_sql.UnboundedBuffer.Invariant as Back
use uhp_sql.CircularBuffer
use uhp_sql.CircularBuffer.{CircularBuffer, BufferSequence}
use uhp_sql.CircularBuffer.Invariant as Ring
use uhp_sql.CircularBuffer.Pop as RingPop
use uhp_sql.CircularBuffer.Datum as RingDatum
use uhp_sql.AsyncBuffer.{AsyncBuffer, Pieces, joined, unread, stretches, process_buffer, skip}
use uhp_sql.AsyncBuffer.Write.{unread_lem, IsValid, contents, nil_of_length}

-- The bytes that `Skip` can pass over: those of the buffer in front, or else of the ring.
abbrev pub front_size : AsyncBuffer → ℕ
front_size a =
    if UnboundedBuffer.is_empty a.tmp_buf
    then length (Ring.contents a.buffer)
    else length (Back.contents a.tmp_buf)

-- The pieces that `ProcessBuffer` offers begin what is still to be sent, `Skip` can pass over them,
-- and they are empty only if nothing is to be sent or the lock is taken.
pub record Offered (free : Bool) (a : AsyncBuffer) (r : Option (Pieces × AsyncBuffer))
    : Type 0 where
  pub pieces : Pieces
  pub after : AsyncBuffer
  pub returns : r ≡ some (pieces, after)
  pub valid : IsValid after
  pub same : contents after ≡ contents a
  pub rest : Bytes
  pub front : contents a ≡ joined pieces ++ rest
  pub skippable : length (joined pieces) ≤ front_size after
  pub complete : (joined pieces ≢ []) ⊎ ((free ≡ false) ⊎ (contents a ≡ []))

pub joined-stretches :
    (s : Bytes) (bf : BufferSequence) → joined (stretches s bf) ≡ RingDatum.gather s bf
joined-stretches s [] = refl
joined-stretches s ((from, len) ∷ bf) = ap (λ t. segment from len s ++ t) (joined-stretches s bf)

tmp_empty :
    (b : UnboundedBuffer)
    → Back.IsValid b
    → UnboundedBuffer.is_empty b ≡ true
    → Back.contents b ≡ []
tmp_empty b v e = nil_of_length _ ((Back.is_empty_lem b v).0 e)

ring_empty :
    (b : CircularBuffer) → Ring.IsValid b → CircularBuffer.is_empty b ≡ true → Ring.contents b ≡ []
ring_empty b v e = nil_of_length _ ((Ring.sizes_lem b v).2.0 e)

joined-unread : (b : UnboundedBuffer) → Back.IsValid b → joined (unread b ∷ []) ≡ Back.contents b
joined-unread b v = append-nil (unread b) ∙ unread_lem b v

nonempty : (s : Bytes) → 0 < length s → s ≢ []
nonempty s h e = absurd (omega (arith, ap length e))

positive : (t : Bool) (n : ℕ) → (t ≡ true) ↔ (n ≡ 0) → t ≡ false → 0 < n
positive t n same e = ground arith

Offered-tmp :
    (free : Bool) (a : AsyncBuffer)
    → IsValid a
    → UnboundedBuffer.is_empty a.tmp_buf ≡ false
    → Offered free a (some (unread a.tmp_buf ∷ [], a))
Offered-tmp free a v sending =
    let size : 0 < length (Back.contents a.tmp_buf) =
      ground (arith, Back.is_empty_lem a.tmp_buf v.tmp) in
    let e = joined-unread a.tmp_buf v.tmp in
    record {
      pieces = unread a.tmp_buf ∷ [];
      after = a;
      returns = refl;
      valid = v;
      same = refl;
      rest = Ring.contents a.buffer ++ Back.contents a.back_buf;
      front = ap (λ s. s ++ (Ring.contents a.buffer ++ Back.contents a.back_buf)) (sym e);
      skippable = rw (sending) (omega (arith, ap length e));
      complete = inl (λ none_left. nonempty _ size (sym e ∙ none_left));
    }

Offered-ring :
    (free : Bool) (a : AsyncBuffer) (bf : BufferSequence)
    → IsValid a
    → UnboundedBuffer.is_empty a.tmp_buf ≡ true
    → CircularBuffer.is_empty a.buffer ≡ false
    → RingDatum.gather a.buffer.buffer bf ≡ Ring.contents a.buffer
    → Offered free a (some (stretches a.buffer.buffer bf, a))
Offered-ring free a bf v sent ring all =
    let size : 0 < length (Ring.contents a.buffer) =
      positive (CircularBuffer.is_empty a.buffer) _ (Ring.sizes_lem a.buffer v.ring).2 ring in
    let e : joined (stretches a.buffer.buffer bf) ≡ Ring.contents a.buffer =
      joined-stretches a.buffer.buffer bf ∙ all in
    record {
      pieces = stretches a.buffer.buffer bf;
      after = a;
      returns = refl;
      valid = v;
      same = refl;
      rest = Back.contents a.back_buf;
      front =
          ap (λ s. s ++ (Ring.contents a.buffer ++ Back.contents a.back_buf))
            (tmp_empty a.tmp_buf v.tmp sent)
          ∙ ap (λ s. s ++ Back.contents a.back_buf) (sym e);
      skippable = rw (sent) (omega (arith, ap length e));
      complete = inl (λ none_left. nonempty _ size (sym e ∙ none_left));
    }

Offered-back :
    (free : Bool) (a : AsyncBuffer)
    → IsValid a
    → UnboundedBuffer.is_empty a.tmp_buf ≡ true
    → CircularBuffer.is_empty a.buffer ≡ true
    → 0 < a.back_bytes
    → Offered free a (
        some (
          unread a.back_buf ∷ [],
          record a { tmp_buf = a.back_buf; back_buf = a.tmp_buf; back_bytes = 0 },
        ))
Offered-back free a v sent no_ring some_left =
    let t = tmp_empty a.tmp_buf v.tmp sent in
    let r = ring_empty a.buffer v.ring no_ring in
    let e = joined-unread a.back_buf v.back in
    let sending : UnboundedBuffer.is_empty a.back_buf ≡ false =
      ground (arith, v.counted, Back.is_empty_lem a.back_buf v.back) in
    record {
      pieces = unread a.back_buf ∷ [];
      after = record a { tmp_buf = a.back_buf; back_buf = a.tmp_buf; back_bytes = 0 };
      returns = refl;
      valid = record {
        tmp = v.back;
        ring = v.ring;
        back = v.tmp;
        counted = omega (arith, ap length t);
      };
      same = rw (t, r) (append-nil (Back.contents a.back_buf));
      rest = [];
      front = rw (t, r, e) (sym (append-nil (Back.contents a.back_buf)));
      skippable = rw (sending) (omega (arith, ap length e));
      complete = inl (λ none_left.
          nonempty (Back.contents a.back_buf) (omega (arith, v.counted)) (sym e ∙ none_left));
    }

Offered-idle :
    (free : Bool) (a : AsyncBuffer)
    → IsValid a
    → UnboundedBuffer.is_empty a.tmp_buf ≡ true
    → CircularBuffer.is_empty a.buffer ≡ true
    → ltb 0 a.back_bytes && free ≡ false
    → Offered free a (some ([], a))
Offered-idle free a v sent no_ring idle = record {
  pieces = [];
  after = a;
  returns = refl;
  valid = v;
  same = refl;
  rest = contents a;
  front = refl;
  skippable = omega arith;
  complete = elim (Bool-cases free) [
    | inr taken ↦ inr (inl taken)
    | inl is_free ↦ inr (
        inr (
          rw (
            tmp_empty a.tmp_buf v.tmp sent,
            ring_empty a.buffer v.ring no_ring,
            nil_of_length (Back.contents a.back_buf) (ground (arith, v.counted)),
          )))
  ];
}

-- `ProcessBuffer` on a valid buffer passes its assert and keeps the buffer valid. What it offers
-- begins what is still to be sent, which stays the same; `Skip` can pass over all of it; and it is
-- empty only if nothing is to be sent or the lock is taken.
pub process_buffer-Offered :
    (free : Bool) (a : AsyncBuffer) → IsValid a → Offered free a (process_buffer free a)
unfolding process_buffer
process_buffer-Offered free a v = elim (Bool-cases (UnboundedBuffer.is_empty a.tmp_buf)) [
  | inr sending ↦ rw sending (Offered-tmp free a v sending)
  | inl sent ↦ elim (Bool-cases (CircularBuffer.is_empty a.buffer)) [
    | inr ring ↦
        let (bf, got, all, size) = RingDatum.get_datum_all a.buffer v.ring ring in
        let test : (CircularBuffer.readable_size a.buffer == CircularBuffer.total_bytes bf) ≡ true =
          ground arith in
        rw (sent, ring, got, test) (Offered-ring free a bf v sent ring all)
    | inl no_ring ↦ elim (Bool-cases (ltb 0 a.back_bytes && free)) [
      | inl swap ↦ rw (sent, no_ring, swap) (Offered-back free a v sent no_ring (ground arith))
      | inr idle ↦ rw (sent, no_ring, idle) (Offered-idle free a v sent no_ring idle)
    ]
  ]
]

leb_of : (n k l : ℕ) → k ≡ l → n ≤ l → leb n k ≡ true
leb_of n k l e h = ground arith

-- `Skip` of at most the bytes in front passes its asserts, keeps the buffer valid and passes over
-- as many bytes.
pub skip-drop :
    (a : AsyncBuffer) (n : ℕ)
    → IsValid a
    → n ≤ front_size a
    → (b : AsyncBuffer) × (skip a n ≡ some b) × (contents b ≡ drop n (contents a)) × IsValid b
unfolding skip
skip-drop a n v h = elim (Bool-cases (UnboundedBuffer.is_empty a.tmp_buf)) [
  | inr sending ↦
      let size = Back.readable_size_lem a.tmp_buf v.tmp in
      let fit : n ≤ length (Back.contents a.tmp_buf) = ground arith in
      let test : leb n (UnboundedBuffer.readable_size a.tmp_buf) ≡ true = ground arith in
      let m = Back.adjust_read_ptr_lem a.tmp_buf n v.tmp fit in
      (
        record a { tmp_buf = UnboundedBuffer.adjust_read_ptr a.tmp_buf n },
        rw (sending, test),
        ap (λ s. s ++ (Ring.contents a.buffer ++ Back.contents a.back_buf)) m.1
            ∙ sym (
                drop-append_le n (Back.contents a.tmp_buf)
                  (Ring.contents a.buffer ++ Back.contents a.back_buf) fit),
        record { tmp = m.0; ring = v.ring; back = v.back; counted = v.counted },
      )
  | inl sent ↦
      let size = (Ring.sizes_lem a.buffer v.ring).0 in
      let fit : n ≤ length (Ring.contents a.buffer) = rw sent at h in
      let test : leb n (CircularBuffer.readable_size a.buffer) ≡ true = leb_of n _ _ size fit in
      let m = RingPop.adjust_read_ptr-Skipped a.buffer n v.ring fit in
      let t = tmp_empty a.tmp_buf v.tmp sent in
      (
        record a { buffer = CircularBuffer.adjust_read_ptr a.buffer n },
        rw (sent, test),
        rw t (
            ap (λ s. s ++ Back.contents a.back_buf) m.1
            ∙ sym (drop-append_le n (Ring.contents a.buffer) (Back.contents a.back_buf) fit)),
        record { tmp = v.tmp; ring = m.0; back = v.back; counted = v.counted },
      )
]
