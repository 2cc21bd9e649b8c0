-- ===== src/CircularBuffer/Datum.antt =====
-- `CircularBuffer::GetDatum` and `CircularBuffer::PeekData`: which bytes are read.
use uhp_sql.Common.{
  ℕ, zero, suc, ◌-◌, ◌^◌, ◌≤◌, ◌<◌, min, ◌≡◌, refl, sym, ap, ◌∙◌, ◌≢◌, inl, inr, true, false, not,
  ◌&&◌, ◌||◌, some, List, [], ◌∷◌, ◌++◌, append-nil, arith, ltb, leb, ◌==◌, Bool-cases, Bytes,
  length, take, drop, length-drop, take_of_length-le, drop_of_length-le, take-nil, take-append,
}
use uhp_sql.Common.Segments.{segment, length-segment, take-segment}
use uhp_sql.UnboundedBuffer.{add_size}
use uhp_sql.CircularBuffer.{
  CircularBuffer, BufferSequence, masked, readable_size, adjust_read_ptr, datum_from, get_datum,
  total_bytes, copy_out, peek_data_at, peek_data,
}
use uhp_sql.CircularBuffer.Invariant.{
  IsValid, contents, distance, size_bounds, readable_size_lem, distance-lt, length-contents,
}
use uhp_sql.CircularBuffer.{is_empty}
use uhp_sql.CircularBuffer.Invariant.{masked_lem}
use uhp_sql.CircularBuffer.Pop.{at, Skipped, skip-Skipped, adjust_read_ptr-Skipped}

-- The bytes that a sequence of stretches stands for.
abbrev pub gather : Bytes → BufferSequence → Bytes
gather s [] = []
gather s ((from, len) ∷ bf) = segment from len s ++ gather s bf

-- The first `n` unread bytes, when they do not go round the end and when they do.
take-contents_straight :
    (b : CircularBuffer) (n : ℕ)
    → leb b.read_pos b.write_pos ≡ true
    → take n (contents b) ≡ segment b.read_pos (min n (b.write_pos - b.read_pos)) b.buffer
take-contents_straight b n le =
    rw le (take-segment n b.read_pos (b.write_pos - b.read_pos) b.buffer)

take-contents_round :
    (b : CircularBuffer) (n : ℕ)
    → IsValid b
    → leb b.read_pos b.write_pos ≡ false
    → take n (contents b)
      ≡ segment b.read_pos (min n (b.max_size - b.read_pos)) b.buffer
        ++ segment 0 (min (n - (b.max_size - b.read_pos)) b.write_pos) b.buffer
take-contents_round b n v gt =
    let a = segment b.read_pos (b.max_size - b.read_pos) b.buffer in
    let len : length a ≡ b.max_size - b.read_pos =
      length-segment b.read_pos (b.max_size - b.read_pos) b.buffer
        (omega (arith, v.storage, v.read_in)) in
    rw (
      gt,
      take-append n a (segment 0 b.write_pos b.buffer),
      len,
      take-segment n b.read_pos (b.max_size - b.read_pos) b.buffer,
      take-segment (n - (b.max_size - b.read_pos)) 0 b.write_pos b.buffer,
    )

segment_zero {ℓ} : {A : Type ℓ} (r : ℕ) (s : List A) → segment r 0 s ≡ []
segment_zero r s = refl

gather-datum_from :
    (b : CircularBuffer) (n : ℕ)
    → IsValid b
    → b.read_pos ≢ b.write_pos
    → gather b.buffer (datum_from b b.read_pos n) ≡ take n (contents b)
unfolding datum_from
gather-datum_from b n v ne = elim (Bool-cases (leb b.read_pos b.write_pos)) [
  | inl le ↦ ground (
    arith,
    take-contents_straight b n le,
    append-nil (segment b.read_pos n b.buffer),
    append-nil (segment b.read_pos (b.write_pos - b.read_pos) b.buffer),
  )
  | inr gt ↦ ground (
    arith,
    take-contents_round b n v gt,
    v.read_in,
    append-nil (segment b.read_pos n b.buffer),
    append-nil (segment b.read_pos (b.max_size - b.read_pos) b.buffer),
    append-nil (segment 0 b.write_pos b.buffer),
    append-nil (segment 0 (n - (b.max_size - b.read_pos)) b.buffer),
    segment_zero 0 b.buffer,
  )
]

take-drop_nothing :
    (n offset : ℕ) (s : Bytes)
    → (n == 0 || leb (length s) offset) ≡ true
    → take n (drop offset s) ≡ []
take-drop_nothing zero offset s h = refl
take-drop_nothing (suc n) offset s h =
    rw (drop_of_length-le offset s (ground arith), take-nil (suc n))

-- A skip that leaves unread bytes does not end at the write position.
Skipped-ne :
    (b : CircularBuffer) (offset from : ℕ)
    → Skipped b offset from
    → offset < length (contents b)
    → from ≢ b.write_pos
Skipped-ne b offset from s less e =
    ground (
      arith,
      ap length s.rest,
      length-contents (at b from) s.valid,
      length-drop offset (contents b),
    )

-- `GetDatum` on a valid buffer passes its asserts, and its stretches hold the first `n` unread
-- bytes behind the `offset` first ones, in order; they are none if there are no such bytes.
pub get_datum-gather :
    (b : CircularBuffer) (n offset : ℕ)
    → IsValid b
    → (bf : BufferSequence) × (get_datum b n offset ≡ some bf)
      × (gather b.buffer bf ≡ take n (drop offset (contents b)))
unfolding get_datum datum_from
get_datum-gather b n offset v =
    let len : readable_size b ≡ length (contents b) =
      readable_size_lem b v ∙ sym (length-contents b v) in
    elim (Bool-cases (n == 0 || leb (readable_size b) offset)) [
      | inl nothing ↦
          ([], rw nothing, sym (take-drop_nothing n offset (contents b) (rw len at nothing)))
      | inr something ↦
          let from = masked b (add_size b.read_pos offset) in
          let less : offset < length (contents b) = ground arith in
          let s : Skipped b offset from = skip-Skipped b offset v (omega arith) in
          let ne : from ≢ b.write_pos = Skipped-ne b offset from s less in
          let test : ltb b.read_pos b.max_size
                && ltb b.write_pos b.max_size
                && not (from == b.write_pos)
              ≡ true =
            ground (arith, v.read_in, v.write_in) in
          (
            datum_from b from n,
            rw (something, test),
            gather-datum_from (at b from) n s.valid ne ∙ ap (take n) s.rest,
          )
    ]

copy_out-take :
    (b : CircularBuffer) (n : ℕ)
    → IsValid b
    → b.read_pos ≢ b.write_pos
    → n ≤ length (contents b)
    → copy_out b n b.read_pos ≡ some (take n (contents b))
unfolding copy_out
copy_out-take b n v ne h = elim (Bool-cases (leb b.read_pos b.write_pos)) [
  | inl le ↦ ground (arith, take-contents_straight b n le, length-contents b v)
  | inr gt ↦ ground (
    arith,
    take-contents_round b n v gt,
    length-contents b v,
    v.read_in,
    append-nil (segment b.read_pos n b.buffer),
    segment_zero 0 b.buffer,
  )
]

-- `PeekData` on a valid buffer passes its asserts. With at least `n` unread bytes it returns true,
-- copies out the first `n` of them, leaves the others unread and the buffer valid.
pub peek_data-take :
    (b : CircularBuffer) (n : ℕ)
    → IsValid b
    → n ≤ length (contents b)
    → (c : CircularBuffer) × (peek_data b n ≡ some (some (take n (contents b)), c))
      × (contents c ≡ drop n (contents b))
      × IsValid c
unfolding peek_data peek_data_at copy_out
peek_data-take b zero v h =
    let a = adjust_read_ptr-Skipped b 0 v h in (adjust_read_ptr b 0, refl, a.1, a.0)
peek_data-take b (suc n) v h =
    let len : readable_size b ≡ length (contents b) =
      readable_size_lem b v ∙ sym (length-contents b v) in
    let small : length (contents b) < 2 ^ 30 =
      omega (arith, length-contents b v, distance-lt b v, size_bounds b v) in
    let from = masked b (add_size b.read_pos 0) in
    let s : Skipped b 0 from = skip-Skipped b 0 v (omega arith) in
    let ne : from ≢ b.write_pos = Skipped-ne b 0 from s (omega arith) in
    let a = adjust_read_ptr-Skipped b (suc n) v h in
    let size : add_size (suc n) 0 ≡ suc n = omega arith in
    let enough : ltb (readable_size b) (suc n) ≡ false = ground arith in
    let nonzero : (suc n == 0) ≡ false = ground arith in
    let out : copy_out b (suc n) from ≡ some (take (suc n) (contents b)) =
      copy_out-take (at b from) (suc n) s.valid ne (rw s.rest h)
      ∙ ap (λ t. some (take (suc n) t)) s.rest in
    (adjust_read_ptr b (suc n), rw (nonzero, size, enough, out), a.1, a.0)

total_bytes-datum_from :
    (b : CircularBuffer) (n : ℕ)
    → IsValid b
    → b.read_pos ≢ b.write_pos
    → n ≤ distance b
    → total_bytes (datum_from b b.read_pos n) ≡ n
unfolding datum_from
total_bytes-datum_from b n v ne h = ground (arith, v.read_in, v.write_in)

-- `GetDatum` of everything: its stretches hold all unread bytes and their sizes sum up to
-- `ReadableSize`.
pub get_datum_all :
    (b : CircularBuffer)
    → IsValid b
    → is_empty b ≡ false
    → (bf : BufferSequence) × (get_datum b (readable_size b) 0 ≡ some bf)
      × (gather b.buffer bf ≡ contents b)
      × (total_bytes bf ≡ readable_size b)
unfolding get_datum is_empty
get_datum_all b v some_left =
    let ne : b.read_pos ≢ b.write_pos = ground arith in
    let size : readable_size b ≡ distance b = readable_size_lem b v in
    let nonzero : (readable_size b == 0 || leb (readable_size b) 0) ≡ false =
      rw size (ground (arith, v.read_in, v.write_in)) in
    let from : masked b (add_size b.read_pos 0) ≡ b.read_pos =
      masked_lem b b.read_pos 0 v v.read_in (omega arith) ∙ ground (arith, v.read_in) in
    let test : ltb b.read_pos b.max_size
          && ltb b.write_pos b.max_size
          && not (b.read_pos == b.write_pos)
        ≡ true =
      ground (arith, v.read_in, v.write_in) in
    (
      datum_from b b.read_pos (readable_size b),
      rw (nonzero, from, test),
      gather-datum_from b (readable_size b) v ne
          ∙ take_of_length-le (readable_size b) (contents b)
              (omega (arith, readable_size_lem b v, length-contents b v)),
      total_bytes-datum_from b (readable_size b) v ne (omega (arith, size)),
    )
