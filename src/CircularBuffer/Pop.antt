-- ===== src/CircularBuffer/Pop.antt =====
-- `CircularBuffer::AdjustReadPtr`: skipping unread bytes.
use uhp_sql.Common.{
  ℕ, ◌+◌, ◌-◌, ◌≤◌, ◌<◌, ◌≡◌, sym, ap, ◌∙◌, inl, inr, true, false, ◌++◌, arith, ltb, leb,
  Bool-cases, length, drop, drop_of_length-le, drop-append_le, drop-append,
}
use uhp_sql.Common.Segments.{segment, length-segment, drop-segment}
use uhp_sql.UnboundedBuffer.{add_size}
use uhp_sql.CircularBuffer.{CircularBuffer, masked, adjust_read_ptr}
use uhp_sql.CircularBuffer.Invariant.{
  IsValid, contents, distance, masked_lem, distance-lt, length-contents,
}

-- The buffer with the read position moved.
abbrev pub at : CircularBuffer → ℕ → CircularBuffer
at b from = record b { read_pos = from }

at-IsValid : (b : CircularBuffer) (from : ℕ) → IsValid b → from < b.max_size → IsValid (at b from)
at-IsValid b from v h = record {
  exponent = v.exponent;
  power = v.power;
  small = v.small;
  storage = v.storage;
  read_in = h;
  write_in = v.write_in;
}

-- Skipping within the stretch up to the write position, before the end of the array, and round it.
skip_straight :
    (b : CircularBuffer) (n : ℕ)
    → leb b.read_pos b.write_pos ≡ true
    → b.read_pos + n ≤ b.write_pos
    → contents (at b (b.read_pos + n)) ≡ drop n (contents b)
skip_straight b n le h =
    let new : leb (b.read_pos + n) b.write_pos ≡ true = ground arith in
    let k : b.write_pos - (b.read_pos + n) ≡ b.write_pos - b.read_pos - n = omega arith in
    rw (le, new, k) (sym (drop-segment n b.read_pos (b.write_pos - b.read_pos) b.buffer))

skip_before_end :
    (b : CircularBuffer) (n : ℕ)
    → IsValid b
    → leb b.read_pos b.write_pos ≡ false
    → b.read_pos + n < b.max_size
    → contents (at b (b.read_pos + n)) ≡ drop n (contents b)
skip_before_end b n v gt h =
    let new : leb (b.read_pos + n) b.write_pos ≡ false = ground arith in
    let k : b.max_size - (b.read_pos + n) ≡ b.max_size - b.read_pos - n = omega arith in
    let a = segment b.read_pos (b.max_size - b.read_pos) b.buffer in
    let len : length a ≡ b.max_size - b.read_pos =
      length-segment b.read_pos (b.max_size - b.read_pos) b.buffer (omega (arith, v.storage)) in
    rw (gt, new, k)
      (ap (λ t. t ++ segment 0 b.write_pos b.buffer)
          (sym (drop-segment n b.read_pos (b.max_size - b.read_pos) b.buffer))
        ∙ sym (drop-append_le n a (segment 0 b.write_pos b.buffer) (omega arith)))

skip_round_end :
    (b : CircularBuffer) (n : ℕ)
    → IsValid b
    → leb b.read_pos b.write_pos ≡ false
    → b.max_size ≤ b.read_pos + n
    → b.read_pos + n ≤ b.max_size + b.write_pos
    → contents (at b (b.read_pos + n - b.max_size)) ≡ drop n (contents b)
skip_round_end b n v gt lo hi =
    let from = b.read_pos + n - b.max_size in
    let new : leb from b.write_pos ≡ true = ground arith in
    let a = segment b.read_pos (b.max_size - b.read_pos) b.buffer in
    let len : length a ≡ b.max_size - b.read_pos =
      length-segment b.read_pos (b.max_size - b.read_pos) b.buffer
        (omega (arith, v.storage, v.read_in)) in
    let rest : n - length a ≡ from = omega (arith, v.read_in) in
    let zero_left : 0 + from ≡ from = omega arith in
    rw (gt, new)
      (ap (λ k. segment k (b.write_pos - from) b.buffer) (sym zero_left)
        ∙ sym (drop-segment from 0 b.write_pos b.buffer)
        ∙ ap (λ k. drop k (segment 0 b.write_pos b.buffer)) (sym rest)
        ∙ ap (λ t. t ++ drop (n - length a) (segment 0 b.write_pos b.buffer))
            (sym (drop_of_length-le n a (omega arith)))
        ∙ sym (drop-append n a (segment 0 b.write_pos b.buffer)))

-- Where a skip of `n` unread bytes takes the read position: inside the array, and to the unread
-- bytes behind those.
pub record Skipped (b : CircularBuffer) (n from : ℕ) : Type 0 where
  pub valid : IsValid (at b from)
  pub rest : contents (at b from) ≡ drop n (contents b)

pub skip-Skipped :
    (b : CircularBuffer) (n : ℕ)
    → IsValid b
    → n ≤ length (contents b)
    → Skipped b n (masked b (add_size b.read_pos n))
skip-Skipped b n v h =
    let len : length (contents b) ≡ distance b = length-contents b v in
    let small : n ≤ b.max_size = omega (arith, distance-lt b v) in
    let pos = masked_lem b b.read_pos n v v.read_in small in
    elim (Bool-cases (leb b.read_pos b.write_pos)) [
      | inl le ↦
          let fit : b.read_pos + n ≤ b.write_pos = ground arith in
          let e : masked b (add_size b.read_pos n) ≡ b.read_pos + n = ground (arith, v.write_in) in
          rw e (record {
            valid = at-IsValid b (b.read_pos + n) v (omega (arith, v.write_in));
            rest = skip_straight b n le fit;
          })
      | inr gt ↦ elim (Bool-cases (ltb (b.read_pos + n) b.max_size)) [
        | inl before ↦
            let e : masked b (add_size b.read_pos n) ≡ b.read_pos + n = ground arith in
            let h' : b.read_pos + n < b.max_size = ground arith in
            rw e (record {
              valid = at-IsValid b (b.read_pos + n) v h';
              rest = skip_before_end b n v gt h';
            })
        | inr round ↦
            let e : masked b (add_size b.read_pos n) ≡ b.read_pos + n - b.max_size = ground arith in
            let lo : b.max_size ≤ b.read_pos + n = ground arith in
            let hi : b.read_pos + n ≤ b.max_size + b.write_pos = ground arith in
            rw e (record {
              valid =
                  at-IsValid b (b.read_pos + n - b.max_size) v
                    (omega (arith, v.write_in, v.read_in));
              rest = skip_round_end b n v gt lo hi;
            })
      ]
    ]

-- `AdjustReadPtr` by at most the number of unread bytes keeps the buffer valid and skips as many.
pub adjust_read_ptr-Skipped :
    (b : CircularBuffer) (n : ℕ)
    → IsValid b
    → n ≤ length (contents b)
    → IsValid (adjust_read_ptr b n) × (contents (adjust_read_ptr b n) ≡ drop n (contents b))
unfolding adjust_read_ptr
adjust_read_ptr-Skipped b n v h = let s = skip-Skipped b n v h in (s.valid, s.rest)
