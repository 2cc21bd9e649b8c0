-- ===== src/CircularBuffer/Push.antt =====
-- `CircularBuffer::PushData`.
use uhp_sql.Common.{
  ℕ, ◌+◌, ◌-◌, ◌%◌, ◌^◌, ◌≤◌, ◌<◌, ◌≡◌, refl, sym, ap, ◌∙◌, inl, inr, Bool, true, false, Option,
  some, [], ◌∷◌, ◌++◌, append-nil, append_assoc, arith, ltb, leb, ◌==◌, if◌then◌else◌, Bool-cases,
  Bytes, ◌>>=◌, length, take, drop, length-take, length-drop, take-append-drop, take_of_length-le,
  take-append_length,
}
use uhp_sql.Common.Segments.{
  segment, overwrite, length-overwrite, segment-overwrite_end, segment-overwrite_behind,
}
use uhp_sql.UnboundedBuffer.{add_size}
use uhp_sql.CircularBuffer.{
  CircularBuffer, masked, writeable_size, adjust_write_ptr, wrap_in, copy_in, push_data_at,
  push_data,
}
use uhp_sql.CircularBuffer.Invariant.{
  IsValid, contents, distance, size_bounds, masked_lem, distance-lt, writeable_size_lem,
}

-- New bytes below the read position, in a buffer whose unread bytes go round the end.
append_low :
    (r w m : ℕ) (d s : Bytes)
    → w + length d < r
    → r < m
    → length s ≡ m
    → segment r (m - r) (overwrite w d s) ++ segment 0 (w + length d) (overwrite w d s)
      ≡ (segment r (m - r) s ++ segment 0 w s) ++ d
append_low r w m d s h hr hm =
    let e : w - 0 ≡ w = omega arith in
    let low : segment 0 (w + length d) (overwrite w d s) ≡ segment 0 w s ++ d =
      rw e at (segment-overwrite_end 0 w d s (omega arith) (omega arith)) in
    rw (segment-overwrite_behind r (m - r) w d s (omega arith) (omega arith), low)
      (sym (append_assoc (segment r (m - r) s) (segment 0 w s) d))

-- New bytes that end before the end of the array.
append_high :
    (r w m : ℕ) (d s : Bytes)
    → r ≤ w
    → w + length d < m
    → length s ≡ m
    → segment r (w + length d - r) (overwrite w d s) ≡ segment r (w - r) s ++ d
append_high r w m d s h hw hm =
    let e : w + length d - r ≡ w - r + length d = omega arith in
    ap (λ k. segment r k (overwrite w d s)) e ∙ segment-overwrite_end r w d s h (omega arith)

-- The array after new bytes `d ++ e` that reach its end and go on at its front.
abbrev wrapped : ℕ → Bytes → Bytes → Bytes → Bytes
wrapped w d e s = overwrite 0 e (overwrite w d s)

append_wrapped :
    (r w m : ℕ) (d e s : Bytes)
    → r ≤ w
    → w + length d ≡ m
    → length e < r
    → length s ≡ m
    → segment r (m - r) (wrapped w d e s) ++ segment 0 (length e) (wrapped w d e s)
      ≡ segment r (w - r) s ++ (d ++ e)
append_wrapped r w m d e s h hw he hm =
    let len : length (overwrite w d s) ≡ m = omega (arith, length-overwrite w d s) in
    let k : m - r ≡ w - r + length d = omega arith in
    let high : segment r (m - r) (wrapped w d e s) ≡ segment r (w - r) s ++ d =
      segment-overwrite_behind r (m - r) 0 e (overwrite w d s) (omega arith) (omega arith)
      ∙ ap (λ k. segment r k (overwrite w d s)) k
      ∙ segment-overwrite_end r w d s h (omega arith) in
    let low : segment 0 (length e) (wrapped w d e s) ≡ e =
      take-append_length e (drop (0 + length e) (overwrite w d s)) in
    rw (high, low) (append_assoc (segment r (w - r) s) d e)

-- A push that is accepted: a valid buffer of the same size, with the bytes behind the unread ones.
pub record Pushed (b : CircularBuffer) (bytes : Bytes) (r : Option (Bool × CircularBuffer))
    : Type 0 where
  pub after : CircularBuffer
  pub returns : r ≡ some (true, after)
  pub valid : IsValid after
  pub size : after.max_size ≡ b.max_size
  pub appended : contents after ≡ contents b ++ bytes

-- The buffer with a new array and the write position moved up to `w`.
abbrev moved : CircularBuffer → Bytes → ℕ → CircularBuffer
moved b s w = record b { buffer = s; write_pos = w }

moved-IsValid :
    (b : CircularBuffer) (s : Bytes) (w : ℕ)
    → IsValid b
    → length s ≡ b.max_size
    → w < b.max_size
    → IsValid (moved b s w)
moved-IsValid b s w v hs hw = record {
  exponent = v.exponent;
  power = v.power;
  small = v.small;
  storage = hs;
  read_in = v.read_in;
  write_in = hw;
}

-- The `memcpy` to the front, for fewer bytes than an `int` counts.
pub wrap_in_lem : (e s : Bytes) → length e < 2 ^ 31 → wrap_in e s ≡ overwrite 0 e s
unfolding wrap_in
wrap_in_lem [] s h = refl
wrap_in_lem (x ∷ e) s h =
    let n : length (x ∷ e) % 2 ^ 32 ≡ length (x ∷ e) = omega arith in
    let more : ltb 0 (length (x ∷ e)) ≡ true = ground arith in
    let fits : ltb (length (x ∷ e)) (2 ^ 31) ≡ true = ground arith in
    rw (n, more, fits)
      (ap (λ d. overwrite 0 d s) (take_of_length-le (length (x ∷ e)) (x ∷ e) (omega arith)))

-- The end of `PushData`.
abbrev finish : Bytes → Bool × CircularBuffer → Option (Bool × CircularBuffer)
finish bytes p = if p.0 then some (true, adjust_write_ptr p.1 (length bytes)) else some (false, p.1)

module _ (b : CircularBuffer) (v : IsValid b) (bytes : Bytes)
    (room : length bytes ≤ writeable_size b) where
  fits : distance b + length bytes < b.max_size
  fits = omega (arith, room, writeable_size_lem b v, distance-lt b v)

  n_small : length bytes ≤ b.max_size
  n_small = omega (arith, fits)

  Pushed-low :
      ltb b.write_pos b.read_pos ≡ true
      → Pushed b bytes (copy_in b bytes b.write_pos >>= finish bytes)
  unfolding copy_in adjust_write_ptr
  Pushed-low low =
      let w = b.write_pos + length bytes in
      let s = overwrite b.write_pos bytes b.buffer in
      let below : w < b.read_pos = ground (arith, fits, v.read_in) in
      let pos : masked b (add_size b.write_pos (length bytes)) ≡ w =
        ground (arith, masked_lem b b.write_pos (length bytes) v v.write_in n_small, v.read_in) in
      let old : leb b.read_pos b.write_pos ≡ false = ground arith in
      let new : leb b.read_pos w ≡ false = ground arith in
      let test : ltb (length bytes) (b.read_pos - b.write_pos) ≡ true = ground arith in
      record {
        after = moved b s w;
        returns = rw (low, test, pos);
        valid =
            moved-IsValid b s w v
              (omega (arith, length-overwrite b.write_pos bytes b.buffer, v.storage, v.read_in))
              (omega (arith, v.read_in));
        size = refl;
        appended =
            rw (old, new)
              (append_low b.read_pos b.write_pos b.max_size bytes b.buffer below v.read_in
                v.storage);
      }

  Pushed-high :
      ltb b.write_pos b.read_pos ≡ false
      → leb (length bytes + 1) (b.max_size - b.write_pos) ≡ true
      → Pushed b bytes (copy_in b bytes b.write_pos >>= finish bytes)
  unfolding copy_in adjust_write_ptr
  Pushed-high high short =
      let w = b.write_pos + length bytes in
      let s = overwrite b.write_pos bytes b.buffer in
      let above : b.read_pos ≤ b.write_pos = ground arith in
      let inside : w < b.max_size = ground (arith, v.write_in) in
      let pos : masked b (add_size b.write_pos (length bytes)) ≡ w =
        ground (arith, masked_lem b b.write_pos (length bytes) v v.write_in n_small) in
      let old : leb b.read_pos b.write_pos ≡ true = ground arith in
      let new : leb b.read_pos w ≡ true = ground arith in
      let test : ltb (b.max_size - b.write_pos + b.read_pos) (1 + length bytes) ≡ false =
        ground (arith, fits) in
      record {
        after = moved b s w;
        returns = rw (high, test, short, pos);
        valid =
            moved-IsValid b s w v
              (omega (arith, length-overwrite b.write_pos bytes b.buffer, v.storage)) inside;
        size = refl;
        appended =
            rw (old, new)
              (append_high b.read_pos b.write_pos b.max_size bytes b.buffer above inside v.storage);
      }

  Pushed-wrapped :
      ltb b.write_pos b.read_pos ≡ false
      → leb (length bytes + 1) (b.max_size - b.write_pos) ≡ false
      → Pushed b bytes (copy_in b bytes b.write_pos >>= finish bytes)
  unfolding copy_in adjust_write_ptr
  Pushed-wrapped high long =
      let avail = b.max_size - b.write_pos in
      let d = take avail bytes in
      let e = drop avail bytes in
      let above : b.read_pos ≤ b.write_pos = ground arith in
      let enough : avail ≤ length bytes = ground (arith, v.write_in) in
      let len_d : length d ≡ avail = omega (arith, length-take avail bytes) in
      let len_e : length e ≡ length bytes - avail = omega (arith, length-drop avail bytes) in
      let dist : distance b ≡ b.write_pos - b.read_pos = ground arith in
      let before : length e < b.read_pos = omega (arith, fits, v.write_in) in
      let pos : masked b (add_size b.write_pos (length bytes)) ≡ length e =
        ground (arith, masked_lem b b.write_pos (length bytes) v v.write_in n_small, v.write_in) in
      let old : leb b.read_pos b.write_pos ≡ true = ground arith in
      let new : leb b.read_pos (length e) ≡ false = ground arith in
      let test : ltb (avail + b.read_pos) (1 + length bytes) ≡ false = ground (arith, fits) in
      let s = wrapped b.write_pos d e b.buffer in
      let copy : wrap_in e (overwrite b.write_pos d b.buffer) ≡ s =
        wrap_in_lem e (overwrite b.write_pos d b.buffer)
          (omega (arith, size_bounds b v, v.read_in)) in
      let first : length (overwrite b.write_pos d b.buffer) ≡ b.max_size =
        omega (arith, length-overwrite b.write_pos d b.buffer, v.storage, v.write_in) in
      record {
        after = moved b s (length e);
        returns = rw (high, test, long, copy, pos);
        valid =
            moved-IsValid b s (length e) v
              (omega (arith, length-overwrite 0 e (overwrite b.write_pos d b.buffer), v.read_in))
              (omega (arith, v.read_in));
        size = refl;
        appended =
            rw (old, new)
              (append_wrapped b.read_pos b.write_pos b.max_size d e b.buffer above
                  (omega (arith, v.write_in)) before v.storage
                ∙ ap (λ t. segment b.read_pos (b.write_pos - b.read_pos) b.buffer ++ t)
                    (take-append-drop avail bytes));
      }

  Pushed-copy : Pushed b bytes (copy_in b bytes b.write_pos >>= finish bytes)
  Pushed-copy = elim (Bool-cases (ltb b.write_pos b.read_pos)) [
    | inl low ↦ Pushed-low low
    | inr high ↦ elim (Bool-cases (leb (length bytes + 1) (b.max_size - b.write_pos))) [
      | inl short ↦ Pushed-high high short
      | inr long ↦ Pushed-wrapped high long
    ]
  ]

-- `PushData` of no more bytes than `WriteableSize` passes its asserts, returns true, keeps the
-- buffer valid and its size, and puts the bytes behind the unread ones, round the end of the array
-- where they do not fit before it.
pub push_data-Pushed_ring :
    (b : CircularBuffer) (bytes : Bytes)
    → IsValid b
    → length bytes ≤ writeable_size b
    → Pushed b bytes (push_data b bytes)
unfolding push_data push_data_at adjust_write_ptr
push_data-Pushed_ring b [] v room =
    let pos : masked b (add_size b.write_pos 0) ≡ b.write_pos =
      ground (arith, masked_lem b b.write_pos 0 v v.write_in (omega arith), v.write_in) in
    record {
      after = b;
      returns = rw pos;
      valid = v;
      size = refl;
      appended = sym (append-nil (contents b));
    }
push_data-Pushed_ring b (x ∷ bytes) v room =
    let some_bytes : (length (x ∷ bytes) == 0) ≡ false = ground arith in
    let n : add_size 0 (length (x ∷ bytes)) ≡ length (x ∷ bytes) =
      omega (arith, writeable_size_lem b v, size_bounds b v) in
    let fit : ltb (writeable_size b) (length (x ∷ bytes)) ≡ false = ground arith in
    let to : masked b (add_size b.write_pos 0) ≡ b.write_pos =
      ground (arith, masked_lem b b.write_pos 0 v v.write_in (omega arith), v.write_in) in
    rw (some_bytes, n, fit, to) (Pushed-copy b v (x ∷ bytes) room)

-- `PushData` of more bytes than `WriteableSize` returns false and changes nothing.
pub push_data-full :
    (b : CircularBuffer) (bytes : Bytes)
    → writeable_size b < length bytes
    → length bytes < 2 ^ 64
    → push_data b bytes ≡ some (false, b)
unfolding push_data push_data_at
push_data-full b bytes h small =
    let some_bytes : (length bytes == 0) ≡ false = ground arith in
    let n : add_size 0 (length bytes) ≡ length bytes = omega arith in
    let full : ltb (writeable_size b) (length bytes) ≡ true = ground arith in
    rw (some_bytes, n, full)
