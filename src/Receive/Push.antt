-- ===== src/Receive/Push.antt =====
-- Receiving is pushing: the detour by `GetSpace` and `readv` leaves what `PushData` leaves.
use uhp_sql.Common.{
  ℕ, ◌+◌, ◌-◌, ◌≤◌, ◌<◌, ◌≡◌, refl, sym, ap, ◌∙◌, Bool, true, false, inl, inr, Bool-cases, Option,
  some, [], ◌∷◌, ◌++◌, arith, ltb, leb, ◌==◌, Bytes, length, take, drop, take-append-drop,
  take_of_length-le, drop_of_length-le, length-drop, take-nil,
}
use mathlib.Core.Path.{subst}
use uhp_sql.Common.Int.{pos}
use uhp_sql.Common.Segments.{overwrite}
use uhp_sql.UnboundedBuffer.{add_size}
use uhp_sql.CircularBuffer.{
  CircularBuffer, BufferSequence, masked, total_bytes, writeable_size, adjust_write_ptr, get_space,
  space_from, copy_in, push_data_at, push_data,
}
use uhp_sql.CircularBuffer.Invariant.{
  IsValid, contents, distance, size_bounds, masked_lem, distance-lt, writeable_size_lem,
}
use uhp_sql.CircularBuffer.Push.{wrap_in_lem, push_data-Pushed_ring}
use uhp_sql.Receive.{read, scatter, read_in, recv}

overwrite-nil : (i : ℕ) (s : Bytes) → overwrite i [] s ≡ s
overwrite-nil i s = ap (λ k. take i s ++ drop k s) (omega arith) ∙ take-append-drop i s

-- One stretch that takes all of the bytes.
scatter-one :
    (from len : ℕ) (d s : Bytes)
    → length d ≤ len
    → scatter ((from, len) ∷ []) d s ≡ overwrite from d s
unfolding scatter
scatter-one from len d s h = ap (λ t. overwrite from t s) (take_of_length-le len d h)

scatter-rest :
    (from len from' len' : ℕ) (d s : Bytes)
    → length d ≤ len
    → scatter ((from, len) ∷ (from', len') ∷ []) d s ≡ overwrite from d s
unfolding scatter
scatter-rest from len from' len' d s h =
    ap (λ t. overwrite from' (take len' t) (overwrite from (take len d) s))
      (drop_of_length-le len d h)
    ∙ ap (λ t. overwrite from' t (overwrite from (take len d) s)) (take-nil len')
    ∙ overwrite-nil from' (overwrite from (take len d) s)
    ∙ ap (λ t. overwrite from t s) (take_of_length-le len d h)

-- The stretches of `GetSpace` with room for more than a byte: together they have room for as many
-- bytes as `WriteableSize` says, and what is put there in turn is what `PushData` copies.
record Spaces (b : CircularBuffer) (d : Bytes) (r : Option BufferSequence) : Type 0 where
  stretches : BufferSequence
  returns : r ≡ some stretches
  total : total_bytes stretches ≡ writeable_size b
  some_room : (length stretches == 0) ≡ false
  copied : copy_in b d b.write_pos ≡ some (true, record b { buffer = scatter stretches d b.buffer })

module _ (b : CircularBuffer) (v : IsValid b) (d : Bytes) (some_bytes : 0 < length d)
    (room : length d ≤ writeable_size b) where
  space-low : ltb b.write_pos b.read_pos ≡ true → Spaces b d (space_from b b.write_pos)
  unfolding space_from copy_in
  space-low low =
      let free : b.max_size - distance b - 1 ≡ b.read_pos - b.write_pos - 1 =
        ground (arith, v.read_in) in
      let some_free : ltb 0 (b.read_pos - b.write_pos - 1) ≡ true =
        ground (arith, writeable_size_lem b v) in
      let test : ltb (length d) (b.read_pos - b.write_pos) ≡ true =
        ground (arith, writeable_size_lem b v) in
      record {
        stretches = (b.write_pos, b.read_pos - b.write_pos - 1) ∷ [];
        returns = rw (low, some_free) refl;
        total = omega (arith, writeable_size_lem b v);
        some_room = refl;
        copied =
            rw (low, test)
              (ap (λ s. some (true, record b { buffer = s }))
                (sym (
                  scatter-one b.write_pos (b.read_pos - b.write_pos - 1) d b.buffer
                    (omega (arith, writeable_size_lem b v)))));
      }

  -- The copy that `PushData` makes at and behind the write position, round the end.
  copy_high :
      ltb b.write_pos b.read_pos ≡ false
      → copy_in b d b.write_pos
        ≡ some (
          true,
          record b {
            buffer =
                scatter
                  ((b.write_pos, b.max_size - b.write_pos) ∷ (0, b.read_pos - 1) ∷ [])
                  d
                  b.buffer;
          },
        )
  unfolding copy_in scatter
  copy_high high =
      let avail = b.max_size - b.write_pos in
      let above : b.read_pos ≤ b.write_pos = ground arith in
      let dist : distance b ≡ b.write_pos - b.read_pos = ground arith in
      let fits : distance b + length d < b.max_size =
        omega (arith, writeable_size_lem b v, distance-lt b v) in
      let test : ltb (avail + b.read_pos) (1 + length d) ≡ false = ground (arith, v.write_in) in
      elim (Bool-cases (leb (length d + 1) avail)) [
        | inl short ↦
            rw (high, test, short)
              (ap (λ s. some (true, record b { buffer = s }))
                (sym (scatter-rest b.write_pos avail 0 (b.read_pos - 1) d b.buffer (ground arith))))
        | inr long ↦
            let e = drop avail d in
            let len_e : length e ≡ length d - avail = length-drop avail d in
            let whole : take (b.read_pos - 1) e ≡ e =
              take_of_length-le (b.read_pos - 1) e (ground (arith, v.write_in)) in
            rw (high, test, long)
              (ap (λ s. some (true, record b { buffer = s }))
                (wrap_in_lem e (overwrite b.write_pos (take avail d) b.buffer)
                    (omega (arith, size_bounds b v, room, writeable_size_lem b v))
                  ∙ sym (
                      ap (λ t. overwrite 0 t (overwrite b.write_pos (take avail d) b.buffer))
                        whole)))
      ]

  -- One stretch up to the end, or up to the last place, holds all of the bytes.
  copy_one :
      (len : ℕ)
      → ltb b.write_pos b.read_pos ≡ false
      → length d ≤ len
      → length d ≤ b.max_size - b.write_pos
      → copy_in b d b.write_pos
        ≡ some (true, record b { buffer = scatter ((b.write_pos, len) ∷ []) d b.buffer })
  copy_one len high h h' =
      copy_high high
      ∙ ap (λ s. some (true, record b { buffer = s }))
          (scatter-rest b.write_pos (b.max_size - b.write_pos) 0 (b.read_pos - 1) d b.buffer h'
            ∙ sym (scatter-one b.write_pos len d b.buffer h))

  space-high : ltb b.write_pos b.read_pos ≡ false → Spaces b d (space_from b b.write_pos)
  unfolding space_from
  space-high high =
      let dist : distance b ≡ b.write_pos - b.read_pos = ground arith in
      let free = writeable_size_lem b v in
      elim (Bool-cases (b.read_pos == 0)) [
        | inl zero_pos ↦
            let r : b.read_pos ≡ 0 = ground arith in
            record {
              stretches = (b.write_pos, b.max_size - b.write_pos - 1) ∷ [];
              returns = rw (high, zero_pos) refl;
              total = omega arith;
              some_room = refl;
              copied = copy_one (b.max_size - b.write_pos - 1) high (omega arith) (omega arith);
            }
        | inr pos_pos ↦ elim (Bool-cases (ltb 1 b.read_pos)) [
          | inl two ↦
              let r : 1 < b.read_pos = ground arith in
              record {
                stretches = (b.write_pos, b.max_size - b.write_pos) ∷ (0, b.read_pos - 1) ∷ [];
                returns = rw (high, pos_pos, two) refl;
                total = omega (arith, v.write_in, above);
                some_room = refl;
                copied = copy_high high;
              }
          | inr one ↦
              let r : b.read_pos ≡ 1 = ground arith in
              record {
                stretches = (b.write_pos, b.max_size - b.write_pos) ∷ [];
                returns = rw (high, pos_pos, one) refl;
                total = omega (arith, v.write_in, above);
                some_room = refl;
                copied =
                    copy_one (b.max_size - b.write_pos) high (omega (arith, above))
                      (omega (arith, above));
              }
        ]
      ]
    where
      above : b.read_pos ≤ b.write_pos
      above = ground arith

  spaces : 1 < writeable_size b → Spaces b d (get_space b 0)
  unfolding get_space
  spaces more =
      let in_read : ltb b.read_pos b.max_size ≡ true = ground (arith, v.read_in) in
      let in_write : ltb b.write_pos b.max_size ≡ true = ground (arith, v.write_in) in
      let test : leb (writeable_size b) (add_size 0 1) ≡ false = ground arith in
      let to : masked b (add_size b.write_pos 0) ≡ b.write_pos =
        ground (arith, masked_lem b b.write_pos 0 v v.write_in (omega arith), v.write_in) in
      rw (in_read, in_write, test, to)
        (elim (Bool-cases (ltb b.write_pos b.read_pos)) [
          | inl low ↦ space-low low
          | inr high ↦ space-high high
        ])

-- Where the ring has room for more than one byte, `GetSpace` offers exactly as many bytes as
-- `WriteableSize` says, and whatever `readv` reads there, at most so many and not none, `Recv`
-- returns their number and leaves the same buffer as `PushData` of them, which returns true: a
-- valid one with the bytes behind those that were unread.
pub recv-push_data :
    (b : CircularBuffer) (x : ℕ) (bytes : Bytes)
    → IsValid b
    → 1 < writeable_size b
    → length (x ∷ bytes) ≤ writeable_size b
    → (bf : BufferSequence) × (after : CircularBuffer) × (get_space b 0 ≡ some bf)
      × (total_bytes bf ≡ writeable_size b)
      × (recv (read (x ∷ bytes)) b ≡ some (pos (length (x ∷ bytes)), after))
      × (push_data b (x ∷ bytes) ≡ some (true, after))
      × IsValid after
      × (contents after ≡ contents b ++ x ∷ bytes)
unfolding recv read_in push_data push_data_at
recv-push_data b x bytes v more room =
    let d : Bytes = x ∷ bytes in
    let space = spaces b v d (omega arith) room more in
    let pushed = push_data-Pushed_ring b d v room in
    let after : CircularBuffer =
      adjust_write_ptr (record b { buffer = scatter space.stretches d b.buffer }) (length d) in
    let ready : (b.max_size == 0) ≡ false = ground (arith, size_bounds b v) in
    let some_bytes : (length d == 0) ≡ false = ground arith in
    let n : add_size 0 (length d) ≡ length d =
      omega (arith, writeable_size_lem b v, size_bounds b v) in
    let fit : ltb (writeable_size b) (length d) ≡ false = ground arith in
    let to : masked b (add_size b.write_pos 0) ≡ b.write_pos =
      ground (arith, masked_lem b b.write_pos 0 v v.write_in (omega arith), v.write_in) in
    let push : push_data b d ≡ some (true, after) =
      rw (some_bytes, n, fit, to, space.copied) refl in
    let same : ◌≡◌ {A = Option (Bool × CircularBuffer)} (some (true, after))
        (some (true, pushed.after)) =
      sym push ∙ pushed.returns in
    let eq : after ≡ pushed.after = cc in
    (
      space.stretches,
      after,
      space.returns,
      space.total,
      rw (ready, space.returns, space.some_room) refl,
      push,
      subst IsValid (sym eq) pushed.valid,
      ap contents eq ∙ pushed.appended,
    )
