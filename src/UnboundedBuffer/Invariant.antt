-- ===== src/UnboundedBuffer/Invariant.antt =====
-- The unread bytes of an `UnboundedBuffer`, and what `_AssureSpace` does for them.
use uhp_sql.Common.{
  ℕ, zero, suc, ◌+◌, ◌-◌, ◌/◌, ◌%◌, ◌^◌, ◌≤◌, ◌<◌, ◌≡◌, refl, sym, ap, ◌∙◌, ◌↔◌, inl, inr, true,
  false, some, arith, ltb, leb, Bool-cases, Bytes, length, take, drop, take-append_length,
}
use uhp_sql.Common.Segments.{
  drop-segment, segment, overwrite, resize, length-segment, length-overwrite, length-resize,
  segment-resize,
}
use uhp_sql.UnboundedBuffer.{
  adjust_read_ptr, is_empty, UnboundedBuffer, max_buffer_size, add_size, readable_size,
  writeable_size, next_size, grow, compact, assure_space,
}

pub record IsValid (b : UnboundedBuffer) : Type 0 where
  pub ordered : b.read_pos ≤ b.write_pos
  pub within : b.write_pos ≤ length b.buffer
  pub addressable : length b.buffer < 2 ^ 64

-- The bytes written and not yet read.
abbrev pub contents : UnboundedBuffer → Bytes
contents b = segment b.read_pos (b.write_pos - b.read_pos) b.buffer

pub length-contents :
    (b : UnboundedBuffer) → IsValid b → length (contents b) ≡ b.write_pos - b.read_pos
length-contents b v = length-segment b.read_pos (b.write_pos - b.read_pos) b.buffer (omega arith)

pub readable_size_lem : (b : UnboundedBuffer) → IsValid b → readable_size b ≡ length (contents b)
readable_size_lem b v = omega (arith, length-contents b v)

next_size_grows :
    (m : ℕ) → m ≤ max_buffer_size → (s : ℕ) × (next_size m ≡ some s) × (m < s) × (s < 2 ^ 64)
unfolding next_size
next_size_grows m h = elim (Bool-cases (ltb m 64)) [
  | inl small ↦ (64, ground arith, ground arith, omega arith)
  | inr large ↦ ((m + m / 2) % 2 ^ 64, ground arith, ground arith, omega arith)
]

-- `c` is `b` with a buffer that has room for `n` more bytes once the unread ones stand in front.
pub record Grown (b : UnboundedBuffer) (n : ℕ) (c : UnboundedBuffer) : Type 0 where
  pub valid : IsValid c
  pub same : contents c ≡ contents b
  pub room : n + (c.write_pos - c.read_pos) ≤ length c.buffer
  pub reads : c.read_pos ≡ b.read_pos
  pub writes : c.write_pos ≡ b.write_pos

abbrev resized : UnboundedBuffer → ℕ → UnboundedBuffer
resized b s = record b { buffer = resize s 0 b.buffer }

resized-IsValid :
    (b : UnboundedBuffer) (s : ℕ)
    → IsValid b
    → length b.buffer < s
    → s < 2 ^ 64
    → IsValid (resized b s)
resized-IsValid b s v h hs = omega (arith, length-resize s 0 b.buffer)

Grown-resized :
    (b : UnboundedBuffer) (n s : ℕ) (c : UnboundedBuffer)
    → IsValid b
    → length b.buffer < s
    → Grown (resized b s) n c
    → Grown b n c
Grown-resized b n s c v h g = record {
  valid = g.valid;
  same =
      g.same
      ∙ segment-resize b.read_pos (b.write_pos - b.read_pos) s 0 b.buffer (omega arith)
          (omega arith);
  room = g.room;
  reads = g.reads;
  writes = g.writes;
}

grow_enough :
    (fuel n : ℕ) (b : UnboundedBuffer)
    → ltb (add_size (writeable_size b) b.read_pos) n ≡ false
    → grow (suc fuel) n b ≡ b
unfolding grow
grow_enough fuel n b e = rw (grow, e)

grow_short :
    (fuel n s : ℕ) (b : UnboundedBuffer)
    → ltb (add_size (writeable_size b) b.read_pos) n ≡ true
    → next_size (length b.buffer) ≡ some s
    → grow (suc fuel) n b ≡ grow fuel n (resized b s)
unfolding grow
grow_short fuel n s b e e' = rw (grow, e) (rw (e', grow))

-- The loop ends with room, given that the bytes can be addressed and that the fuel makes up what
-- the buffer lacks.
grow-Grown :
    (fuel n : ℕ) (b : UnboundedBuffer)
    → IsValid b
    → n + (b.write_pos - b.read_pos) ≤ max_buffer_size
    → n + (b.write_pos - b.read_pos) ≤ length b.buffer + fuel
    → Grown b n (grow fuel n b)
unfolding grow
grow-Grown zero n b v fits hf = record {
  valid = v;
  same = refl;
  room = omega arith;
  reads = refl;
  writes = refl;
}
grow-Grown (suc fuel) n b v fits hf =
    elim (Bool-cases (ltb (add_size (writeable_size b) b.read_pos) n)) [
      | inr enough ↦
          rw (grow_enough fuel n b enough)
            (record { valid = v; same = refl; room = ground arith; reads = refl; writes = refl })
      | inl short ↦
          let (s, e, more, fits') = next_size_grows (length b.buffer) (ground arith) in
          rw (grow_short fuel n s b short e) (
            Grown-resized b n s _ v more (
              grow-Grown fuel n (resized b s) (resized-IsValid b s v more fits') fits
                (omega (arith, length-resize s 0 b.buffer))))
    ]

compact-IsValid : (b : UnboundedBuffer) → IsValid b → IsValid (compact b)
unfolding compact
compact-IsValid b v = omega (
  arith,
  length-overwrite 0 (segment b.read_pos (readable_size b) b.buffer) b.buffer,
  length-segment b.read_pos (readable_size b) b.buffer,
)

contents-compact : (b : UnboundedBuffer) → IsValid b → contents (compact b) ≡ contents b
unfolding compact
contents-compact b v =
    let e : readable_size b ≡ b.write_pos - b.read_pos = omega arith in
    let e' : b.write_pos - b.read_pos - 0 ≡ length (contents b) =
      omega (arith, length-contents b v) in
    rw e (
      ap (λ n. take n (overwrite 0 (contents b) b.buffer)) e'
      ∙ take-append_length (contents b) (drop (0 + length (contents b)) b.buffer))

compact-room :
    (b : UnboundedBuffer) (n : ℕ)
    → IsValid b
    → n + (b.write_pos - b.read_pos) ≤ length b.buffer
    → n ≤ writeable_size (compact b)
unfolding compact
compact-room b n v h = omega (
  arith,
  length-overwrite 0 (segment b.read_pos (readable_size b) b.buffer) b.buffer,
  length-segment b.read_pos (readable_size b) b.buffer,
)

-- What `_AssureSpace` gives: the unread bytes as they were, and room behind them for `n` more.
pub record Assured (b : UnboundedBuffer) (n : ℕ) (c : UnboundedBuffer) : Type 0 where
  pub valid : IsValid c
  pub same : contents c ≡ contents b
  pub room : n ≤ writeable_size c

pub assure_space-Assured :
    (b : UnboundedBuffer) (n : ℕ)
    → IsValid b
    → n + (b.write_pos - b.read_pos) ≤ max_buffer_size
    → Assured b n (assure_space b n)
unfolding assure_space
assure_space-Assured b n v fits = elim (Bool-cases (leb n (writeable_size b))) [
  | inl enough ↦ rw enough (record { valid = v; same = refl; room = ground arith })
  | inr short ↦
      let g : Grown b n (grow n n b) = grow-Grown n n b v fits (omega arith) in
      elim (Bool-cases (ltb 0 (grow n n b).read_pos)) [
        | inl moved ↦
            rw (short, moved)
              (record {
                valid = compact-IsValid (grow n n b) g.valid;
                same = contents-compact (grow n n b) g.valid ∙ g.same;
                room = compact-room (grow n n b) n g.valid g.room;
              })
        | inr front ↦
            rw (short, front) (record { valid = g.valid; same = g.same; room = ground arith })
      ]
]

pub is_empty_lem :
    (b : UnboundedBuffer) → IsValid b → (is_empty b ≡ true) ↔ (length (contents b) ≡ 0)
unfolding is_empty
is_empty_lem b v = rw (sym (readable_size_lem b v)) (ground arith)

-- `AdjustReadPtr` by at most the number of unread bytes.
pub adjust_read_ptr_lem :
    (b : UnboundedBuffer) (n : ℕ)
    → IsValid b
    → n ≤ length (contents b)
    → IsValid (adjust_read_ptr b n) × (contents (adjust_read_ptr b n) ≡ drop n (contents b))
unfolding adjust_read_ptr
adjust_read_ptr_lem b n v h =
    let fit : n ≤ b.write_pos - b.read_pos = omega (arith, length-contents b v) in
    let pos : add_size b.read_pos n ≡ b.read_pos + n = omega arith in
    let left : b.write_pos - (b.read_pos + n) ≡ b.write_pos - b.read_pos - n = omega arith in
    (
      omega arith,
      rw (pos, left) (sym (drop-segment n b.read_pos (b.write_pos - b.read_pos) b.buffer)),
    )
