-- ===== src/CircularBuffer/Power.antt =====
-- Powers of two: what `RoundUp2Power` returns, and what a mask does to positions.
use uhp_sql.Common.{
  ℕ, zero, suc, ◌+◌, ◌-◌, ◌*◌, ◌%◌, ◌^◌, ◌≤◌, ◌<◌, bit_and, ◌≡◌, sym, ap, ◌∙◌, inl, inr, true,
  false, some, arith, ltb, leb, ◌==◌, if◌then◌else◌, Bool-cases,
}
use native.Mathlib.Nat.{
  pow-suc, one-le-pow, pow-le-pow_right, add-mul-mod_self_left, mod-eq_of_lt, mul_assoc,
  mod-eq-sub-mod, add-mod_right, add-zero,
}
use native.Mathlib.Decide.{dec_lt}
use uhp_sql.Common.Bits.{bit_and_mask}
use uhp_sql.UnboundedBuffer.{add_size, sub_size}
use uhp_sql.CircularBuffer.{round_loop, round_up_2_power}

pub pow_pos : (k : ℕ) → 0 < 2 ^ k
pow_pos k = one-le-pow k 2 (omega arith)

pub pow_add : (j k : ℕ) → 2 ^ (k + j) ≡ 2 ^ k * 2 ^ j
pow_add zero k = omega (arith, ap (λ n. 2 ^ n) (add-zero k))
pow_add (suc j) k =
    let e : k + suc j ≡ suc (k + j) = omega arith in
    rw (e, pow-suc 2 (k + j), pow-suc 2 j, pow_add j k) (mul_assoc (2 ^ k) (2 ^ j) 2)

pub pow_le : (k n : ℕ) → k ≤ n → 2 ^ k ≤ 2 ^ n
pow_le k n h = pow-le-pow_right (omega arith) h

one_multiple : (m q x : ℕ) → 0 < q → x + m * q ≡ (x + m) + m * (q - 1)
one_multiple m zero x h = absurd (omega arith)
one_multiple m (suc n) x h = let e : suc n - 1 ≡ n = omega arith in rw e (omega arith)

-- `size_t` wraps at a multiple of every power of two below it.
mod_wrapped : (k x : ℕ) → k ≤ 64 → (x + 2 ^ 64) % 2 ^ k ≡ (x + 2 ^ k) % 2 ^ k
mod_wrapped k x h =
    let q = 2 ^ (64 - k) in
    let e : 2 ^ 64 ≡ 2 ^ k * q =
      ap (λ n. 2 ^ n) (let e' : 64 ≡ k + (64 - k) = omega arith in e') ∙ pow_add (64 - k) k in
    ap (λ t. (x + t) % 2 ^ k) e
    ∙ ap (λ t. t % 2 ^ k) (one_multiple (2 ^ k) q x (pow_pos (64 - k)))
    ∙ add-mul-mod_self_left (x + 2 ^ k) (2 ^ k) (q - 1)

-- A negative difference, wrapped and reduced.
mod_below : (k w r : ℕ) → k ≤ 63 → r < 2 ^ k → (w + 2 ^ 64 - r) % 2 ^ k ≡ (w + 2 ^ k - r) % 2 ^ k
mod_below k w r hk hr =
    let big : 2 ^ k ≤ 2 ^ 63 = pow_le k 63 hk in
    let e : w + 2 ^ 64 - r + 2 ^ k ≡ w + 2 ^ k - r + 2 ^ 64 = omega arith in
    sym (add-mod_right (w + 2 ^ 64 - r) (2 ^ k))
    ∙ ap (λ t. t % 2 ^ k) e
    ∙ mod_wrapped k (w + 2 ^ k - r) (omega arith)
    ∙ add-mod_right (w + 2 ^ k - r) (2 ^ k)

-- A difference of two positions, masked.
pub masked_sub :
    (k w r : ℕ)
    → k ≤ 63
    → w < 2 ^ k
    → r < 2 ^ k
    → bit_and (sub_size w r) (2 ^ k - 1) ≡ (if leb r w then w - r else w + 2 ^ k - r)
masked_sub k w r hk hw hr =
    let big : 2 ^ k ≤ 2 ^ 63 = pow_le k 63 hk in
    bit_and_mask k (sub_size w r) ∙ elim (Bool-cases (leb r w)) [
      | inl le ↦
          let h : r ≤ w = ground arith in
          let e : sub_size w r ≡ w - r = omega arith in rw (le, e) (mod-eq_of_lt (omega arith))
      | inr gt ↦
          let h : w < r = ground arith in
          let e : sub_size w r ≡ w + 2 ^ 64 - r = omega arith in
          let small : w + 2 ^ k - r < 2 ^ k = omega arith in
          rw (gt, e) (mod_below k w r hk hr ∙ mod-eq_of_lt small)
    ]

-- A sum of two positions, masked.
pub masked_add :
    (k a n : ℕ)
    → k ≤ 62
    → a < 2 ^ k
    → n ≤ 2 ^ k
    → bit_and (add_size a n) (2 ^ k - 1) ≡ (if ltb (a + n) (2 ^ k) then a + n else a + n - 2 ^ k)
masked_add k a n hk ha hn =
    let big : 2 ^ k ≤ 2 ^ 62 = pow_le k 62 hk in
    let e : add_size a n ≡ a + n = omega arith in
    bit_and_mask k (add_size a n) ∙ elim (Bool-cases (ltb (a + n) (2 ^ k))) [
      | inl lt ↦ let h : a + n < 2 ^ k = ground arith in rw (lt, e) (mod-eq_of_lt h)
      | inr ge ↦
          let h : 2 ^ k ≤ a + n = ground arith in
          rw (ge, e) (mod-eq-sub-mod h ∙ mod-eq_of_lt (omega arith))
    ]

not_last : (k size : ℕ) → size ≤ 2 ^ 63 → k ≤ 63 → 2 ^ k < size → k ≤ 62
not_last k size hs hk lt = elim (dec_lt k 63) [
  | yes h ↦ omega arith
  | no h ↦ let e : k ≡ 63 = omega arith in absurd (omega (arith, ap (λ n. 2 ^ n) e))
]

round_loop_step :
    (fuel k size : ℕ)
    → k ≤ 62
    → ltb (2 ^ k) size ≡ true
    → round_loop (suc fuel) size (2 ^ k) ≡ round_loop fuel size (2 ^ suc k)
unfolding round_loop
round_loop_step fuel k size h more =
    let e : 2 ^ k * 2 % 2 ^ 64 ≡ 2 ^ suc k = omega (arith, pow-suc 2 k, pow_le k 62 h) in
    rw (round_loop, more) (ap (λ n. round_loop fuel size n) e)

round_loop-power :
    (fuel k size : ℕ)
    → size ≤ 2 ^ 63
    → k ≤ 63
    → 63 < k + fuel
    → 2 ^ k < 2 * size
    → (j : ℕ) × (round_loop fuel size (2 ^ k) ≡ some (2 ^ j))
      × (j ≤ 63)
      × (size ≤ 2 ^ j)
      × (2 ^ j < 2 * size)
unfolding round_loop
round_loop-power zero k size hs hk hf hp = absurd (omega arith)
round_loop-power (suc fuel) k size hs hk hf hp = elim (Bool-cases (ltb (2 ^ k) size)) [
  | inr done ↦ (k, rw done, hk, ground arith, hp)
  | inl more ↦
      let lt : 2 ^ k < size = ground arith in
      let k' : k ≤ 62 = not_last k size hs hk lt in
      let (j, r, a, b, c) =
        round_loop-power fuel (suc k) size hs (omega arith) (omega arith)
          (omega (arith, pow-suc 2 k)) in
      (j, round_loop_step fuel k size k' more ∙ r, a, b, c)
]

-- For a size from 1 to 2 ^ 63 the loop of `RoundUp2Power` ends, with the least power of two that is
-- at least the size.
pub round_up_2_power-power :
    (size : ℕ)
    → 0 < size
    → size ≤ 2 ^ 63
    → (j : ℕ) × (round_up_2_power size ≡ some (2 ^ j)) × (size ≤ 2 ^ j) × (2 ^ j < 2 * size)
unfolding round_up_2_power
round_up_2_power-power size pos hs =
    let nonzero : (size == 0) ≡ false = ground arith in
    let (j, r, a, b, c) = round_loop-power 65 0 size hs (omega arith) (omega arith) (omega arith) in
    (j, rw nonzero r, b, c)
