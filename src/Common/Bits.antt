-- ===== src/Common/Bits.antt =====
-- Masks and disjoint fields: `bit_and` with 2 ^ k - 1, and `bit_or` of a value below 2 ^ k with a
-- multiple of it, as arithmetic.
use Prim.Native.Nat.{ℕ, zero, suc, ◌+◌, ◌-◌, ◌*◌, ◌/◌, ◌%◌, ◌^◌, ◌≤◌, ◌<◌, min, max}
use Prim.Native.Nat.{bit_and, bit_or, digits, bit_and-bitwise, bit_or-bitwise}
use mathlib.Core.Path.{◌≡◌, refl, ◌∙◌, ap}
use native.Mathlib.Omega.{arith}
use native.Mathlib.Nat.{
  pow-suc, one-le-pow, mul-add-mod_self_left, mod-eq_of_lt, div-add-mod, mod-lt,
}

-- The digit recursion that both operations stand for does not depend on its fuel.
module _ (z : ℕ → ℕ) (f : ℕ → ℕ → ℕ) where
  fuel_irrelevant : (n m a b : ℕ) → a ≤ n → a ≤ m → digits z f n a b ≡ digits z f m a b
  fuel_irrelevant zero zero a b p q = refl
  fuel_irrelevant zero (suc m) zero b p q = refl
  fuel_irrelevant zero (suc m) (suc a) b p q = absurd (omega arith)
  fuel_irrelevant (suc n) zero zero b p q = refl
  fuel_irrelevant (suc n) zero (suc a) b p q = absurd (omega arith)
  fuel_irrelevant (suc n) (suc m) zero b p q = refl
  fuel_irrelevant (suc n) (suc m) (suc a) b p q =
      omega (arith, fuel_irrelevant n m (suc a / 2) (b / 2) (omega arith) (omega arith))

pub bit_or-zero_left : (b : ℕ) → bit_or 0 b ≡ b
bit_or-zero_left b = bit_or-bitwise 0 b

bit_and-zero_left : (b : ℕ) → bit_and 0 b ≡ 0
bit_and-zero_left b = bit_and-bitwise 0 b

bit_or_digit : (a b : ℕ) → bit_or a b ≡ bit_or (a / 2) (b / 2) * 2 + max (a % 2) (b % 2)
bit_or_digit zero b = omega (arith, bit_or-zero_left b, bit_or-zero_left (b / 2))
bit_or_digit (suc a) b = omega (
  arith,
  bit_or-bitwise (suc a) b,
  bit_or-bitwise (suc a / 2) (b / 2),
  fuel_irrelevant (λ y. y) max a (suc a / 2) (suc a / 2) (b / 2) (omega arith) (omega arith),
)

bit_and_digit : (a b : ℕ) → bit_and a b ≡ bit_and (a / 2) (b / 2) * 2 + min (a % 2) (b % 2)
bit_and_digit zero b = omega (arith, bit_and-zero_left b, bit_and-zero_left (b / 2))
bit_and_digit (suc a) b = omega (
  arith,
  bit_and-bitwise (suc a) b,
  bit_and-bitwise (suc a / 2) (b / 2),
  fuel_irrelevant (λ y. 0) min a (suc a / 2) (suc a / 2) (b / 2) (omega arith) (omega arith),
)

bit_and-zero_within : (n a : ℕ) → a ≤ n → bit_and a 0 ≡ 0
bit_and-zero_within n zero h = refl
bit_and-zero_within zero (suc a) h = absurd (omega arith)
bit_and-zero_within (suc n) (suc a) h =
    omega (arith, bit_and_digit (suc a) 0, bit_and-zero_within n (suc a / 2) (omega arith))

-- The lowest digit and the rest of a remainder by 2 ^ suc k.
mod_double : (p a : ℕ) → 0 < p → a % (2 * p) ≡ (a / 2) % p * 2 + a % 2
mod_double p a h =
    ap (λ t. t % (2 * p)) split
    ∙ mul-add-mod_self_left (2 * p) (a / 2 / p) ((a / 2) % p * 2 + a % 2)
    ∙ mod-eq_of_lt (omega (arith, mod-lt (a / 2) {m = p} h))
  where
    split : a ≡ 2 * p * (a / 2 / p) + ((a / 2) % p * 2 + a % 2)
    split = omega (arith, div-add-mod (a / 2) p)

-- A mask of `k` ones keeps the remainder by 2 ^ k.
pub bit_and_mask : (k a : ℕ) → bit_and a (2 ^ k - 1) ≡ a % 2 ^ k
bit_and_mask zero a = omega (arith, bit_and-zero_within a a (omega arith))
bit_and_mask (suc k) a = omega (
  arith,
  bit_and_digit a (2 ^ suc k - 1),
  ap (λ t. bit_and (a / 2) t) half,
  bit_and_mask k (a / 2),
  pow-suc 2 k,
  one-le-pow k 2 (omega arith),
  ap (λ t. a % t) double,
  mod_double (2 ^ k) a (one-le-pow k 2 (omega arith)),
)
  where
    double : 2 ^ suc k ≡ 2 * 2 ^ k
    double = omega (arith, pow-suc 2 k)

    half : (2 ^ suc k - 1) / 2 ≡ 2 ^ k - 1
    half = omega (arith, double, one-le-pow k 2 (omega arith))

-- Fields that do not overlap: `|` is `+`.
pub bit_or_fields : (k r q : ℕ) → r < 2 ^ k → bit_or r (q * 2 ^ k) ≡ r + q * 2 ^ k
bit_or_fields zero r q h =
    let e : r ≡ 0 = omega arith in rw e (omega (arith, bit_or-zero_left (q * 2 ^ 0)))
bit_or_fields (suc k) r q h = omega (
  arith,
  bit_or_digit r (q * 2 ^ suc k),
  ap (λ t. bit_or (r / 2) t) half,
  bit_or_fields k (r / 2) q (omega (arith, pow-suc 2 k)),
  double,
)
  where
    double : q * 2 ^ suc k ≡ 2 * (q * 2 ^ k)
    double = omega (arith, ap (λ (t : ℕ). q * t) (pow-suc 2 k))

    half : q * 2 ^ suc k / 2 ≡ q * 2 ^ k
    half = omega (arith, double)

bit_or_ge_within : (n a b : ℕ) → a ≤ n → a ≤ bit_or a b
bit_or_ge_within n zero b h = omega arith
bit_or_ge_within zero (suc a) b h = absurd (omega arith)
bit_or_ge_within (suc n) (suc a) b h =
    omega (arith, bit_or_digit (suc a) b, bit_or_ge_within n (suc a / 2) (b / 2) (omega arith))

-- `|` clears no bit.
pub le-bit_or : (a b : ℕ) → a ≤ bit_or a b
le-bit_or a b = bit_or_ge_within a a b (omega arith)

bit_or-zero_within : (n a : ℕ) → a ≤ n → bit_or a 0 ≡ a
bit_or-zero_within n zero h = refl
bit_or-zero_within zero (suc a) h = absurd (omega arith)
bit_or-zero_within (suc n) (suc a) h =
    omega (arith, bit_or_digit (suc a) 0, bit_or-zero_within n (suc a / 2) (omega arith))

pub bit_or-zero : (a : ℕ) → bit_or a 0 ≡ a
bit_or-zero a = bit_or-zero_within a a (omega arith)

bit_or_ge_right_within : (n a b : ℕ) → b ≤ n → b ≤ bit_or a b
bit_or_ge_right_within n a zero h = omega arith
bit_or_ge_right_within zero a (suc b) h = absurd (omega arith)
bit_or_ge_right_within (suc n) a (suc b) h =
    omega
      (arith, bit_or_digit a (suc b), bit_or_ge_right_within n (a / 2) (suc b / 2) (omega arith))

pub le-bit_or_right : (a b : ℕ) → b ≤ bit_or a b
le-bit_or_right a b = bit_or_ge_right_within b a b (omega arith)

bit_or_comm_within : (n a b : ℕ) → a ≤ n → bit_or a b ≡ bit_or b a
bit_or_comm_within n zero b h = omega (arith, bit_or-zero_left b, bit_or-zero b)
bit_or_comm_within zero (suc a) b h = absurd (omega arith)
bit_or_comm_within (suc n) (suc a) b h = omega (
  arith,
  bit_or_digit (suc a) b,
  bit_or_digit b (suc a),
  bit_or_comm_within n (suc a / 2) (b / 2) (omega arith),
)

pub bit_or_comm : (a b : ℕ) → bit_or a b ≡ bit_or b a
bit_or_comm a b = bit_or_comm_within a a b (omega arith)
