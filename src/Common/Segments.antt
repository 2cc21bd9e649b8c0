-- ===== src/Common/Segments.antt =====
-- Stretches of an array: reading one, and overwriting one (`memcpy` and `memmove`).
use Prim.Native.Nat.{ℕ, zero, suc, ◌+◌, ◌-◌, ◌≤◌, min}
use mathlib.Core.Path.{◌≡◌, refl, sym, ap, ◌∙◌}
use mathlib.Core.List.{List, [], ◌∷◌, ◌++◌, append_assoc}
use native.Mathlib.Omega.{arith}
use uhp_sql.Common.Lists.{
  length, take, drop, replicate, length-append, length-take, length-drop, length-replicate,
  take-append_le, drop-append_le, take-append_length, drop-append_length, drop-drop, take-take,
  take-nil, take_of_length-le,
}

module _ {ℓ} {A : Type ℓ} where
  -- The `k` elements from index `r` on.
  abbrev pub segment : ℕ → ℕ → List A → List A
  segment r k s = take k (drop r s)

  -- The array with the elements from index `i` on replaced by `d`.
  abbrev pub overwrite : ℕ → List A → List A → List A
  overwrite i d s = take i s ++ (d ++ drop (i + length d) s)

  pub drop-take : (n m : ℕ) (s : List A) → drop n (take m s) ≡ take (m - n) (drop n s)
  drop-take zero m s = ap (λ k. take k s) (omega arith)
  drop-take (suc n) zero s = let e : zero - suc n ≡ 0 = omega arith in rw e refl
  drop-take (suc n) (suc m) [] = sym (take-nil (suc m - suc n))
  drop-take (suc n) (suc m) (x ∷ s) =
      let e : suc m - suc n ≡ m - n = omega arith in rw e (drop-take n m s)

  pub length-segment : (r k : ℕ) (s : List A) → r + k ≤ length s → length (segment r k s) ≡ k
  length-segment r k s h = omega (arith, length-take k (drop r s), length-drop r s)

  pub segment-append :
      (r k : ℕ) (s z : List A) → r + k ≤ length s → segment r k (s ++ z) ≡ segment r k s
  segment-append r k s z h =
      ap (take k) (drop-append_le r s z (omega arith))
      ∙ take-append_le k (drop r s) z (omega (arith, length-drop r s))

  pub take-segment : (n r k : ℕ) (s : List A) → take n (segment r k s) ≡ segment r (min n k) s
  take-segment n r k s = take-take n k (drop r s)

  pub drop-segment : (n r k : ℕ) (s : List A) → drop n (segment r k s) ≡ segment (r + n) (k - n) s
  drop-segment n r k s = drop-take n k (drop r s) ∙ ap (take (k - n)) (drop-drop n r s)

  pub length-overwrite :
      (i : ℕ) (d s : List A) → i + length d ≤ length s → length (overwrite i d s) ≡ length s
  length-overwrite i d s h = omega (
    arith,
    length-append (take i s) (d ++ drop (i + length d) s),
    length-append d (drop (i + length d) s),
    length-take i s,
    length-drop (i + length d) s,
  )

  -- A stretch that ends where the new elements begin is extended by them.
  pub segment-overwrite_end :
      (r w : ℕ) (d s : List A)
      → r ≤ w
      → w + length d ≤ length s
      → segment r (w - r + length d) (overwrite w d s) ≡ segment r (w - r) s ++ d
  segment-overwrite_end r w d s hr hw =
      let front : length (take w s) ≡ w = omega (arith, length-take w s) in
      let old : length (take (w - r) (drop r s) ++ d) ≡ w - r + length d = omega (
        arith,
        length-append (take (w - r) (drop r s)) d,
        length-take (w - r) (drop r s),
        length-drop r s,
      ) in
      rw (
        drop-append_le r (take w s) (d ++ drop (w + length d) s) (omega arith),
        drop-take r w s,
        ← append_assoc (take (w - r) (drop r s)) d (drop (w + length d) s),
        ← old,
        take-append_length (take (w - r) (drop r s) ++ d) (drop (w + length d) s),
      )

  -- A stretch before the new elements is kept.
  pub segment-overwrite_before :
      (r k i : ℕ) (d s : List A)
      → r + k ≤ i
      → i ≤ length s
      → segment r k (overwrite i d s) ≡ segment r k s
  segment-overwrite_before r k i d s h hi =
      let front : length (take i s) ≡ i = omega (arith, length-take i s) in
      segment-append r k (take i s) (d ++ drop (i + length d) s) (omega arith)
      ∙ rw (drop-take r i s, take-take k (i - r) (drop r s))
          (ap (λ n. take n (drop r s)) (omega arith))

  -- A stretch behind the new elements is kept.
  pub segment-overwrite_behind :
      (r k i : ℕ) (d s : List A)
      → i + length d ≤ r
      → i + length d ≤ length s
      → segment r k (overwrite i d s) ≡ segment r k s
  segment-overwrite_behind r k i d s h hs = ap (take k) behind
    where
      front : length (take i s ++ d) ≡ i + length d
      front = omega (arith, length-append (take i s) d, length-take i s)

      behind : drop r (overwrite i d s) ≡ drop r s
      behind =
          let e : r ≡ length (take i s ++ d) + (r - (i + length d)) = omega (arith, front) in
          ap (λ n. drop n (overwrite i d s)) e
          ∙ sym (drop-drop (r - (i + length d)) (length (take i s ++ d)) (overwrite i d s))
          ∙ rw (← append_assoc (take i s) d (drop (i + length d) s)) (
              rw (drop-append_length (take i s ++ d) (drop (i + length d) s)) (
                drop-drop (r - (i + length d)) (i + length d) s ∙ ap (λ n. drop n s) (omega arith)))

  -- `std::vector::resize` with the value `z` for new elements.
  abbrev pub resize : ℕ → A → List A → List A
  resize n z s = take n s ++ replicate (n - length s) z

  pub length-resize : (n : ℕ) (z : A) (s : List A) → length (resize n z s) ≡ n
  length-resize n z s = omega (
    arith,
    length-append (take n s) (replicate (n - length s) z),
    length-take n s,
    length-replicate (n - length s) z,
  )

  pub segment-resize :
      (r k n : ℕ) (z : A) (s : List A)
      → r + k ≤ length s
      → length s ≤ n
      → segment r k (resize n z s) ≡ segment r k s
  segment-resize r k n z s h hn =
      rw (take_of_length-le n s hn) (segment-append r k s (replicate (n - length s) z) h)
