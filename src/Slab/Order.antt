-- ===== src/Slab/Order.antt =====
-- The loop of `kmalloc` in kernel/memory/slab.c that looks for an order.
use native.Mathlib.Nat.{pow-le-pow_right}
use mathlib.Core.Path.{subst}
use cellkernelqwen.Prelude.Bits.{pow_double}
use cellkernelqwen.Prelude.{
  ℕ, zero, suc, ◌+◌, ◌-◌, ◌*◌, ◌^◌, ◌<◌, ◌≤◌, ◌≡◌, ◌⊎◌, refl, ap, ◌∙◌, inl, inr, arith, Bool-cases,
  none, some, ltb, ltb→lt, ◌==◌, ==→eq, ==→ne, lt→ltb, le→ltb, ltb→le, u64,
}
use cellkernelqwen.Slab.General.{order_from, order_for}

-- The number of bytes of an order, as the loop computes it.
small_order : (order : ℕ) → order ≤ 51 → u64 (2 ^ order * 4096) ≡ 2 ^ order * 4096
small_order order h = omega (arith, pow-le-pow_right {n = 2} (omega arith) h)

-- The least order whose pages hold the bytes.
abbrev pub IsLeast : ℕ → ℕ → Type 0
IsLeast bytes order = (bytes ≤ 2 ^ order * 4096) × ((k : ℕ) → k < order → 2 ^ k * 4096 < bytes)

order_from-IsLeast :
    (d rounds order bytes : ℕ)
    → order + d ≡ 51
    → d ≤ rounds
    → bytes ≤ 2 ^ 63
    → ((k : ℕ) → k < order → 2 ^ k * 4096 < bytes)
    → (found : ℕ) × (order_from (suc rounds) order bytes ≡ some found) × IsLeast bytes found
unfolding order_from
order_from-IsLeast zero rounds order bytes e fits small before =
    let last : order ≡ 51 = omega (arith, e) in
    let same = small_order order (omega (arith, last)) in
    let full : 2 ^ order * 4096 ≡ 2 ^ 63 = ap (λ (t : ℕ). 2 ^ t * 4096) last in
    rw (le→ltb (u64 (2 ^ order * 4096)) bytes (omega (arith, same, full, small)))
      (order, refl, (omega (arith, full, small), before))
order_from-IsLeast (suc d) rounds order bytes e fits small before =
    let same = small_order order (omega (arith, e)) in
    elim (Bool-cases (ltb (u64 (2 ^ order * 4096)) bytes)) [
      | inl more ↦ rw more (
          subst
            (λ (r : ℕ).
              (found : ℕ) × (order_from r (order + 1) bytes ≡ some found) × IsLeast bytes found)
            {x = suc (rounds - 1)} {y = rounds} (omega arith)
            (order_from-IsLeast d (rounds - 1) (order + 1) bytes (omega (arith, e)) (omega arith)
              small
              (λ k h. elim (Bool-cases (k == order)) [
                | inl here ↦
                    omega
                      (arith, ap (λ (t : ℕ). 2 ^ t * 4096) (==→eq _ _ here), same, ltb→lt _ _ more)
                | inr other ↦ before k (omega (arith, h, ==→ne _ _ other))
              ])))
      | inr done ↦ rw done (order, refl, (omega (arith, ltb→le _ _ done, same), before))
    ]

-- For a size of at most 2^63 - 4096 the loop of kmalloc over the orders ends, with the least order
-- whose pages hold the size and one page more.
pub order_for-IsLeast :
    (size : ℕ)
    → size + 4096 ≤ 2 ^ 63
    → (order : ℕ) × (order_for size ≡ some order) × IsLeast (size + 4096) order
unfolding order_for
order_for-IsLeast size h =
    subst
      (λ (bytes : ℕ).
        (order : ℕ) × (order_from 64 0 bytes ≡ some order) × IsLeast (size + 4096) order)
      {x = size + 4096} {y = u64 (size + 4096)} (omega arith)
      (order_from-IsLeast 51 63 0 (size + 4096) refl (omega arith) h
        (λ k z. absurd (omega (arith, z))))

pow_above : (k : ℕ) → 2 ^ (52 + k) ≡ 2 ^ 52 * 2 ^ k
pow_above zero = refl
pow_above (suc k) =
    ap (λ (t : ℕ). 2 ^ t) {x = 52 + suc k} {y = suc (52 + k)} (omega arith)
    ∙ omega (arith, pow_double (52 + k), pow_above k, pow_double k)

-- No order reaches more than 2^63 in 64 bits.
any_order : (order : ℕ) → u64 (2 ^ order * 4096) ≤ 2 ^ 63
any_order order = elim (Bool-cases (ltb 51 order)) [
  | inr small ↦
      let h : order ≤ 51 = ltb→le _ _ small in
      omega (arith, pow-le-pow_right {n = 2} (omega arith) h)
  | inl large ↦
      let h : 51 < order = ltb→lt _ _ large in
      omega (
        arith,
        ap (λ (t : ℕ). 2 ^ t) {x = order} {y = 52 + (order - 52)} (omega (arith, h)),
        pow_above (order - 52),
      )
]

endless : (rounds order bytes : ℕ) → 2 ^ 63 < bytes → order_from rounds order bytes ≡ none
unfolding order_from
endless zero order bytes h = refl
endless (suc rounds) order bytes h =
    rw (lt→ltb (u64 (2 ^ order * 4096)) bytes (omega (arith, h, any_order order)))
      (endless rounds (order + 1) bytes h)

one_page : (bytes : ℕ) → bytes ≤ 4096 → order_from 64 0 bytes ≡ some 0
unfolding order_from
one_page bytes h = rw (le→ltb 4096 bytes h) refl

-- For a size over 2^63 - 4096 of 64 bits: when the size and one page more still fit 64 bits, the
-- loop of kmalloc passes every order, and otherwise the sum wraps and the order is 0, a single page.
pub order_for-large :
    (size : ℕ)
    → 2 ^ 63 < size + 4096
    → size < 2 ^ 64
    → ((size + 4096 < 2 ^ 64) × (order_for size ≡ none))
      ⊎ ((2 ^ 64 ≤ size + 4096) × (order_for size ≡ some 0))
unfolding order_for
order_for-large size big fits = elim (Bool-cases (ltb (size + 4096) (2 ^ 64))) [
  | inl e ↦
      let h : size + 4096 < 2 ^ 64 = ltb→lt _ _ e in
      inl (h, endless 64 0 (u64 (size + 4096)) (omega (arith, h, big)))
  | inr e ↦
      let h : 2 ^ 64 ≤ size + 4096 = ltb→le _ _ e in
      inr (h, one_page (u64 (size + 4096)) (omega (arith, h, fits)))
]
