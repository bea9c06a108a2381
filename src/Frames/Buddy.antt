-- ===== src/Frames/Buddy.antt =====
-- What `get_buddy` of kernel/memory/frame_alloc.c gives for an aligned block.
use cellkernelqwen.Prelude.{
  ℕ, zero, suc, ◌+◌, ◌-◌, ◌*◌, ◌^◌, ◌≤◌, ◌<◌, ◌≡◌, sym, ap, ap₂, ◌∙◌, bit_and, arith, ◌<<<◌, ◌>>>◌,
}
use cellkernelqwen.Prelude.Bits.{around_bit, bit_xor_bit, bit_and_pair, pow_double, pow_pos}
use cellkernelqwen.Frames.Zone.{get_buddy, page_shift}
use native.Mathlib.Nat.{mul-le-mul_right, pow-le-pow_right}

-- The address of block `n` among those of `2 ^ order` pages.
abbrev pub block_at : ℕ → ℕ → ℕ
block_at order n = n * 2 ^ order * 4096

pub order_size : (order : ℕ) → order ≤ 11 → 2 ^ order ≤ 2048
order_size order h = pow-le-pow_right {n = 2} (omega arith) h

pub shift_order : (order : ℕ) → order ≤ 11 → (1 <<< order) ≡ 2 ^ order
shift_order order h = omega (arith, order_size order h)

sibling-bound : (q b size : ℕ) → b < 2 → (q * 2 + (1 - b)) * size ≤ (q * 2 + b) * size + size
sibling-bound q b size h =
    omega (arith, mul-le-mul_right {m = q * 2 + (1 - b)} {n = q * 2 + b + 1} size (omega arith))

pub buddy-block_at :
    (order q b : ℕ)
    → order ≤ 11
    → b < 2
    → (q * 2 + b) * 2 ^ order < 2 ^ 51
    → get_buddy (block_at order (q * 2 + b)) order ≡ block_at order (q * 2 + (1 - b))
unfolding get_buddy
buddy-block_at order q b hk hb fits =
    let pfn : (block_at order (q * 2 + b) >>> page_shift) ≡ around_bit order q b 0 = omega arith in
    rw (pfn, shift_order order hk, bit_xor_bit order q b 0 hb (omega (arith, pow_pos order)))
      (omega (arith, sibling-bound q b (2 ^ order) hb, order_size order hk))

pow_page : (k : ℕ) → 2 ^ (k + 12) ≡ 2 ^ k * 4096
pow_page zero = omega arith
pow_page (suc k) =
    ap (λ (t : ℕ). 2 ^ t) {x = suc k + 12} {y = suc (k + 12)} (omega arith)
    ∙ omega (arith, pow_page k, pow_double k, pow_double (k + 12))

as_bits : (order q b : ℕ) → block_at order (q * 2 + b) ≡ around_bit (order + 12) q b 0
as_bits order q b = omega (arith, ap (λ (t : ℕ). (q * 2 + b) * t) (pow_page order))

-- `page & buddy` is the block of the next order that holds both.
pub merged-block_at :
    (order q b : ℕ)
    → b < 2
    → bit_and (block_at order (q * 2 + b)) (block_at order (q * 2 + (1 - b)))
      ≡ block_at (suc order) q
merged-block_at order q b hb =
    ap₂ bit_and (as_bits order q b) (as_bits order q (1 - b))
    ∙ bit_and_pair (order + 12) q b hb
    ∙ sym (as_bits order q 0)
    ∙ omega (arith, ap (λ (t : ℕ). q * t) (pow_double order))
