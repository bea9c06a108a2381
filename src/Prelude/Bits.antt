-- ===== src/Prelude/Bits.antt =====
-- `&`, `|` and `^` of C as arithmetic: a mask of low bits, disjoint fields, one bit.
mod Step
use Step.{bit_and_step, bit_or_step, bit_xor_step}
use Prim.Native.Nat.{ℕ, zero, suc, ◌+◌, ◌-◌, ◌*◌, ◌/◌, ◌%◌, ◌^◌, ◌<◌, ◌≤◌, bit_and, bit_or, bit_xor}
use mathlib.Core.Path.{◌≡◌, refl, sym, ap, ◌∙◌}
use native.Mathlib.Nat.{pow-suc, one-le-pow, div-add-mod, div-add-mod', mod-lt}
use native.Mathlib.Omega.{arith}

-- `s` bounds the number, which is halved at each step.
or_nothing : (s a : ℕ) → a ≤ s → bit_or a 0 ≡ a
or_nothing s zero h = refl
or_nothing zero (suc a) h = absurd (omega arith)
or_nothing (suc s) (suc a) h =
    omega (arith, bit_or_step (suc a) 0, or_nothing s (suc a / 2) (omega arith))

xor_nothing : (s a : ℕ) → a ≤ s → bit_xor a 0 ≡ a
xor_nothing s zero h = refl
xor_nothing zero (suc a) h = absurd (omega arith)
xor_nothing (suc s) (suc a) h =
    omega (arith, bit_xor_step (suc a) 0, xor_nothing s (suc a / 2) (omega arith))

and_nothing : (s a : ℕ) → a ≤ s → bit_and a 0 ≡ 0
and_nothing s zero h = refl
and_nothing zero (suc a) h = absurd (omega arith)
and_nothing (suc s) (suc a) h =
    omega (arith, bit_and_step (suc a) 0, and_nothing s (suc a / 2) (omega arith))

pub bit_or-zero : (a : ℕ) → bit_or a 0 ≡ a
bit_or-zero a = or_nothing a a (omega arith)

pub bit_xor-zero : (a : ℕ) → bit_xor a 0 ≡ a
bit_xor-zero a = xor_nothing a a (omega arith)

pub bit_and-zero : (a : ℕ) → bit_and a 0 ≡ 0
bit_and-zero a = and_nothing a a (omega arith)

pub pow_double : (k : ℕ) → 2 ^ suc k ≡ 2 * 2 ^ k
pow_double k = omega (arith, pow-suc 2 k)

double-pow : (q k : ℕ) → q * 2 ^ suc k ≡ 2 * (q * 2 ^ k)
double-pow q k = omega (arith, ap (λ (t : ℕ). q * t) (pow-suc 2 k))

-- A number with `r` in its `k` low bits and `q` above them.
abbrev pub above : ℕ → ℕ → ℕ → ℕ
above k q r = q * 2 ^ k + r

above_half : (k q r : ℕ) → above (suc k) q r ≡ 2 * above k q (r / 2) + r % 2
above_half k q r = omega (arith, double-pow q k)

-- `(q << k) | r` is a sum when `r` fits `k` bits.
pub bit_or-above : (k q r : ℕ) → r < 2 ^ k → bit_or (above k q 0) r ≡ above k q r
bit_or-above zero q r fits =
    let none_left : r ≡ 0 = omega arith in rw (none_left, bit_or-zero (above 0 q 0))
bit_or-above (suc k) q r fits =
    let rest = bit_or-above k q (r / 2) (omega (arith, pow_double k)) in
    ground (arith, bit_or_step (above (suc k) q 0) r, above_half k q 0, above_half k q r, rest)

low_bits-above : (k q r : ℕ) → r < 2 ^ k → bit_and (above k q r) (2 ^ k - 1) ≡ r
low_bits-above zero q r fits = rw bit_and-zero (omega arith)
low_bits-above (suc k) q r fits =
    let rest = low_bits-above k q (r / 2) (omega (arith, pow_double k)) in
    ground (
      arith,
      bit_and_step (above (suc k) q r) (2 ^ suc k - 1),
      above_half k q r,
      pow_double k,
      one-le-pow k 2,
      rest,
    )

-- A mask of `k` low bits is the remainder by `2 ^ k`.
pub bit_and_mask : (k a : ℕ) → bit_and a (2 ^ k - 1) ≡ a % 2 ^ k
bit_and_mask k a =
    ap (λ t. bit_and t (2 ^ k - 1)) (sym (div-add-mod' a (2 ^ k)))
    ∙ low_bits-above k (a / 2 ^ k) (a % 2 ^ k) (mod-lt a (one-le-pow k 2 (omega arith)))

-- A number with bit `k` set apart: `q` above it and `r` below it.
abbrev pub around_bit : ℕ → ℕ → ℕ → ℕ → ℕ
around_bit k q b r = (q * 2 + b) * 2 ^ k + r

around_bit_half : (k q b r : ℕ) → around_bit (suc k) q b r ≡ 2 * around_bit k q b (r / 2) + r % 2
around_bit_half k q b r = omega (arith, double-pow (q * 2 + b) k)

lowest_bit : (q b r : ℕ) → r < 2 ^ 0 → around_bit 0 q b r ≡ q * 2 + b
lowest_bit q b r h = omega arith

bit_xor-one : (q b : ℕ) → b < 2 → bit_xor (q * 2 + b) 1 ≡ q * 2 + (1 - b)
bit_xor-one q b h = ground (arith, bit_xor_step (q * 2 + b) 1, bit_xor-zero ((q * 2 + b) / 2))

bit_or-one : (q b : ℕ) → b < 2 → bit_or (q * 2 + b) 1 ≡ q * 2 + 1
bit_or-one q b h = ground (arith, bit_or_step (q * 2 + b) 1, bit_or-zero ((q * 2 + b) / 2))

bit_and-one : (q b : ℕ) → b < 2 → bit_and (q * 2 + b) 1 ≡ b
bit_and-one q b h = ground (arith, bit_and_step (q * 2 + b) 1, bit_and-zero ((q * 2 + b) / 2))

pub bit_xor_bit :
    (k q b r : ℕ)
    → b < 2
    → r < 2 ^ k
    → bit_xor (around_bit k q b r) (2 ^ k) ≡ around_bit k q (1 - b) r
bit_xor_bit zero q b r hb hr = rw (lowest_bit q b r hr, bit_xor-one q b hb) (omega arith)
bit_xor_bit (suc k) q b r hb hr = ground (
  arith,
  bit_xor_step (around_bit (suc k) q b r) (2 ^ suc k),
  around_bit_half k q b r,
  around_bit_half k q (1 - b) r,
  pow_double k,
  bit_xor_bit k q b (r / 2),
)

pub bit_or_bit :
    (k q b r : ℕ) → b < 2 → r < 2 ^ k → bit_or (around_bit k q b r) (2 ^ k) ≡ around_bit k q 1 r
bit_or_bit zero q b r hb hr = rw (lowest_bit q b r hr, bit_or-one q b hb) (omega arith)
bit_or_bit (suc k) q b r hb hr = ground (
  arith,
  bit_or_step (around_bit (suc k) q b r) (2 ^ suc k),
  around_bit_half k q b r,
  around_bit_half k q 1 r,
  pow_double k,
  bit_or_bit k q b (r / 2),
)

-- A mask of one bit reads that bit.
pub bit_and_bit :
    (k q b r : ℕ) → b < 2 → r < 2 ^ k → bit_and (around_bit k q b r) (2 ^ k) ≡ b * 2 ^ k
bit_and_bit zero q b r hb hr = rw (lowest_bit q b r hr, bit_and-one q b hb) (omega arith)
bit_and_bit (suc k) q b r hb hr = ground (
  arith,
  bit_and_step (around_bit (suc k) q b r) (2 ^ suc k),
  around_bit_half k q b r,
  double-pow b k,
  pow_double k,
  bit_and_bit k q b (r / 2),
)

halves : (a : ℕ) → a / 2 * 2 + a % 2 ≡ a
halves a = omega arith

-- Every number is so set apart at each bit.
pub around_bit_lem : (k a : ℕ) → around_bit k (a / 2 ^ k / 2) (a / 2 ^ k % 2) (a % 2 ^ k) ≡ a
around_bit_lem k a = ground (
  arith,
  div-add-mod (a / 2 ^ k) 2,
  div-add-mod a (2 ^ k),
  ap (λ (t : ℕ). t * 2 ^ k) (halves (a / 2 ^ k)),
)

pub pow_pos : (k : ℕ) → 0 < 2 ^ k
pow_pos k = one-le-pow k 2 (omega arith)

and_self : (s a : ℕ) → a ≤ s → bit_and a a ≡ a
and_self s zero h = refl
and_self zero (suc a) h = absurd (omega arith)
and_self (suc s) (suc a) h =
    ground (arith, bit_and_step (suc a) (suc a), and_self s (suc a / 2) (omega arith))

bit_and_siblings : (q b : ℕ) → b < 2 → bit_and (q * 2 + b) (q * 2 + (1 - b)) ≡ q * 2
bit_and_siblings q b h =
    ground (arith, bit_and_step (q * 2 + b) (q * 2 + (1 - b)), and_self q q (omega arith))

-- Two numbers that differ in bit `k` alone keep the rest.
pub bit_and_pair :
    (k q b : ℕ)
    → b < 2
    → bit_and (around_bit k q b 0) (around_bit k q (1 - b) 0) ≡ around_bit k q 0 0
bit_and_pair zero q b h =
    rw
      (lowest_bit q b 0 (omega arith), lowest_bit q (1 - b) 0 (omega arith), bit_and_siblings q b h)
      (omega arith)
bit_and_pair (suc k) q b h = ground (
  arith,
  bit_and_step (around_bit (suc k) q b 0) (around_bit (suc k) q (1 - b) 0),
  around_bit_half k q b 0,
  around_bit_half k q (1 - b) 0,
  around_bit_half k q 0 0,
  bit_and_pair k q b h,
)

plain : (q : ℕ) → above 0 q 0 ≡ q
plain q = omega arith

-- Bits above the `k` lowest of both numbers.
pub bit_and-above :
    (k a b r : ℕ) → r < 2 ^ k → bit_and (above k a r) (above k b 0) ≡ above k (bit_and a b) 0
bit_and-above zero a b r h =
    let low : r ≡ 0 = omega arith in rw (low, plain a, plain b, plain (bit_and a b)) refl
bit_and-above (suc k) a b r h = ground (
  arith,
  bit_and_step (above (suc k) a r) (above (suc k) b 0),
  above_half k a r,
  above_half k b 0,
  above_half k (bit_and a b) 0,
  pow_double k,
  bit_and-above k a b (r / 2),
)
