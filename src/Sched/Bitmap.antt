-- ===== src/Sched/Bitmap.antt =====
-- The bitmap of the five queues, checked over its 32 values, for kernel/core/scheduling.c.
use cellkernelqwen.Prelude.{
  ℕ, zero, suc, ◌-◌, ◌/◌, ◌%◌, ◌^◌, ◌<◌, ◌≡◌, ◌≢◌, refl, sym, ap, ◌∙◌, inl, inr, arith, Bool, true,
  false, ◌&&◌, ◌||◌, Bool-cases, ◌==◌, ==→eq, ==→ne, ne→==, ltb, ltb→lt, if◌then◌else◌, ◌<<<◌,
  bit_and, bit_or, bit_xor,
}
use mathlib.Core.Bool.{true≢false}
use mathlib.Core.Path.{subst}
use cellkernelqwen.Sched.Queue.{clz}

unfoldable all_below : ℕ → (ℕ → Bool) → Bool
all_below zero f = true
all_below (suc n) f = f n && all_below n f

and-true : (a b : Bool) → (a && b) ≡ true → (a ≡ true) × (b ≡ true)
and-true true b h = (refl, h)
and-true false b h = absurd (true≢false (sym h))

all_below_lem : (n : ℕ) (f : ℕ → Bool) → all_below n f ≡ true → (i : ℕ) → i < n → f i ≡ true
unfolding all_below
all_below_lem zero f h i short = absurd (omega arith)
all_below_lem (suc n) f h i short =
    let (here, rest) = and-true (f n) (all_below n f) h in
    elim (Bool-cases (i == n)) [
      | inl e ↦ ap f (==→eq i n e) ∙ here
      | inr e ↦ all_below_lem n f rest i (grind (arith, ==→ne i n e))
    ]

-- Bit `p` of a bitmap.
abbrev pub bit : ℕ → ℕ → ℕ
bit p bits = bits / 2 ^ p % 2

abbrev same_bits : ℕ → ℕ → ℕ → ℕ → Bool
same_bits p value old new =
    ltb new 32 && all_below 5 (λ j. bit j new == (if j == p then value else bit j old))

sets_all : all_below 5 (λ p. all_below 32 (λ b. same_bits p 1 b (bit_or b (1 <<< p)))) ≡ true
unfolding all_below
sets_all = refl

clears_all :
    all_below 5 (λ p. all_below 32 (λ b. same_bits p 0 b (bit_and b (2 ^ 64 - 1 - (1 <<< p)))))
    ≡ true
unfolding all_below
clears_all = refl

same_bits_lem :
    (p value old new : ℕ)
    → same_bits p value old new ≡ true
    → (new < 32) × ((j : ℕ) → j < 5 → bit j new ≡ (if j == p then value else bit j old))
same_bits_lem p value old new h =
    let (low, bits) = and-true (ltb new 32) _ h in
    (ltb→lt new 32 low, λ j short. ==→eq _ _ (all_below_lem 5 _ bits j short))

pub set_bit_lem :
    (p b : ℕ)
    → p < 5
    → b < 32
    → (bit_or b (1 <<< p) < 32)
      × ((j : ℕ) → j < 5 → bit j (bit_or b (1 <<< p)) ≡ (if j == p then 1 else bit j b))
set_bit_lem p b hp hb =
    same_bits_lem p 1 b (bit_or b (1 <<< p))
      (all_below_lem 32 _ (all_below_lem 5 _ sets_all p hp) b hb)

pub clear_bit_lem :
    (p b : ℕ)
    → p < 5
    → b < 32
    → (bit_and b (2 ^ 64 - 1 - (1 <<< p)) < 32)
      × ((j : ℕ)
          → j < 5
          → bit j (bit_and b (2 ^ 64 - 1 - (1 <<< p))) ≡ (if j == p then 0 else bit j b))
clear_bit_lem p b hp hb =
    same_bits_lem p 0 b (bit_and b (2 ^ 64 - 1 - (1 <<< p)))
      (all_below_lem 32 _ (all_below_lem 5 _ clears_all p hp) b hb)

-- The highest of the five bits, by the test of each from the top.
abbrev pub top_bit : ℕ → ℕ
top_bit b =
    if bit 4 b == 1
    then 4
    else if bit 3 b == 1
    then 3
    else if bit 2 b == 1
    then 2
    else if bit 1 b == 1
    then 1
    else 0

tops_all : all_below 32 (λ b. (b == 0) || (bit_xor (clz 64 b) 63 == top_bit b)) ≡ true
unfolding all_below clz
tops_all = refl

pub clz_lem : (b : ℕ) → b < 32 → b ≢ 0 → bit_xor (clz 64 b) 63 ≡ top_bit b
clz_lem b h some =
    let checked = all_below_lem 32 _ tops_all b h in
    ==→eq _ _ (
      subst (λ (t : Bool). (t || (bit_xor (clz 64 b) 63 == top_bit b)) ≡ true) (ne→== b 0 some)
        checked)

abbrev some_bit : ℕ → Bool
some_bit b =
    (bit 4 b == 1) || ((bit 3 b == 1) || ((bit 2 b == 1) || ((bit 1 b == 1) || (bit 0 b == 1))))

some_bits_all : all_below 32 (λ b. (b == 0) || some_bit b) ≡ true
unfolding all_below
some_bits_all = refl

some_bit_lem : (b : ℕ) → b < 32 → b ≢ 0 → some_bit b ≡ true
some_bit_lem b h some =
    subst (λ (t : Bool). (t || some_bit b) ≡ true) (ne→== b 0 some)
      (all_below_lem 32 _ some_bits_all b h)

-- The first of five choices whose test holds.
abbrev pub first_of : Bool → Bool → Bool → Bool → Bool → (ℕ → ℕ) → ℕ → ℕ
first_of t4 t3 t2 t1 t0 f other =
    if t4
    then f 4
    else if t3
    then f 3
    else if t2
    then f 2
    else if t1
    then f 1
    else if t0
    then f 0
    else other

first_of_some :
    (t4 t3 t2 t1 t0 : Bool) (f : ℕ → ℕ) (other : ℕ)
    → (t4 || (t3 || (t2 || (t1 || t0)))) ≡ true
    → f (if t4 then 4 else if t3 then 3 else if t2 then 2 else if t1 then 1 else 0)
      ≡ first_of t4 t3 t2 t1 t0 f other
first_of_some true t3 t2 t1 t0 f other h = refl
first_of_some false true t2 t1 t0 f other h = refl
first_of_some false false true t1 t0 f other h = refl
first_of_some false false false true t0 f other h = refl
first_of_some false false false false true f other h = refl
first_of_some false false false false false f other h = absurd (true≢false (sym h))

-- What the bitmap chooses among the five queues.
abbrev pub chosen : ℕ → (ℕ → ℕ) → ℕ → ℕ
chosen b f other =
    first_of (bit 4 b == 1) (bit 3 b == 1) (bit 2 b == 1) (bit 1 b == 1) (bit 0 b == 1) f other

pub clz-chosen :
    (b : ℕ) (f : ℕ → ℕ) (other : ℕ) → b < 32 → b ≢ 0 → f (bit_xor (clz 64 b) 63) ≡ chosen b f other
clz-chosen b f other h some =
    ap f (clz_lem b h some)
    ∙ first_of_some (bit 4 b == 1) (bit 3 b == 1) (bit 2 b == 1) (bit 1 b == 1) (bit 0 b == 1) f
        other (some_bit_lem b h some)
