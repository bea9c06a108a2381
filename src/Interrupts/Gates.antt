-- ===== src/Interrupts/Gates.antt =====
-- The table that `idt_init` of kernel/core/interrupts.c leaves.
use cellkernelqwen.Prelude.{
  ℕ, zero, suc, ◌+◌, ◌*◌, ◌^◌, ◌<◌, ◌≤◌, ◌≡◌, ◌⊎◌, refl, ap, ◌∙◌, inl, inr, arith, List, length,
  length-set, length-replicate, get_or, get_or-set_self, get_or-set_ne, replicate, Bool-cases, ◌==◌,
  ==→eq, ==→ne, ◌>>>◌,
}
use cellkernelqwen.Prelude.Bits.{bit_and_mask}
use cellkernelqwen.Interrupts.Idt.{
  Gate, zero_gate, new_gate, idt_set_gate, set_gates, idt_init, idt_entries,
}

-- The address that the processor reads from a gate.
abbrev pub offset : Gate → ℕ
offset g = g.offset_low + g.offset_mid * 2 ^ 16 + g.offset_high * 2 ^ 32

offset-new_gate :
    (handler selector type_attr : ℕ)
    → handler < 2 ^ 64
    → offset (new_gate handler selector type_attr) ≡ handler
unfolding new_gate
offset-new_gate handler selector type_attr h =
    rw (bit_and_mask 16 handler, bit_and_mask 16 (handler >>> 16), bit_and_mask 32 (handler >>> 32))
      (omega arith)

length-set_gates :
    (first n : ℕ) (handler : ℕ → ℕ) (idt : List Gate)
    → length (set_gates first n handler idt) ≡ length idt
unfolding set_gates idt_set_gate
length-set_gates first zero handler idt = refl
length-set_gates first (suc n) handler idt =
    length-set (set_gates first n handler idt) (first + n) _ ∙ length-set_gates first n handler idt

at_set_gates :
    (first n : ℕ) (handler : ℕ → ℕ) (idt : List Gate) (k : ℕ)
    → k < n
    → first + n ≤ length idt
    → get_or (set_gates first n handler idt) (first + k) zero_gate ≡ new_gate (handler k) 0x08 0x8E
unfolding set_gates idt_set_gate
at_set_gates first zero handler idt k h fits = absurd (omega arith)
at_set_gates first (suc n) handler idt k h fits =
    let rest = set_gates first n handler idt in
    elim (Bool-cases (k == n)) [
      | inl e ↦ rw (==→eq k n e) (
          get_or-set_self rest (first + n) _ zero_gate
            (omega (arith, length-set_gates first n handler idt)))
      | inr e ↦
          get_or-set_ne rest (first + n) (first + k) _ zero_gate
            (λ z. ==→ne k n e (omega (arith, z)))
          ∙ at_set_gates first n handler idt k (grind (arith, ==→ne k n e)) (omega arith)
    ]

off_set_gates :
    (first n : ℕ) (handler : ℕ → ℕ) (idt : List Gate) (j : ℕ)
    → (j < first) ⊎ (first + n ≤ j)
    → get_or (set_gates first n handler idt) j zero_gate ≡ get_or idt j zero_gate
unfolding set_gates idt_set_gate
off_set_gates first zero handler idt j h = refl
off_set_gates first (suc n) handler idt j h =
    get_or-set_ne (set_gates first n handler idt) (first + n) j _ zero_gate
      (λ z. elim h [ inl low ↦ omega (arith, z, low) | inr high ↦ omega (arith, z, high) ])
    ∙ off_set_gates first n handler idt j
        (elim h [ inl low ↦ inl low | inr high ↦ inr (omega (arith, high)) ])

zero_everywhere : (n j : ℕ) → get_or (replicate n zero_gate) j zero_gate ≡ zero_gate
zero_everywhere zero j = refl
zero_everywhere (suc n) zero = refl
zero_everywhere (suc n) (suc j) = zero_everywhere n j

-- With handlers at addresses below 2^64, the processor reads from the gates 0 to 20 after idt_init
-- the exception handlers in order and from the gates 32 to 47 the handlers of the requests 0 to 15,
-- and every other gate is zero.
pub idt_init_lem :
    (exception irq : ℕ → ℕ)
    → ((n : ℕ) → exception n < 2 ^ 64)
    → ((n : ℕ) → irq n < 2 ^ 64)
    → let idt = idt_init exception irq in
      ((n : ℕ) → n < 21 → offset (get_or idt n zero_gate) ≡ exception n)
      × ((n : ℕ) → n < 16 → offset (get_or idt (32 + n) zero_gate) ≡ irq n)
      × ((n : ℕ) → ((21 ≤ n) × (n < 32)) ⊎ (48 ≤ n) → get_or idt n zero_gate ≡ zero_gate)
unfolding idt_init
idt_init_lem exception irq he hi =
    let cleared = replicate idt_entries zero_gate in
    let full = length-replicate {A = Gate} idt_entries zero_gate in
    let low = set_gates 0 21 exception cleared in
    let size = length-set_gates 0 21 exception cleared in
    (
      λ n h.
          ap offset (
            off_set_gates 32 16 irq low n (inl (omega arith))
            ∙ ap (λ (j : ℕ). get_or low j zero_gate) {x = n} {y = 0 + n} (omega arith)
            ∙ at_set_gates 0 21 exception cleared n h (omega (arith, full)))
          ∙ offset-new_gate (exception n) 0x08 0x8E (he n),
      λ n h.
          ap offset (at_set_gates 32 16 irq low n h (omega (arith, full, size)))
          ∙ offset-new_gate (irq n) 0x08 0x8E (hi n),
      λ n h.
          off_set_gates 32 16 irq low n (elim h [ inl mid ↦ inl mid.1 | inr high ↦ inr high ])
          ∙ off_set_gates 0 21 exception cleared n
              (inr (elim h [ inl mid ↦ mid.0 | inr high ↦ omega (arith, high) ]))
          ∙ zero_everywhere idt_entries n,
    )
