-- ===== src/Interrupts/Calls.antt =====
-- Which handler `irq_handler` of kernel/core/interrupts.c calls and how it ends the interrupt.
use cellkernelqwen.Prelude.{
  ℕ, ◌+◌, ◌-◌, ◌^◌, ◌<◌, ◌≤◌, ◌≡◌, refl, sym, ap, ◌∙◌, inl, inr, arith, Bool, ◌&&◌, Option, none,
  [], ◌∷◌, length, get_or-set_self, get_or-set_ne, Bool-cases, ◌==◌, ==→eq, ==→ne, eq→==, ne→==,
  ltb, le→leb, ltb→lt, le→ltb, if◌then◌else◌, sub64,
}
use cellkernelqwen.Interrupts.Irq.{
  Handlers, end_of, end_of_interrupt, register_isr, handler_of, irq_handler,
}

not_wrapped : (v : ℕ) → 32 ≤ v → v < 2 ^ 64 → sub64 v 32 ≡ v - 32
not_wrapped v h k = omega arith

same_test :
    (vector num : ℕ)
    → 32 ≤ vector
    → vector < 2 ^ 64
    → (sub64 vector 32 == num) ≡ (vector == num + 32)
same_test vector num h k = elim (Bool-cases (vector == num + 32)) [
  | inl e ↦ eq→== (sub64 vector 32) num (omega (arith, ==→eq vector (num + 32) e)) ∙ sym e
  | inr e ↦
      ne→== (sub64 vector 32) num
        (λ z. ==→ne vector (num + 32) e (omega (arith, z, not_wrapped vector h k)))
      ∙ sym e
]

handler_of-register_isr :
    (irq num : ℕ) (handler : Option ℕ) (handlers : Handlers)
    → length handlers ≡ 32
    → handler_of irq (register_isr num handler handlers)
      ≡ (if ltb num 32 && (irq == num) then handler else handler_of irq handlers)
unfolding handler_of register_isr
handler_of-register_isr irq num handler handlers len = elim (Bool-cases (ltb num 32)) [
  | inl e ↦ rw e (elim (Bool-cases (irq == num)) [
    | inl same ↦
        rw
          (
            same,
            ==→eq irq num same,
            e,
            get_or-set_self handlers num handler none (omega (arith, ltb→lt num 32 e)),
          )
          refl
    | inr other ↦
        rw (other, get_or-set_ne handlers num irq handler none (λ z. ==→ne irq num other (sym z)))
          refl
  ])
  | inr e ↦ rw e refl
]

-- When 32 handlers are kept, for a vector from 32 on and below 2^64: after register_isr, with a
-- number below 32, the handler of request vector - 32 is the one registered if that is its number
-- and the one from before otherwise; a larger number changes nothing.
pub irq_handler-register_isr :
    (vector num : ℕ) (handler : Option ℕ) (handlers : Handlers)
    → length handlers ≡ 32
    → 32 ≤ vector
    → vector < 2 ^ 64
    → (irq_handler vector (register_isr num handler handlers)).1
      ≡ (if ltb num 32 && (vector == num + 32) then handler else (irq_handler vector handlers).1)
unfolding irq_handler
irq_handler-register_isr vector num handler handlers len h k =
    handler_of-register_isr (sub64 vector 32) num handler handlers len
    ∙ ap (λ (b : Bool). if ltb num 32 && b then handler else handler_of (sub64 vector 32) handlers)
        (same_test vector num h k)

-- An interrupt below vector 32 wraps around: both controllers are told that it ended, and no
-- handler is called.
pub irq_handler_wraps :
    (vector : ℕ) (handlers : Handlers)
    → vector < 32
    → irq_handler vector handlers ≡ (end_of 0xA0 ∷ end_of 0x20 ∷ [], none)
unfolding irq_handler end_of_interrupt handler_of
irq_handler_wraps vector handlers h =
    rw (le→leb 8 (sub64 vector 32) (omega arith), le→ltb (sub64 vector 32) 32 (omega arith)) refl
