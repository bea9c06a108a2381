-- ===== src/Interrupts/Tests.antt =====
-- The interrupt controller of kernel/core/interrupts.c on single vectors.
use cellkernelqwen.Prelude.{
  ℕ, ◌+◌, ◌<◌, ◌≤◌, ◌≡◌, ◌⊎◌, refl, arith, none, [], ◌∷◌, replicate, get_or,
}
use cellkernelqwen.Interrupts.Idt.{zero_gate, idt_init}
use cellkernelqwen.Interrupts.Irq.{Handlers, end_of, irq_handler, end_of_interrupt, handler_of}
use cellkernelqwen.Interrupts.Gates.{offset, idt_init_lem}

abbrev entry : ℕ → ℕ
entry n = 0xFFFFFFFF80100000

idt_init_lem_example :
    ((n : ℕ) → n < 21 → offset (get_or (idt_init entry entry) n zero_gate) ≡ entry n)
    × ((n : ℕ) → n < 16 → offset (get_or (idt_init entry entry) (32 + n) zero_gate) ≡ entry n)
    × ((n : ℕ)
        → ((21 ≤ n) × (n < 32)) ⊎ (48 ≤ n)
        → get_or (idt_init entry entry) n zero_gate ≡ zero_gate)
idt_init_lem_example = idt_init_lem entry entry (λ n. omega arith) (λ n. omega arith)

abbrev no_handlers : Handlers
no_handlers = replicate 32 none

ends_keyboard : irq_handler 33 no_handlers ≡ (end_of 0x20 ∷ [], none)
unfolding irq_handler end_of_interrupt handler_of
ends_keyboard = refl
