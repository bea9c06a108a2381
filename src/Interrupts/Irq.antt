-- ===== src/Interrupts/Irq.antt =====
-- `irq_handler` and `register_isr` of kernel/core/interrupts.c.
use cellkernelqwen.Prelude.{
  ℕ, Option, none, List, [], ◌∷◌, get_or, set, sub64, ltb, leb, if◌then◌else◌,
}

abbrev pub isr_entries : ℕ
isr_entries = 32

-- `g_isr_handlers` by the address of each handler, `none` for NULL.
abbrev pub Handlers : Type 0
Handlers = List (Option ℕ)

unfoldable pub register_isr : ℕ → Option ℕ → Handlers → Handlers
register_isr num handler handlers =
    if ltb num isr_entries then set handlers num handler else handlers

-- A byte written to a port.
pub record Out : Type 0 where
  pub value : ℕ
  pub port : ℕ

abbrev pub end_of : ℕ → Out
end_of port = record { value = 0x20; port = port }

unfoldable pub end_of_interrupt : ℕ → List Out
end_of_interrupt irq = if leb 8 irq then end_of 0xA0 ∷ end_of 0x20 ∷ [] else end_of 0x20 ∷ []

unfoldable pub handler_of : ℕ → Handlers → Option ℕ
handler_of irq handlers = if ltb irq isr_entries then get_or handlers irq none else none

-- The bytes written for the vector of a frame, and the handler that is then called.
unfoldable pub irq_handler : ℕ → Handlers → List Out × Option ℕ
irq_handler vector handlers =
    let irq = sub64 vector 32 in (end_of_interrupt irq, handler_of irq handlers)
