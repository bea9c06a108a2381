-- ===== src/Interrupts/Idt.antt =====
-- The interrupt descriptor table of kernel/core/interrupts.c: `idt_set_gate` and `idt_init`.
use cellkernelqwen.Prelude.{ℕ, zero, suc, ◌+◌, ◌-◌, ◌*◌, List, replicate, set, bit_and, ◌>>>◌}

abbrev pub idt_entries : ℕ
idt_entries = 256

-- `idt_entry_t`.
pub record Gate : Type 0 where
  pub offset_low : ℕ
  pub selector : ℕ
  pub ist : ℕ
  pub type_attr : ℕ
  pub offset_mid : ℕ
  pub offset_high : ℕ
  pub reserved : ℕ

abbrev pub zero_gate : Gate
zero_gate = record {
  offset_low = 0;
  selector = 0;
  ist = 0;
  type_attr = 0;
  offset_mid = 0;
  offset_high = 0;
  reserved = 0;
}

unfoldable pub new_gate : ℕ → ℕ → ℕ → Gate
new_gate handler selector type_attr = record {
  offset_low = bit_and handler 0xFFFF;
  selector = selector;
  ist = 0;
  type_attr = type_attr;
  offset_mid = bit_and (handler >>> 16) 0xFFFF;
  offset_high = bit_and (handler >>> 32) 0xFFFFFFFF;
  reserved = 0;
}

unfoldable pub idt_set_gate : ℕ → ℕ → ℕ → ℕ → List Gate → List Gate
idt_set_gate num handler selector type_attr idt = set idt num (new_gate handler selector type_attr)

-- The gates `first` to `first + n - 1`, written one after the other for the handlers of a list that
-- starts at `first`: EXCEPTION_GATE from 0 on and IRQ_GATE from 32 on.
unfoldable pub set_gates : ℕ → ℕ → (ℕ → ℕ) → List Gate → List Gate
set_gates first zero handler idt = idt
set_gates first (suc n) handler idt =
    idt_set_gate (first + n) (handler n) 0x08 0x8E (set_gates first n handler idt)

-- The table after `idt_init`, with the addresses of the handlers of the assembly, `exception` in the
-- order of the gates 0 to 20 and `irq` for the 16 requests.
unfoldable pub idt_init : (ℕ → ℕ) → (ℕ → ℕ) → List Gate
idt_init exception irq =
    set_gates 32 16 irq (set_gates 0 21 exception (replicate idt_entries zero_gate))

-- `g_idt_ptr`, for the address of the table.
pub record Pointer : Type 0 where
  pub limit : ℕ
  pub base : ℕ

unfoldable pub idt_pointer : ℕ → Pointer
idt_pointer address = record { limit = idt_entries * 16 - 1; base = address }
