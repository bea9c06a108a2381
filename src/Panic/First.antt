-- ===== src/Panic/First.antt =====
-- What stays of a panic in kernel/core/panic.c when faults call kernel_panic again.
use mathlib.Core.Path.{subst}
use cellkernelqwen.Prelude.{
  ℕ, ◌≡◌, inl, inr, refl, sym, ap, ◌∙◌, if◌then◌else◌, true, false, List, [], ◌∷◌, ◌++◌, append-nil,
  length, get_or, ltb,
}
use cellkernelqwen.Kernel.Console.{Event}
use cellkernelqwen.Panic.Dump.{save_crash_dump}
use cellkernelqwen.Panic.Message.{byte_of, copy_message_lem}
use cellkernelqwen.Panic.Report.{
  Panic, Call, show, saves, report_steps, perform, step, print_opening, print_rest, kernel_panic,
}
use cellkernelqwen.Panic.Steps.{
  Move, tick, move, run, dump_of, Reaches, halted, kernel_panic-Reaches,
}
use cellkernelqwen.Panic.Kept.{
  IsKept, IsFirst, events-prints, Fits-prints, IsCalled, IsCalled-run, IsCalled-IsKept,
}

module _ (c : Call) (s : Panic) where
  -- The call has tested the flag and set it.
  abbrev pub flag_set : Panic
  flag_set = move tick (move tick (kernel_panic c s))

  flag_set-IsFirst :
      s.in_panic ≡ false
      → IsFirst c s.crash_dump s.log (report_steps c) (record {
        in_panic = true;
        crash_dump = s.crash_dump;
        log = s.log;
        left = report_steps c;
      })
  flag_set-IsFirst calm = record {
    here = refl;
    flagged = refl;
    dump = inl refl;
    done = [];
    printed = sym (append-nil s.log);
    part =
        events-prints c s.crash_dump s.log (print_opening c.msg) (saves c ++ (show c.memory ∷ []))
        ∙ ap (λ (t : List Event). print_opening c.msg ++ t)
            (append-nil (print_rest (dump_of c) c.memory));
    fits =
        Fits-prints c s.crash_dump s.log (print_opening c.msg) (saves c ++ (show c.memory ∷ []))
          s.crash_dump (inr (inl refl), (inr (inr (inl refl)), (inr (inr (inr refl)), (refl, tt))));
  }

  flag_set_lem :
      s.in_panic ≡ false
      → flag_set
        ≡ record { in_panic = true; crash_dump = s.crash_dump; log = s.log; left = report_steps c }
  unfolding step perform kernel_panic
  flag_set_lem calm = rw calm refl

-- A panic with no panic before it: without a fault it prints its whole report, saves its dump and halts.
-- The dump has 256 bytes of message, at most 255 of them those of the message and zeros after them.
-- Whatever steps and faults, each of which calls kernel_panic again and is never left, come once it has
-- set the flag: the dump is that of before, or that of this call, cleared, filled or with its message,
-- and what was printed is a part of its report followed by parts of the line on recursion.
pub kernel_panic_first :
    (c : Call) (s : Panic) (ms : List Move)
    → s.in_panic ≡ false
    → Reaches (kernel_panic c s) (halted c s.log)
      × (length (dump_of c).message ≡ 256)
      × ((i : ℕ) → get_or (dump_of c).message i 0 ≡ (if ltb i 255 then byte_of c.msg i else 0))
      × IsKept c s.crash_dump s.log (run ms (flag_set c s))
unfolding save_crash_dump
kernel_panic_first c s ms calm =
    let (size, bytes) = copy_message_lem c.msg in
    (
      kernel_panic-Reaches c s calm,
      size,
      bytes,
      IsCalled-IsKept c s.crash_dump s.log _ (
          IsCalled-run c s.crash_dump s.log ms (flag_set c s) (
            subst (λ (t : Panic). IsCalled c s.crash_dump s.log t) (sym (flag_set_lem c s calm))
              (inl (report_steps c, flag_set-IsFirst c s calm)))),
    )
