-- ===== src/Panic/Steps.antt =====
-- kernel_panic of kernel/core/panic.c step by step, with faults that call it again.
use cellkernelqwen.Prelude.{
  ℕ, zero, suc, ◌+◌, ◌≡◌, ◌⊎◌, refl, sym, ap, ◌∙◌, Bool, true, false, List, [], ◌∷◌, ◌++◌,
  append-nil, append_assoc, replicate, arith,
}
use cellkernelqwen.Kernel.Console.{Event, recursive_panic, serial_println}
use cellkernelqwen.Panic.Dump.{CrashDump, message_size, zero_dump, save_crash_dump}
use cellkernelqwen.Panic.Report.{
  Panic, Call, Action, show, prints, saves, report_steps, perform, step, print_opening, print_rest,
  kernel_panic,
}

-- The innermost call takes a step, or a fault in it calls kernel_panic.
pub data Move : Type 0 where
  tick : Move
  fault : Call → Move

abbrev pub move : Move → Panic → Panic
move tick s = step s.left s
move (fault c) s = kernel_panic c s

abbrev pub run : List Move → Panic → Panic
run [] s = s
run (m ∷ ms) s = run ms (move m s)

-- Steps without a fault.
abbrev pub ticks : ℕ → Panic → Panic
ticks zero s = s
ticks (suc n) s = ticks n (step s.left s)

abbrev pub dump_of : Call → CrashDump
dump_of c = save_crash_dump c.cpu c.msg 0

-- What a call prints from the setting of the flag on.
abbrev pub report_of : Call → List Event
report_of c = print_opening c.msg ++ print_rest (dump_of c) c.memory

abbrev pub IsPrefix : List Event → List Event → Type 0
IsPrefix xs ys = (rest : List Event) × (xs ++ rest ≡ ys)

-- Pieces of the line on recursion, the last first.
abbrev pub joined : List (List Event) → List Event
joined [] = []
joined (p ∷ ps) = joined ps ++ p

abbrev pub ArePieces : List (List Event) → Type 0
ArePieces [] = Unit {0}
ArePieces (p ∷ ps) = IsPrefix p (serial_println recursive_panic) × ArePieces ps

-- The dump of before, or that of the call in one of its three states.
abbrev pub IsPart : Call → CrashDump → CrashDump → Type 0
IsPart c before d =
    (d ≡ before)
    ⊎ ((d ≡ zero_dump)
        ⊎ ((d ≡ record (dump_of c) { message = replicate message_size 0 }) ⊎ (d ≡ dump_of c)))

ticks-prints :
    (evs : List Event) (rest : List Action) (b : Bool) (d : CrashDump) (log : List Event)
    → (n : ℕ) × (ticks n
          (record { in_panic = b; crash_dump = d; log = log; left = prints evs ++ rest })
        ≡ record { in_panic = b; crash_dump = d; log = log ++ evs; left = rest })
unfolding step perform
ticks-prints [] rest b d log = (
  0,
  ap (λ (t : List Event). record { in_panic = b; crash_dump = d; log = t; left = rest })
      (sym (append-nil log)),
)
ticks-prints (e ∷ evs) rest b d log =
    let (n, h) = ticks-prints evs rest b d (log ++ (e ∷ [])) in
    (
      suc n,
      h
          ∙ ap (λ (t : List Event). record { in_panic = b; crash_dump = d; log = t; left = rest })
              (append_assoc log (e ∷ []) evs),
    )

ticks-add : (m n : ℕ) (s : Panic) → ticks (m + n) s ≡ ticks n (ticks m s)
ticks-add zero n s = ap (λ (k : ℕ). ticks k s) {x = zero + n} {y = n} (omega arith)
ticks-add (suc m) n s =
    ap (λ (k : ℕ). ticks k s) {x = suc m + n} {y = suc (m + n)} (omega arith)
    ∙ ticks-add m n (step s.left s)

abbrev pub Reaches : Panic → Panic → Type 0
Reaches s r = (n : ℕ) × (ticks n s ≡ r)

Reaches-trans : {s t r : Panic} → Reaches s t → Reaches t r → Reaches s r
Reaches-trans {s = s} (m, e) (n, e') = (m + n, ticks-add m n s ∙ ap (ticks n) e ∙ e')

-- The state in which a call of kernel_panic that no fault meets halts.
abbrev pub halted : Call → List Event → Panic
halted c log = record {
  in_panic = true;
  crash_dump = dump_of c;
  log = log ++ report_of c;
  left = [];
}

dump_steps :
    (c : Call) (d : CrashDump) (log : List Event)
    → Reaches
        (record {
          in_panic = true;
          crash_dump = d;
          log = log;
          left = saves c ++ (show c.memory ∷ []);
        })
        (record {
          in_panic = true;
          crash_dump = dump_of c;
          log = log;
          left = prints (print_rest (dump_of c) c.memory) ++ [];
        })
unfolding step perform
dump_steps c d log = (4, refl)

flag_steps :
    (c : Call) (s : Panic)
    → s.in_panic ≡ false
    → Reaches
        (kernel_panic c s)
        (record { in_panic = true; crash_dump = s.crash_dump; log = s.log; left = report_steps c })
unfolding step perform kernel_panic
flag_steps c s e = (2, rw e refl)

pub kernel_panic-Reaches :
    (c : Call) (s : Panic) → s.in_panic ≡ false → Reaches (kernel_panic c s) (halted c s.log)
kernel_panic-Reaches c s e =
    let opening = print_opening c.msg in
    let last = print_rest (dump_of c) c.memory in
    let before = ticks-prints opening (saves c ++ (show c.memory ∷ [])) true s.crash_dump s.log in
    let (n, after) = ticks-prints last [] true (dump_of c) (s.log ++ opening) in
    Reaches-trans (flag_steps c s e) (
      Reaches-trans before (
        Reaches-trans (dump_steps c s.crash_dump (s.log ++ opening)) (
          n,
          after
              ∙ ap
                  (λ (t : List Event). record {
                    in_panic = true;
                    crash_dump = dump_of c;
                    log = t;
                    left = [];
                  })
                  (append_assoc s.log opening last),
        )))
