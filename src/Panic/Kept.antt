-- ===== src/Panic/Kept.antt =====
-- What steps and faults keep of a call of kernel_panic in kernel/core/panic.c.
use mathlib.Core.Path.{subst}
use mathlib.Core.Bool.{true≢false}
use cellkernelqwen.Prelude.{
  ◌≡◌, ◌⊎◌, inl, inr, refl, sym, ap, ◌∙◌, Bool, if◌then◌else◌, true, false, List, [], ◌∷◌, ◌++◌,
  append-nil, append_assoc,
}
use cellkernelqwen.Kernel.Console.{Event, recursive_panic, serial_println}
use cellkernelqwen.Panic.Dump.{CrashDump}
use cellkernelqwen.Panic.Report.{
  Panic, Call, Action, test, set_flag, print, save, show, prints, report_steps, perform, step,
  print_rest, kernel_panic,
}
use cellkernelqwen.Panic.Steps.{
  Move, tick, fault, move, run, dump_of, report_of, IsPrefix, joined, ArePieces, IsPart,
}

module _ (c : Call) (before : CrashDump) (old : List Event) where
  -- The flag is set, the dump is none but that of the call, and the log has a part of its report, then
  -- pieces of the line on recursion.
  pub record IsKept (s : Panic) : Type 0 where
    pub flagged : s.in_panic ≡ true
    pub dump : IsPart c before s.crash_dump
    pub done : List Event
    pub pieces : List (List Event)
    pub printed : s.log ≡ old ++ (done ++ joined pieces)
    pub part : IsPrefix done (report_of c)
    pub broken : ArePieces pieces

  -- The events that some steps print, with the dump that they report.
  abbrev pub events : List Action → List Event
  events [] = []
  events (print e ∷ acts) = e ∷ events acts
  events (show memory ∷ acts) = print_rest (dump_of c) memory ++ events acts
  events (test c' ∷ acts) = events acts
  events (set_flag ∷ acts) = events acts
  events (save d ∷ acts) = events acts

  -- The steps save only parts of the dump, report it when it is whole, and test nothing.
  abbrev pub Fits : CrashDump → List Action → Type 0
  Fits d [] = Unit {0}
  Fits d (print e ∷ acts) = Fits d acts
  Fits d (show memory ∷ acts) = (d ≡ dump_of c) × Fits d acts
  Fits d (test c' ∷ acts) = true ≡ false
  Fits d (set_flag ∷ acts) = true ≡ false
  Fits d (save d' ∷ acts) = IsPart c before d' × Fits d' acts

  -- The first call goes on.
  pub record IsFirst (acts : List Action) (s : Panic) : Type 0 where
    pub here : s.left ≡ acts
    pub flagged : s.in_panic ≡ true
    pub dump : IsPart c before s.crash_dump
    pub done : List Event
    pub printed : s.log ≡ old ++ done
    pub part : done ++ events acts ≡ report_of c
    pub fits : Fits s.crash_dump acts

  abbrev pub line : List Event
  line = serial_println recursive_panic

  -- A later call is at its test, or has printed `p` of its line.
  abbrev pub GoesOn : List Event → List Action → Type 0
  GoesOn p acts =
      ((c' : Call) × (p ≡ []) × (acts ≡ test c' ∷ []))
      ⊎ ((rest : List Event) × (p ++ rest ≡ line) × (acts ≡ prints rest))

  pub record IsLater (s : Panic) : Type 0 where
    pub flagged : s.in_panic ≡ true
    pub dump : IsPart c before s.crash_dump
    pub done : List Event
    pub p : List Event
    pub ps : List (List Event)
    pub printed : s.log ≡ old ++ (done ++ (joined ps ++ p))
    pub part : IsPrefix done (report_of c)
    pub broken : ArePieces ps
    pub goes_on : GoesOn p s.left

  pub events-prints :
      (evs : List Event) (acts : List Action) → events (prints evs ++ acts) ≡ evs ++ events acts
  events-prints [] acts = refl
  events-prints (e ∷ evs) acts = ap (λ (t : List Event). e ∷ t) (events-prints evs acts)

  pub Fits-prints :
      (evs : List Event) (acts : List Action) (d : CrashDump)
      → Fits d acts
      → Fits d (prints evs ++ acts)
  Fits-prints [] acts d h = h
  Fits-prints (e ∷ evs) acts d h = Fits-prints evs acts d h

  IsFirst-step :
      (acts : List Action) (s : Panic)
      → IsFirst acts s
      → (next : List Action) × IsFirst next (step acts s)
  unfolding step perform
  IsFirst-step [] s h = ([], h)
  IsFirst-step (print v ∷ acts) s h = (
    acts,
    record {
      here = refl;
      flagged = h.flagged;
      dump = h.dump;
      done = h.done ++ (v ∷ []);
      printed = ap (λ (t : List Event). t ++ (v ∷ [])) h.printed ∙ append_assoc old h.done (v ∷ []);
      part = append_assoc h.done (v ∷ []) (events acts) ∙ h.part;
      fits = h.fits;
    },
  )
  IsFirst-step (show memory ∷ acts) s h =
      let shown = print_rest s.crash_dump memory in
      (
        prints shown ++ acts,
        record {
          here = refl;
          flagged = h.flagged;
          dump = h.dump;
          done = h.done;
          printed = h.printed;
          part =
              ap (λ (t : List Event). h.done ++ t)
                (events-prints shown acts
                  ∙ ap (λ (d : CrashDump). print_rest d memory ++ events acts) h.fits.0)
              ∙ h.part;
          fits = Fits-prints shown acts s.crash_dump h.fits.1;
        },
      )
  IsFirst-step (test c' ∷ acts) s h = absurd (true≢false h.fits)
  IsFirst-step (set_flag ∷ acts) s h = absurd (true≢false h.fits)
  IsFirst-step (save d ∷ acts) s h = (
    acts,
    record {
      here = refl;
      flagged = h.flagged;
      dump = h.fits.0;
      done = h.done;
      printed = h.printed;
      part = h.part;
      fits = h.fits.1;
    },
  )

  -- A fault in the first call or in a later one.
  IsFirst-fault :
      (c' : Call) (acts : List Action) (s : Panic) → IsFirst acts s → IsLater (kernel_panic c' s)
  unfolding kernel_panic
  IsFirst-fault c' acts s h = record {
    flagged = h.flagged;
    dump = h.dump;
    done = h.done;
    p = [];
    ps = [];
    printed = h.printed ∙ ap (λ (t : List Event). old ++ t) (sym (append-nil h.done));
    part = (events acts, h.part);
    broken = tt;
    goes_on = inl (c', refl, refl);
  }

  piece : (p : List Event) (acts : List Action) → GoesOn p acts → IsPrefix p line
  piece p acts (inl (c', e, e')) = (line, ap (λ (t : List Event). t ++ line) e)
  piece p acts (inr (rest, e, e')) = (rest, e)

  IsLater-fault : (c' : Call) (s : Panic) → IsLater s → IsLater (kernel_panic c' s)
  unfolding kernel_panic
  IsLater-fault c' s h = record {
    flagged = h.flagged;
    dump = h.dump;
    done = h.done;
    p = [];
    ps = h.p ∷ h.ps;
    printed =
        h.printed
        ∙ ap (λ (t : List Event). old ++ (h.done ++ t)) (sym (append-nil (joined h.ps ++ h.p)));
    part = h.part;
    broken = (piece h.p s.left h.goes_on, h.broken);
    goes_on = inl (c', refl, refl);
  }

  at_test :
      (c' : Call) (s : Panic) → IsLater s → s.left ≡ test c' ∷ [] → IsLater (step (test c' ∷ []) s)
  unfolding step perform
  at_test c' s h e = record {
    flagged = h.flagged;
    dump = h.dump;
    done = h.done;
    p = [];
    ps = h.p ∷ h.ps;
    printed =
        h.printed
        ∙ ap (λ (t : List Event). old ++ (h.done ++ t)) (sym (append-nil (joined h.ps ++ h.p)));
    part = h.part;
    broken = (piece h.p s.left h.goes_on, h.broken);
    goes_on = inr (
      line,
      refl,
      ap (λ (b : Bool). if b then prints line else set_flag ∷ report_steps c') h.flagged,
    );
  }

  speaks :
      (rest : List Event) (s : Panic)
      → (h : IsLater s) → h.p ++ rest ≡ line
      → IsLater (step (prints rest) s)
  unfolding step perform
  speaks [] s h e = h
  speaks (v ∷ rest) s h e = record {
    flagged = h.flagged;
    dump = h.dump;
    done = h.done;
    p = h.p ++ (v ∷ []);
    ps = h.ps;
    printed =
        ap (λ (t : List Event). t ++ (v ∷ [])) h.printed
        ∙ append_assoc old (h.done ++ (joined h.ps ++ h.p)) (v ∷ [])
        ∙ ap (λ (t : List Event). old ++ t)
            (append_assoc h.done (joined h.ps ++ h.p) (v ∷ [])
              ∙ ap (λ (t : List Event). h.done ++ t) (append_assoc (joined h.ps) h.p (v ∷ [])));
    part = h.part;
    broken = h.broken;
    goes_on = inr (rest, append_assoc h.p (v ∷ []) rest ∙ e, refl);
  }

  IsLater-step : (s : Panic) → IsLater s → IsLater (step s.left s)
  IsLater-step s h = elim h.goes_on [
    | inl (c', e, e') ↦
        subst (λ (acts : List Action). IsLater (step acts s)) (sym e') (at_test c' s h e')
    | inr (rest, e, e') ↦
        subst (λ (acts : List Action). IsLater (step acts s)) (sym e') (speaks rest s h e)
  ]

  abbrev pub IsCalled : Panic → Type 0
  IsCalled s = ((acts : List Action) × IsFirst acts s) ⊎ IsLater s

  IsCalled-move : (m : Move) (s : Panic) → IsCalled s → IsCalled (move m s)
  IsCalled-move tick s (inl (acts, h)) =
      subst (λ (t : List Action). IsCalled (step t s)) (sym h.here) (inl (IsFirst-step acts s h))
  IsCalled-move tick s (inr h) = inr (IsLater-step s h)
  IsCalled-move (fault c') s (inl (acts, h)) = inr (IsFirst-fault c' acts s h)
  IsCalled-move (fault c') s (inr h) = inr (IsLater-fault c' s h)

  pub IsCalled-run : (ms : List Move) (s : Panic) → IsCalled s → IsCalled (run ms s)
  IsCalled-run [] s h = h
  IsCalled-run (m ∷ ms) s h = IsCalled-run ms (move m s) (IsCalled-move m s h)

  pub IsCalled-IsKept : (s : Panic) → IsCalled s → IsKept s
  IsCalled-IsKept s (inl (acts, h)) = record {
    flagged = h.flagged;
    dump = h.dump;
    done = h.done;
    pieces = [];
    printed = h.printed ∙ ap (λ (t : List Event). old ++ t) (sym (append-nil h.done));
    part = (events acts, h.part);
    broken = tt;
  }
  IsCalled-IsKept s (inr h) = record {
    flagged = h.flagged;
    dump = h.dump;
    done = h.done;
    pieces = h.p ∷ h.ps;
    printed = h.printed;
    part = h.part;
    broken = (piece h.p s.left h.goes_on, h.broken);
  }
