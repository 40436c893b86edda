-- ===== src/Emulator/Timing.antt =====
-- The IRQs of a run: in time, whatever the program does and whatever is typed.
use ben_eater.Common.{
  ℕ, ◌+◌, ◌-◌, ◌%◌, ◌^◌, ◌<◌, ◌≡◌, false, Option, List, Text, leb, arith, inl, inr, Bool-cases,
}
use ben_eater.Emulator.{Core, Round, State}
use ben_eater.Emulator.Execute.{since_irq, trigger_irq}
use ben_eater.Emulator.Invariant.{KeptRun}
use ben_eater.Emulator.Loop.{run_emulator_loop}
use ben_eater.Emulator.Program.Run.{run_emulator_loop-kept}

-- The difference of 32 bits of two clocks.
abbrev InTime : ℕ → ℕ → ℕ → Type 0
InTime irq_interval total_cycles last_irq =
    (total_cycles + 2 ^ 32 - last_irq) % 2 ^ 32 < irq_interval

no_time : (irq_interval n : ℕ) → 0 < irq_interval → InTime irq_interval n n
no_time irq_interval n positive = omega arith

not_yet : (irq_interval n : ℕ) → leb irq_interval n ≡ false → n < irq_interval
not_yet irq_interval n e = ground arith

module _ (core : Core) (irq_interval : ℕ) where
  trigger_irq-InTime :
      (t : State)
      → 0 < irq_interval
      → InTime irq_interval
          (trigger_irq core irq_interval t).total_cycles
          (trigger_irq core irq_interval t).last_irq
  unfolding trigger_irq
  trigger_irq-InTime t positive = elim (Bool-cases (leb irq_interval (since_irq t))) [
    | inl e ↦ simp e (no_time irq_interval t.total_cycles positive)
    | inr e ↦ simp e (not_yet irq_interval (since_irq t) e)
  ]

unread :
    (irq_interval : ℕ) (s t : State)
    → InTime irq_interval s.total_cycles s.last_irq
    → t.total_cycles ≡ s.total_cycles
    → t.last_irq ≡ s.last_irq
    → InTime irq_interval t.total_cycles t.last_irq
unread irq_interval s t h p q = rw (p, q) h

-- Where the interval is not zero, fewer cycles than the interval have passed since the last IRQ
-- behind every round of a run, wherever the run stays within the arrays of the program: no IRQ is
-- overdue, whatever the program does, whatever is typed and over every overflow of the counter of
-- cycles.
pub run_emulator_loop-in_time :
    (core : Core) (files : Text → Option Text) (irq_interval : ℕ) (list_file : Option Text)
    (rs : List Round) (s : State)
    → 0 < irq_interval
    → KeptRun
        (λ t. since_irq t < irq_interval)
        (run_emulator_loop core files irq_interval list_file rs s)
run_emulator_loop-in_time core files irq_interval list_file rs s positive =
    run_emulator_loop-kept (λ cpu machine c. InTime irq_interval c.total_cycles c.last_irq) core
      files irq_interval list_file rs s (λ key cpu machine c h. h)
      (λ s t h same. trigger_irq-InTime core irq_interval t positive)
      (λ s t h (memory, (cpu, lcd, cycles, last, count, loops, broken, calls, symbols)).
        unread irq_interval s t h cycles last)
      (no_time irq_interval 0 positive)
