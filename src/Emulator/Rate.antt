-- ===== src/Emulator/Rate.antt =====
-- How often the IRQs of a run come, as long as the counter of cycles has not overflown.
use ben_eater.Common.{
  ℕ, ◌+◌, ◌*◌, ◌-◌, ◌%◌, ◌^◌, ◌<◌, ◌≤◌, ◌≡◌, ◌⊎◌, refl, Option, List, Text, leb, arith, inl, inr,
  Bool-cases,
}
use ben_eater.Bus.{Machine}
use ben_eater.Inspect.{Cpu}
use ben_eater.Emulator.{Core, Round, State}
use ben_eater.Emulator.Execute.{since_irq, exec_instruction, trigger_irq, counted}
use ben_eater.Emulator.Invariant.{KeptRun}
use ben_eater.Emulator.Loop.{run_emulator_loop}
use ben_eater.Emulator.Paused.{SameProgram}
use ben_eater.Emulator.Program.{Clocks, clocks}
use ben_eater.Emulator.Program.Run.{run_emulator_loop-kept}

-- How the clocks stand where an instruction takes `longest` cycles at most.
pub record Paced (longest irq_interval : ℕ) (c : Clocks) : Type 0 where
  pub covered : c.total_cycles ≤ longest * c.loop_cnt
  pub past : c.last_irq ≤ c.total_cycles
  pub due : c.total_cycles < c.last_irq + irq_interval
  pub soonest : c.irq_count * irq_interval ≤ c.last_irq
  pub latest : c.last_irq ≤ c.irq_count * (irq_interval + longest)

-- The core takes `longest` cycles at most for an instruction.
abbrev pub AtMost : ℕ → Core → Type 0
AtMost longest core = (cpu : Cpu) (m : Machine) → (core.exec6502 cpu m).2 ≤ longest

-- Either that, or the rounds have been so many that the counter may have overflown.
abbrev pub WhilePaced : ℕ → ℕ → Clocks → Type 0
WhilePaced longest irq_interval c = (2 ^ 32 ≤ longest * c.loop_cnt) ⊎ Paced longest irq_interval c

-- After an instruction of `ticks` cycles, where `total_cycles` is the counter then.
module _ (longest irq_interval ticks total_cycles : ℕ) (c : Clocks) (short : ticks ≤ longest)
    (fits : longest * (c.loop_cnt + 1) < 2 ^ 32) (p : Paced longest irq_interval c)
    (counts : total_cycles ≡ (c.total_cycles + ticks) % 2 ^ 32) where
  triggered-Paced :
      irq_interval ≤ (total_cycles + 2 ^ 32 - c.last_irq) % 2 ^ 32
      → 0 < irq_interval
      → Paced longest irq_interval (record {
        total_cycles = total_cycles;
        last_irq = total_cycles;
        irq_count = c.irq_count + 1;
        loop_cnt = c.loop_cnt + 1;
      })
  triggered-Paced over positive = record {
    covered = omega (arith, p.covered);
    past = omega arith;
    due = omega arith;
    soonest = omega (arith, p.soonest, p.covered, p.past);
    latest = omega (arith, p.latest, p.due, p.covered);
  }

  waiting-Paced :
      (total_cycles + 2 ^ 32 - c.last_irq) % 2 ^ 32 < irq_interval
      → Paced longest irq_interval (record {
        total_cycles = total_cycles;
        last_irq = c.last_irq;
        irq_count = c.irq_count;
        loop_cnt = c.loop_cnt + 1;
      })
  waiting-Paced under = record {
    covered = omega (arith, p.covered);
    past = omega (arith, p.past, p.covered);
    due = omega (arith, p.past, p.covered);
    soonest = p.soonest;
    latest = p.latest;
  }

module _ (core : Core) (longest irq_interval : ℕ) (short : AtMost longest core)
    (positive : 0 < irq_interval) where
  stepped-Paced :
      (s t : State)
      → longest * (s.loop_cnt + 1) < 2 ^ 32
      → Paced longest irq_interval (clocks s)
      → SameProgram (exec_instruction core s) t
      → Paced longest irq_interval (clocks (counted (trigger_irq core irq_interval t)))
  unfolding exec_instruction trigger_irq
  stepped-Paced s t fits p (memory, (cpu, lcd, total, last, count, loops, broken, calls, symbols)) =
      let ticks = (core.exec6502 s.cpu s.machine).2 in
      elim (Bool-cases (leb irq_interval (since_irq t))) [
        | inl e ↦ simp e (
            simp (count, loops)
              (triggered-Paced longest irq_interval ticks t.total_cycles (clocks s)
                (short s.cpu s.machine) fits p total (ground (arith, rw last at e)) positive))
        | inr e ↦ simp e (
            simp (last, count, loops)
              (waiting-Paced longest irq_interval ticks t.total_cycles (clocks s)
                (short s.cpu s.machine) fits p total (ground (arith, rw last at e))))
      ]

  trigger_irq-counts : (t : State) → (trigger_irq core irq_interval t).loop_cnt ≡ t.loop_cnt
  unfolding trigger_irq
  trigger_irq-counts t = elim (Bool-cases (leb irq_interval (since_irq t))) [
    | inl e ↦ simp e refl
    | inr e ↦ simp e refl
  ]

  overflown :
      (s t : State)
      → 2 ^ 32 ≤ longest * (s.loop_cnt + 1)
      → t.loop_cnt ≡ s.loop_cnt
      → 2 ^ 32 ≤ longest * (clocks (counted (trigger_irq core irq_interval t))).loop_cnt
  overflown s t over loops = rw (trigger_irq-counts t, loops) over

  stepped-WhilePaced :
      (s t : State)
      → WhilePaced longest irq_interval (clocks s)
      → SameProgram (exec_instruction core s) t
      → WhilePaced longest irq_interval (clocks (counted (trigger_irq core irq_interval t)))
  unfolding exec_instruction
  stepped-WhilePaced s t (inl over)
        (memory, (cpu, lcd, total, last, count, loops, broken, calls, symbols)) =
      inl (overflown s t (omega (arith, over)) loops)
  stepped-WhilePaced s t (inr p) same =
      elim (Bool-cases (leb (2 ^ 32) (longest * (s.loop_cnt + 1)))) [
        | inl e ↦
            let (memory, (cpu, lcd, total, last, count, loops, broken, calls, symbols)) = same in
            inl (overflown s t (ground (arith, e)) loops)
        | inr e ↦ inr (stepped-Paced s t (ground (arith, e)) p same)
      ]

paused-WhilePaced :
    (longest irq_interval : ℕ) (s t : State)
    → WhilePaced longest irq_interval (clocks s)
    → t.total_cycles ≡ s.total_cycles
    → t.last_irq ≡ s.last_irq
    → t.irq_count ≡ s.irq_count
    → t.loop_cnt ≡ s.loop_cnt
    → WhilePaced longest irq_interval (clocks t)
paused-WhilePaced longest irq_interval s t h total last count loops =
    rw (total, last, count, loops) h

-- Where an instruction takes `longest` cycles at most and the interval is not zero, behind every
-- number of rounds and at the end of a run either the rounds, at `longest` cycles each, reach 2^32,
-- or: the counter of cycles is at most `longest` for each round and has not fallen behind the last
-- IRQ, which is less than an interval ago, and the last IRQ came no earlier than the number of IRQs
-- times the interval and no later than that number times the interval and `longest` together. So the
-- IRQs are neither too many nor too few, wherever the run stays within the arrays of the program.
pub run_emulator_loop-Paced :
    (core : Core) (files : Text → Option Text) (irq_interval : ℕ) (list_file : Option Text)
    (rs : List Round) (s : State) (longest : ℕ)
    → AtMost longest core
    → 0 < irq_interval
    → KeptRun
        (λ t. WhilePaced longest irq_interval (clocks t))
        (run_emulator_loop core files irq_interval list_file rs s)
run_emulator_loop-Paced core files irq_interval list_file rs s longest short positive =
    run_emulator_loop-kept (λ cpu machine. WhilePaced longest irq_interval) core files irq_interval
      list_file rs s (λ key cpu machine c h. h)
      (stepped-WhilePaced core longest irq_interval short positive)
      (λ s t h (memory, (cpu, lcd, total, last, count, loops, broken, calls, symbols)).
        paused-WhilePaced longest irq_interval s t h total last count loops)
      (inr (record {
        covered = omega arith;
        past = omega arith;
        due = omega arith;
        soonest = omega arith;
        latest = omega arith;
      }))
