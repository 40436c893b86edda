-- ===== src/Emulator/Free.antt =====
-- The loop where the debugger does not come up: its rounds in the reference.
pub mod Run
mod Samples
use ben_eater.Common.{
  ℕ, ◌≡◌, refl, ◌∙◌, true, false, List, [], ◌∷◌, ◌++◌, ◌==◌, ◌-◌, ◌+◌, ◌%◌, ◌^◌, leb,
}
use ben_eater.Common.Tests.{if_both}
use ben_eater.Breakpoints.{is_breakpoint}
use ben_eater.Emulator.{
  Core, SdlEvent, sdl_quit, window_resized, sdl_other, key_down_event, Round, next_round, end_loop,
}
use ben_eater.Emulator.Execute.{is_interrupt, magic_opcde, jsr_opcode, rts_opcode}
use ben_eater.Emulator.Plain.{
  plain_poll, plain_polled, plain_follow, plain_exec, plain_step, plain_execute, plain_round,
}
use ben_eater.Emulator.View.{Program}

-- No event brings the debugger up.
abbrev pub OnlyKeys : List SdlEvent → Type 0
OnlyKeys [] = Unit
OnlyKeys (sdl_quit ∷ events) = ⊥
OnlyKeys (key_down_event key ctrl ∷ events) = (is_interrupt key ctrl ≡ false) × OnlyKeys events
OnlyKeys (window_resized ∷ events) = OnlyKeys events
OnlyKeys (sdl_other ∷ events) = OnlyKeys events

abbrev pub opcode_of : Program → ℕ
opcode_of p = p.machine.ram p.cpu.pc

abbrev pub IsFree : Program → Type 0
IsFree p = (p.step_enabled ≡ false) × (p.break_loop ≡ false)

plain_poll-IsFree :
    (events : List SdlEvent) (p : Program)
    → OnlyKeys events
    → IsFree p
    → IsFree (plain_poll events p)
unfolding plain_poll
plain_poll-IsFree [] p h free = free
plain_poll-IsFree (sdl_quit ∷ events) p h free = absurd h
plain_poll-IsFree (key_down_event key ctrl ∷ events) p (no_interrupt, h) free =
    rw (no_interrupt, plain_poll) (plain_poll-IsFree events _ h free)
plain_poll-IsFree (window_resized ∷ events) p h free = plain_poll-IsFree events p h free
plain_poll-IsFree (sdl_other ∷ events) p h free = plain_poll-IsFree events p h free

plain_follow-IsFree : (opcode : ℕ) (p : Program) → IsFree p → IsFree (plain_follow opcode p)
plain_follow-IsFree opcode p free =
    if_both IsFree (opcode == jsr_opcode) _ _ free
      (if_both IsFree (opcode == rts_opcode) _ p free free)

module _ (core : Core) (irq_interval : ℕ) where
  plain_step-IsFree : (p : Program) → IsFree p → IsFree (plain_step core irq_interval p)
  plain_step-IsFree p free =
      let q = plain_exec core p in
      if_both (λ t. IsFree (record t { loop_cnt = t.loop_cnt + 1 }))
        (leb irq_interval ((q.total_cycles + 2 ^ 32 - q.last_irq) % 2 ^ 32)) _ q free free

  -- The keys of a round, then one instruction, and the IRQ when it is due.
  abbrev pub instruction_of : Round → Program → Program
  instruction_of r p =
      let q = plain_polled r p in plain_step core irq_interval (plain_follow (opcode_of q) q)

  abbrev pub free_run : List Round → Program → Program
  free_run [] p = p
  free_run (r ∷ rs) p = free_run rs (instruction_of r p)

  -- A round finds no signal, no breakpoint and no event but keys.
  pub record IsCalm (r : Round) (p : Program) : Type 0 where
    pub no_signal : r.quit_flag ≡ false
    pub no_breakpoint : is_breakpoint p.breakpoints p.cpu.pc ≡ false
    pub only_keys : OnlyKeys (p.queue ++ r.polled)

  -- Every round is calm and meets another opcode than the magic one.
  abbrev pub RunsFreely : List Round → Program → Type 0
  RunsFreely [] p = Unit
  RunsFreely (r ∷ rs) p =
      IsCalm r p
      × ((opcode_of (plain_polled r p) == magic_opcde) ≡ false)
      × RunsFreely rs (instruction_of r p)

  pub instruction_of-IsFree :
      (r : Round) (p : Program) → IsCalm r p → IsFree p → IsFree (instruction_of r p)
  instruction_of-IsFree r p calm free = plain_step-IsFree _ (
      plain_follow-IsFree (opcode_of (plain_polled r p)) (plain_polled r p)
        (plain_poll-IsFree (p.queue ++ r.polled) p calm.only_keys free))

  plain_round-calm :
      (r : Round) (p : Program)
      → IsCalm r p
      → IsFree p
      → plain_round core irq_interval r p ≡ plain_execute core irq_interval r p
  plain_round-calm r p calm free = simp (calm.no_breakpoint, free.0) refl

  pub plain_round-instruction :
      (r : Round) (p : Program)
      → IsCalm r p
      → IsFree p
      → (opcode_of (plain_polled r p) == magic_opcde) ≡ false
      → plain_round core irq_interval r p ≡ (next_round, instruction_of r p)
  plain_round-instruction r p calm free other = plain_round-calm r p calm free ∙ rw other refl

  pub plain_round-magic :
      (r : Round) (p : Program)
      → IsCalm r p
      → IsFree p
      → (opcode_of (plain_polled r p) == magic_opcde) ≡ true
      → plain_round core irq_interval r p ≡ (end_loop, plain_polled r p)
  plain_round-magic r p calm free magic = plain_round-calm r p calm free ∙ rw magic refl
