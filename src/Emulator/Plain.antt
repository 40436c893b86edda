-- ===== src/Emulator/Plain.antt =====
-- The loop without its view, as a reference: no window, no history, nothing that is printed, and no
-- read outside an array. Its step follows what the comments of the program say a round does.
pub mod Debug
pub mod Poll
pub mod Rounds
pub mod Run
mod Samples
use ben_eater.Common.{
  ℕ, ◌+◌, ◌-◌, ◌%◌, ◌^◌, true, false, ◌||◌, none, some, List, [], ◌∷◌, ◌++◌, Text, leb, ◌==◌,
  if◌then◌else◌,
}
use ben_eater.Breakpoints.{is_breakpoint, handle_breakpoint_command}
use ben_eater.CallStack.{handle_up_command, push_subroutine_call, pop_subroutine_call}
use ben_eater.Inspect.{handle_write_command}
use ben_eater.Keyboard.{handle_keyboard_event}
use ben_eater.Monitors.{handle_memory_monitor_command}
use ben_eater.Emulator.{
  Core, SdlEvent, sdl_quit, window_resized, sdl_other, key_down_event, Round, After, next_round,
  go_on, end_loop,
}
use ben_eater.Emulator.Commands.{
  Letter, resume, write, up, breakpoint, monitor, letter, cut_newline,
}
use ben_eater.Emulator.Execute.{is_interrupt, magic_opcde, jsr_opcode, rts_opcode}
use ben_eater.Emulator.View.{Program}

-- The debugger: `u` sets a breakpoint and goes on, `c` and an empty line go on, and of the other
-- commands `w`, `b` and `m` change a byte or a table and ask again.
unfoldable pub plain_letter : Letter → Text → Program → After × Program
plain_letter resume input p = (go_on, record p { step_enabled = false })
plain_letter write input p =
    let ram = (handle_write_command input p.machine.ram).0 in
    (next_round, record p { machine = record p.machine { ram = ram } })
plain_letter up input p =
    elim (handle_up_command p.symbol_list p.cpu.sp p.call_stack p.breakpoints) [
      | none ↦ (go_on, p)
      | some (table, out) ↦ (go_on, record p { breakpoints = table; step_enabled = false })
    ]
plain_letter breakpoint input p =
    let table = (handle_breakpoint_command p.symbol_list input p.breakpoints).0 in
    (next_round, record p { breakpoints = table })
plain_letter monitor input p =
    let table = (handle_memory_monitor_command input p.monitors).0 in
    (next_round, record p { monitors = table })
plain_letter _ input p = (next_round, p)

abbrev pub plain_command : Text → Program → After × Program
plain_command [] p = (go_on, p)
plain_command (c ∷ rest) p = plain_letter (letter c) (c ∷ rest) p

abbrev pub plain_read : List Text → Program → After × Program
plain_read [] p = (end_loop, p)
plain_read (line ∷ lines) p = plain_command (cut_newline line) (record p { stdin = lines })

abbrev pub plain_debug : Program → After × Program
plain_debug p = plain_read p.stdin p

-- The keys go to the program, Ctrl+C and SDL_QUIT to the debugger; an SDL_QUIT that ends the loop
-- leaves what is behind it in the queue.
unfoldable pub plain_poll : List SdlEvent → Program → Program
plain_poll [] p = record p { queue = [] }
plain_poll (sdl_quit ∷ events) p =
    let later = plain_poll events (record p { step_enabled = true }) in
    if p.step_enabled then record p { break_loop = true; queue = events } else later
plain_poll (key_down_event key ctrl ∷ events) p = elim (is_interrupt key ctrl) [
  | true ↦ plain_poll events (record p { step_enabled = true })
  | false ↦
      plain_poll events (record p { machine = (handle_keyboard_event key p.loop_cnt p.machine).0 })
]
plain_poll (window_resized ∷ events) p = plain_poll events p
plain_poll (sdl_other ∷ events) p = plain_poll events p

abbrev pub plain_follow : ℕ → Program → Program
plain_follow opcode p =
    if opcode == jsr_opcode
    then record p { call_stack = (push_subroutine_call p.symbol_list p.cpu.pc p.call_stack).0 }
    else if opcode == rts_opcode
    then record p { call_stack = (pop_subroutine_call p.call_stack).0 }
    else p

-- A breakpoint brings the debugger up.
abbrev pub plain_at : Program → Program
plain_at p = if is_breakpoint p.breakpoints p.cpu.pc then record p { step_enabled = true } else p

abbrev pub plain_exec : Core → Program → Program
plain_exec core p =
    let (cpu, machine, clockticks6502) = core.exec6502 p.cpu p.machine in
    record p {
      cpu = cpu;
      machine = machine;
      total_cycles = (p.total_cycles + clockticks6502) % 2 ^ 32;
    }

-- The events of a round; what comes behind the poll stays in the queue.
abbrev pub plain_polled : Round → Program → Program
plain_polled r p =
    let q = plain_poll (p.queue ++ r.polled) p in record q { queue = q.queue ++ r.arrived }

module _ (core : Core) (irq_interval : ℕ) where
  abbrev pub plain_irq : Program → Program
  plain_irq p =
      if leb irq_interval ((p.total_cycles + 2 ^ 32 - p.last_irq) % 2 ^ 32)
      then record p {
        cpu = (core.irq6502 p.cpu p.machine).0;
        machine = (core.irq6502 p.cpu p.machine).1;
        last_irq = p.total_cycles;
        irq_count = p.irq_count + 1;
      }
      else p

  abbrev pub plain_step : Program → Program
  plain_step p = let q = plain_irq (plain_exec core p) in record q { loop_cnt = q.loop_cnt + 1 }

  -- An instruction, or the end at the magic opcode.
  abbrev pub plain_decoded : Program → After × Program
  plain_decoded p =
      let opcode = p.machine.ram p.cpu.pc in
      if opcode == magic_opcde
      then (end_loop, p)
      else (next_round, plain_step (plain_follow opcode p))

  abbrev pub plain_execute : Round → Program → After × Program
  plain_execute r p = plain_decoded (plain_polled r p)

  abbrev pub plain_after : Round → After × Program → After × Program
  plain_after r (next_round, p) = (next_round, p)
  plain_after r (end_loop, p) = (end_loop, p)
  plain_after r (go_on, p) = plain_execute r p

  abbrev pub plain_round : Round → Program → After × Program
  plain_round r p =
      if (plain_at p).step_enabled
      then plain_after r (plain_debug (plain_at p))
      else plain_execute r (plain_at p)

  abbrev pub plain_later : After × Program → (Program → Program) → Program
  plain_later (end_loop, p) rest = p
  plain_later (next_round, p) rest = rest p
  plain_later (go_on, p) rest = rest p

  -- The rounds, as far as the world gives them or until the loop ends.
  unfoldable pub plain_rounds : List Round → Program → Program
  plain_rounds [] p = p
  plain_rounds (r ∷ rs) p =
      if p.break_loop || r.quit_flag then p else plain_later (plain_round r p) (plain_rounds rs)
