-- ===== src/Emulator/Execute.antt =====
-- tools/benEater_simulator/simulator.c: what a round of the loop does to the program that runs.
use ben_eater.Common.{
  ℕ, ◌+◌, ◌-◌, ◌%◌, ◌^◌, Bool, true, false, ◌&&◌, ◌||◌, Option, some, List, [], ◌∷◌, ◌++◌, Text,
  codes, dec_text, hex2, hex4, leb, ◌==◌, if◌then◌else◌,
}
use ben_eater.Common.Chain.{◌>>=◌}
use ben_eater.Bus.{Ram}
use ben_eater.CallStack.{push_subroutine_call, pop_subroutine_call}
use ben_eater.Disasm.{disassemble_current_instruction}
use ben_eater.Inspect.{Cpu, print_cpu_state_to_stream}
use ben_eater.Keyboard.{handle_keyboard_event}
use ben_eater.Trace.{add_trace_entry}
use ben_eater.Tracer.{Tracer}
use ben_eater.Tracer.Scroll.{handle_tracer_events}
use ben_eater.Emulator.{
  Core, SdlEvent, sdl_quit, window_resized, sdl_other, key_down_event, tracer_events, Round, State,
  After, next_round, end_loop, printed, logged, with_tracer, with_trace, show_if_active,
}

-- handle_keyboard_event on the state.
abbrev pub key_pressed : ℕ → State → State
key_pressed key s =
    let (machine, out) = handle_keyboard_event key s.loop_cnt s.machine in
    printed out (record s { machine = machine })

abbrev pub is_interrupt : ℕ → Bool → Bool
is_interrupt key ctrl = key == b'c' && ctrl

-- The loop over SDL_PollEvent, and the events that it leaves in the queue.
unfoldable pub poll_events : List SdlEvent → State → State × List SdlEvent
poll_events [] s = (s, [])
poll_events (sdl_quit ∷ events) s =
    let later = poll_events events (
      printed (codes "SDL_QUIT when step_enabled is off turns on step_enabled")
        (record s { step_enabled = true })) in
    if s.step_enabled
    then (
      printed (codes "SDL_QUIT when step_enabled should break the sim loop")
          (record s { break_loop = true }),
      events,
    )
    else later
poll_events (key_down_event key ctrl ∷ events) s = elim (is_interrupt key ctrl) [
  | true ↦
      poll_events events
        (printed (codes "Ctrl+C pressed via keydown event\n") (record s { step_enabled = true }))
  | false ↦ poll_events events (key_pressed key s)
]
poll_events (window_resized ∷ events) s = poll_events events s
poll_events (sdl_other ∷ events) s = poll_events events s

-- Behind handle_tracer_events: a window that is open takes all that is in the queue, else it stays.
abbrev pub drained : List SdlEvent → State → Tracer → State
drained events s tracer = record (with_tracer tracer s) {
  queue = if s.setup.tracer.is_active then [] else events;
}

-- handle_tracer_events on what is in the queue.
unfoldable pub poll_tracer : Round → List SdlEvent → State → Option State
poll_tracer r events s = do
  tracer ← handle_tracer_events r.window_height (tracer_events events) s.setup.tracer
  some (drained events s tracer)

-- The first loop, on what is left in the queue and what has come to it.
abbrev pub polled_in : Round → State → State × List SdlEvent
polled_in r s = poll_events (s.queue ++ r.polled) s

abbrev pub magic_opcde : ℕ
magic_opcde = 0xFF

abbrev pub jsr_opcode : ℕ
jsr_opcode = 0x20

abbrev pub rts_opcode : ℕ
rts_opcode = 0x60

abbrev pub magic_text : Text
magic_text =
    codes "INFO: magic opcode 0xFF detected, terminate the simulation\n"
    ++ codes "INFO: this means the code jumps to pc where opcode is 0x00 BRK and executes \n"

-- The instruction at the PC, in text and as an opcode.
abbrev pub decoded : State → Text × ℕ
decoded s = disassemble_current_instruction s.cpu.pc s.machine.ram

abbrev pub disassembled : State → State
disassembled s = logged (decoded s).0 (if s.step_enabled then printed (decoded s).0 s else s)

-- The call stack after the decoded opcode.
unfoldable pub follow_call : ℕ → State → State
follow_call opcode_decoded s =
    if opcode_decoded == jsr_opcode
    then printed (push_subroutine_call s.symbol_list s.cpu.pc s.call_stack).1
        (record s { call_stack = (push_subroutine_call s.symbol_list s.cpu.pc s.call_stack).0 })
    else if opcode_decoded == rts_opcode
    then printed (pop_subroutine_call s.call_stack).1
        (record s { call_stack = (pop_subroutine_call s.call_stack).0 })
    else s

-- The three texts of a trace entry.
abbrev pub instruction_str : Cpu → Text
instruction_str cpu = hex4 cpu.pc ++ codes ": instruction"

abbrev pub cpu_state_str : Cpu → Text
cpu_state_str cpu =
    codes "CPU State: PC:"
    ++ hex4 cpu.pc
    ++ codes " A:"
    ++ hex2 cpu.a
    ++ codes " X:"
    ++ hex2 cpu.x
    ++ codes " Y:"
    ++ hex2 cpu.y
    ++ codes " SP:"
    ++ hex2 cpu.sp
    ++ codes " Status:"
    ++ hex2 cpu.status

abbrev pub ram_state_str : Ram → Text
ram_state_str ram =
    codes "RAM State: $0000:"
    ++ hex2 (ram 0)
    ++ codes " $0001:"
    ++ hex2 (ram 1)
    ++ codes " $0002:"
    ++ hex2 (ram 2)
    ++ codes " $0003:"
    ++ hex2 (ram 3)

unfoldable pub record_trace : State → State
record_trace s =
    if s.step_enabled || s.setup.trace.scroll_mode
    then with_trace
        (add_trace_entry (instruction_str s.cpu) (cpu_state_str s.cpu) (ram_state_str s.machine.ram)
          s.cpu.pc s.setup.trace)
        s
    else s

-- The state of the CPU, to the terminal while stepping and always to the log.
unfoldable pub report_state : State → Option State
report_state s = do
  out ← print_cpu_state_to_stream s.cpu s.monitors s.machine.ram
  some (logged out (if s.step_enabled then printed out s else s))

-- The unsigned difference of 32 bits.
abbrev pub since_irq : State → ℕ
since_irq s = (s.total_cycles + 2 ^ 32 - s.last_irq) % 2 ^ 32

abbrev pub counted : State → State
counted s = record s { loop_cnt = s.loop_cnt + 1 }

abbrev pub after_run : Option State → Option (After × State)
after_run m = m >>= λ s. some (next_round, s)

module _ (core : Core) where
  unfoldable pub exec_instruction : State → State
  exec_instruction s =
      let (cpu, machine, clockticks6502) = core.exec6502 s.cpu s.machine in
      record s {
        cpu = cpu;
        machine = machine;
        total_cycles = (s.total_cycles + clockticks6502) % 2 ^ 32;
      }

  -- `irq_interval` is the argument of the loop, of 16 bits.
  unfoldable pub trigger_irq : ℕ → State → State
  trigger_irq irq_interval s =
      if leb irq_interval (since_irq s)
      then record (printed
          (codes "Triggering IRQ at " ++ dec_text s.total_cycles ++ codes " cycles\n") s) {
            cpu = (core.irq6502 s.cpu s.machine).0;
            machine = (core.irq6502 s.cpu s.machine).1;
            last_irq = s.total_cycles;
            irq_count = s.irq_count + 1;
          }
      else s

  -- From the report to the end of the round.
  unfoldable pub end_round : ℕ → State → Option State
  end_round irq_interval s = report_state (record_trace s) >>= λ reported.
      some (counted (trigger_irq irq_interval reported))

  -- From exec6502 to the end of the round.
  unfoldable pub run_instruction : ℕ → Round → State → Option State
  run_instruction irq_interval r s =
      show_if_active r.window_height (exec_instruction s) >>= end_round irq_interval

  -- From the decoding of the instruction on.
  unfoldable pub run_decoded : ℕ → Round → State → Option (After × State)
  run_decoded irq_interval r s =
      if (decoded s).1 == magic_opcde
      then some (end_loop, logged magic_text (disassembled s))
      else after_run (run_instruction irq_interval r (follow_call (decoded s).1 (disassembled s)))

  -- The part of a round behind the debugger.
  unfoldable pub execute : ℕ → Round → State → Option (After × State)
  execute irq_interval r s =
      poll_tracer r ((polled_in r s).1 ++ r.arrived) (polled_in r s).0
      >>= run_decoded irq_interval r
