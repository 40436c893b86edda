-- ===== src/CallStack.antt =====
-- tools/benEater_simulator/simulator.c: the debugger's stack of subroutine calls.
pub mod Frames
mod Samples
use ben_eater.Common.{
  ℕ, suc, zero, ◌+◌, ◌-◌, ◌%◌, ◌^◌, Option, none, some, List, [], ◌∷◌, ◌++◌, Text, codes, hex4,
  dec_text, take, leb, ◌==◌, if◌then◌else◌,
}
use ben_eater.Common.Array.{update, window}
use ben_eater.Symbols.{SymbolEntry, find_closest_symbol}
use ben_eater.Breakpoints.{Breakpoints, add_breakpoint}

abbrev pub max_call_stack : ℕ
max_call_stack = 50

pub record Subroutine : Type 0 where
  pub address : ℕ
  pub label : Option Text

-- `call_stack` and `call_stack_depth`.
pub record CallStack : Type 0 where
  pub call_stack : ℕ → Subroutine
  pub call_stack_depth : ℕ

-- The label that `push_subroutine_call` gives to an address; `temp_label` holds 255 characters.
unfoldable pub subroutine_label : List SymbolEntry → ℕ → Option Text
unfolding find_closest_symbol dec_text
subroutine_label symbol_list jsr_address = elim (find_closest_symbol symbol_list jsr_address) [
  | none ↦ none
  | some symbol ↦
      if symbol.address == jsr_address
      then some symbol.symbol_name
      else some
          (take 255 (symbol.symbol_name ++ codes "+" ++ dec_text (jsr_address - symbol.address)))
]

unfoldable pub push_subroutine_call : List SymbolEntry → ℕ → CallStack → CallStack × Text
unfolding subroutine_label
push_subroutine_call symbol_list jsr_address s =
    if leb max_call_stack s.call_stack_depth
    then (s, codes "Warning: Call stack overflow!\n")
    else (
      record {
        call_stack =
            update s.call_stack s.call_stack_depth
              (record { address = jsr_address; label = subroutine_label symbol_list jsr_address });
        call_stack_depth = s.call_stack_depth + 1;
      },
      [],
    )

-- The entry above the new depth loses its label.
unfoldable pub pop_subroutine_call : CallStack → CallStack × Text
pop_subroutine_call s =
    if s.call_stack_depth == 0 then (s, codes "Warning: RTS without matching JSR!\n") else (
      record {
        call_stack =
            update s.call_stack (s.call_stack_depth - 1)
              (record { address = (s.call_stack (s.call_stack_depth - 1)).address; label = none });
        call_stack_depth = s.call_stack_depth - 1;
      },
      [],
    )

-- The line that `print_call_stack` gives to level `i`.
unfoldable pub frame_line : ℕ → Subroutine → Text
unfolding hex4 dec_text
frame_line i frame = elim (frame.label) [
  | some label ↦
      codes "  #"
      ++ dec_text i
      ++ codes ": "
      ++ hex4 frame.address
      ++ codes " ("
      ++ label
      ++ codes ")\n"
  | none ↦ codes "  #" ++ dec_text i ++ codes ": " ++ hex4 frame.address ++ codes "\n"
]

unfoldable pub frame_lines : (ℕ → Subroutine) → ℕ → ℕ → Text
unfolding frame_line
frame_lines call_stack i zero = []
frame_lines call_stack i (suc n) = frame_line i (call_stack i) ++ frame_lines call_stack (suc i) n

-- `handle_up_command`, at the stack pointer `sp`; `none` is the read of `call_stack[-1]`.
unfoldable pub handle_up_command :
    List SymbolEntry → ℕ → CallStack → Breakpoints → Option (Breakpoints × Text)
unfolding add_breakpoint hex4
handle_up_command symbol_list sp s t =
    if leb 255 sp
    then some (t, codes "No return address on stack\n")
    else if s.call_stack_depth == 0
    then none
    else let return_addr = ((s.call_stack (s.call_stack_depth - 1)).address + 3) % 2 ^ 32 in
      let (t', out) =
        add_breakpoint symbol_list return_addr (some (codes "up command breakpoint")) t in
      some (t', out ++ codes "Will break at return address " ++ hex4 return_addr ++ codes "\n")

-- What an instruction is to the call stack: a JSR at an address, or an RTS.
pub data CallEvent : Type 0 where
  jsr : ℕ → CallEvent
  rts : CallEvent

-- The two branches of `run_emulator_loop` that keep the stack, for each instruction in turn.
unfoldable pub track : List SymbolEntry → List CallEvent → CallStack → CallStack
unfolding push_subroutine_call pop_subroutine_call
track symbol_list [] s = s
track symbol_list (jsr target_address ∷ events) s =
    track symbol_list events (push_subroutine_call symbol_list target_address s).0
track symbol_list (rts ∷ events) s = track symbol_list events (pop_subroutine_call s).0

-- The frames in use, oldest first.
abbrev pub frames : CallStack → List Subroutine
frames s = window s.call_stack 0 s.call_stack_depth
