-- ===== src/Lib.antt =====
-- BenEater6502: the 6502 simulator and debugger.
--
-- tools/benEater_simulator/simulator.c is the program of this repository that is written in C. It
-- loads a hex file into the memory of an emulated 6502 computer, runs it with a CPU core, passes the
-- writes to two addresses on to a simulated LCD, and gives the user a debugger: breakpoints, a stack
-- of subroutine calls, monitored addresses, a symbol list with a search by pattern, a disassembler, a
-- window that shows the list file around the current instruction, and a history of the trace that one
-- can scroll through. Each part has a module here; C's globals are the fields of a record that the
-- functions take and return, and what a function prints is a text beside its result.
--
-- - Symbols: `symbol_list`, find_closest_symbol, find_symbol_by_name, match_pattern, search_symbols,
--   handle_symbol_search_command.
-- - Breakpoints: `breakpoints`, add_breakpoint, is_breakpoint, print_breakpoints,
--   handle_breakpoint_command, cleanup_breakpoints. The command uses the symbols.
-- - CallStack: `call_stack`, push_subroutine_call, pop_subroutine_call, handle_up_command, and the
--   lines of print_call_stack. It uses the symbols, and `u` the breakpoints.
-- - Monitors: `monitor_addresses` and handle_memory_monitor_command with what it calls.
-- - Bus: `RAM`, read6502, write6502, set_vectors.
-- - HexFile: hex_char_to_int and load_hex_file, which fills the memory of Bus.
-- - Disasm: disassemble_current_instruction over that memory. Disasm/Switch holds the cases.
-- - Tracer: load_list_file, find_pc_line, update_tracer_display, render_tracer_window; Tracer/Scroll
--   holds handle_tracer_events.
-- - Trace: add_trace_entry, handle_trace_scroll_up, handle_trace_scroll_down. The scroll commands
--   move the tracer's window too.
-- - Symbols/Dictionary: create_symbol_dictionary and handle_symbol_lookup, which sets the first
--   breakpoint.
-- - Inspect: print_cpu_state_to_stream, dump_memory_range, print_call_stack, print_gdb_help and the
--   commands `r` and `w`. It reads the memory, the monitors, the call stack and the disassembler.
-- - Loader: load_program_and_irq, over the hex file loader.
-- - Tracer/Window: init_tracer_window and cleanup_tracer, with the calls of SDL that make and free.
-- - Keyboard: handle_keyboard_event, which writes to the memory of Bus.
-- - Emulator: run_emulator_loop over all these parts. `State` holds the globals and the variables of
--   the loop. Emulator/Commands is the debugger (under `if (step_enabled)`), Emulator/Execute the rest
--   of a round, Emulator/Loop the rounds and what follows them. Emulator/Steps,
--   Emulator/Invariant and Emulator/Program say how an invariant of a run is proved from its parts.
--   Emulator/Timing and Emulator/Rate are about the clocks, Emulator/Calls
--   about the call stack, Emulator/Handles about the handles of SDL. Emulator/View and Emulator/Plain
--   compare the loop with a reference that has no window, history or texts, and
--   Emulator/Free is about the rounds in which the debugger does not come up.
-- - Main: main and initialize_sdl_and_lcd. It calls the symbol lookup, the loader, the vectors and
--   the loop.
--
-- Numbers are natural numbers with the wrap-around of their C type written out; an int that can be
-- negative is an integer. `x & 0xFF` is `% 256`, `x >> 8` is `/ 256`. A C string is the list of its
-- character codes before the NUL. An array of the program is a function from indices with a count
-- beside it, and a lookup that C does in a loop goes over that count. A read that C does outside an
-- array is `none`.
--
-- Fuel: match_pattern gets (|text| + 1) * (|pattern| + 1) + 1 rounds, since a backtrack moves the
-- start of the star's text, and between two of them the pattern is walked over once; Symbols/Pattern
-- shows that it never runs out. Printing a number by %X takes at most eight digits and by %d at most
-- ten, as for 32 bits. fgets cuts a line where its buffer is full: 1023 characters in load_hex_file,
-- 511 in load_list_file.
--
-- The C library is modelled where it is used: fgets, isspace, isxdigit, strcmp, and sscanf of %x and
-- %d with their leading spaces, sign and 0x, and the wrap to 32 bits. malloc is taken to succeed and
-- a file to hold no NUL character. SDL, its fonts and the LCD simulation are libraries: their calls
-- are recorded, or their results are arguments.
--
-- A sscanf with %s that runs over its buffer is a result of its own, and a loop of the program that
-- need not end runs on fuel that the theorems speak of. dump_memory_range gets 65537 rounds, one for
-- each address and one more to end.
--
-- The loop of run_emulator_loop is a function of a list of rounds: what the world does in each (the
-- signal, the events that come to the queue of SDL, what SDL answers when a window is made). What is
-- still in the queue is a field of the state: both loops over SDL_PollEvent take from it, the second
-- only where the tracer's window is open. Where the list is at its end the result is `running`, where
-- the loop has ended it is `ended`. The lines of the terminal are a field of the state, and the file
-- system and the CPU core are arguments: the core (exec6502, irq6502, reset6502) is another
-- project's, and the loop is modelled for any.
--
-- Not modelled: what goes to stderr, usleep, and handle_sigint, which only
-- sets the flag that a round reads. The CPU core (tools/fake6502), LCDSim, vasm and dcc6502 are
-- copies of other projects, and the programs under src, ben_youtube and game_design are in assembly.
pub mod Common
pub mod Symbols
pub mod Breakpoints
pub mod CallStack
pub mod Monitors
pub mod Bus
pub mod HexFile
pub mod Disasm
pub mod Tracer
pub mod Trace
pub mod Inspect
pub mod Loader
pub mod Keyboard
pub mod Emulator
pub mod Main
