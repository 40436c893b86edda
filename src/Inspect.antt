-- ===== src/Inspect.antt =====
-- tools/benEater_simulator/simulator.c: the commands that print and write memory, and the state of
-- the CPU. The registers of the CPU core are a record; a stream gets the text that is returned.
pub mod Dump
pub mod Write
mod Samples
use ben_eater.Common.{
  ℕ, suc, zero, ◌+◌, ◌-◌, ◌%◌, ◌^◌, Bool, true, false, ◌&&◌, not, Option, none, some, List, [], ◌∷◌,
  ◌++◌, Text, codes, hex2, hex4, hex_loop, dec_text, ltb, leb, ◌==◌, if◌then◌else◌,
}
use Prim.Native.String.{String}
use ben_eater.Common.Array.{update}
use ben_eater.Common.Int.{ℤ, pos, negsuc}
use ben_eater.Common.Scan.{scan_hex, scan_int}
use ben_eater.Bus.{Ram}
use ben_eater.Symbols.{SymbolEntry, find_closest_symbol}
use ben_eater.Monitors.{MonitorAddr, Monitors}
use ben_eater.CallStack.{CallStack, frame_lines}
use ben_eater.Disasm.{disassemble_current_instruction}

-- The registers: `a`, `x`, `y`, `sp`, `status` and `pc`.
pub record Cpu : Type 0 where
  pub pc : ℕ
  pub a : ℕ
  pub x : ℕ
  pub y : ℕ
  pub sp : ℕ
  pub status : ℕ

abbrev pub registers : Cpu → Text
registers cpu =
    codes "CPU State: PC:"
    ++ hex4 cpu.pc
    ++ codes " A:"
    ++ hex2 cpu.a
    ++ codes " X:"
    ++ hex2 cpu.x
    ++ codes " Y:"
    ++ hex2 cpu.y
    ++ codes " SP:"
    ++ hex2 cpu.sp
    ++ codes " Status:"
    ++ hex2 cpu.status
    ++ codes " (NV-B DIZC)\n"

-- The bytes of a row, the padding behind them, and their characters.
unfoldable pub row_bytes : Ram → ℕ → ℕ → Text
unfolding hex2
row_bytes ram address zero = []
row_bytes ram address (suc n) =
    hex2 (ram (address % 65536)) ++ (codes " " ++ row_bytes ram (address + 1) n)

unfoldable pub row_padding : ℕ → Text
row_padding zero = []
row_padding (suc n) = codes "   " ++ row_padding n

unfoldable pub row_ascii : Ram → ℕ → ℕ → Text
row_ascii ram address zero = []
row_ascii ram address (suc n) =
    let byte = ram (address % 65536) in
    (if leb 32 byte && leb byte 126 then byte else b'.') ∷ row_ascii ram (address + 1) n

unfoldable pub memory_row : Ram → ℕ → ℕ → Text
unfolding row_bytes row_padding row_ascii hex4
memory_row ram current_addr bytes_in_row =
    codes "RAM State $"
    ++ (hex4 current_addr
        ++ (codes ": "
            ++ (row_bytes ram current_addr bytes_in_row
                ++ (row_padding (16 - bytes_in_row)
                    ++ (codes " |" ++ (row_ascii ram current_addr bytes_in_row ++ codes "|\n"))))))

abbrev pub row_size : ℕ → ℕ
row_size left = if ltb 16 left then 16 else left

abbrev pub after_text : Text → Option Text → Option Text
after_text out none = none
after_text out (some rest) = some (out ++ rest)

-- The loop over the rows of a monitored address, on fuel; `none` if it runs out.
unfoldable pub memory_rows : ℕ → Ram → ℕ → ℕ → ℕ → Option Text
unfolding memory_row
memory_rows zero ram start_addr size bytes_printed = none
memory_rows (suc f) ram start_addr size bytes_printed = elim (ltb bytes_printed size) [
  | true ↦
      after_text
        (memory_row ram ((start_addr + bytes_printed) % 2 ^ 32) (row_size (size - bytes_printed)))
        (memory_rows f ram start_addr size (bytes_printed + row_size (size - bytes_printed)))
  | false ↦ some []
]

-- A size below 1 gives no rows.
unfoldable pub monitor_rows : Ram → ℕ → ℤ → Option Text
unfolding memory_rows
monitor_rows ram start_addr (pos size) = memory_rows (size + 1) ram start_addr size 0
monitor_rows ram start_addr (negsuc _) = some []

abbrev pub both_texts : Option Text → Option Text → Option Text
both_texts none rest = none
both_texts (some out) rest = after_text out rest

-- The loop over `n` monitors from index `i` on.
unfoldable pub monitors_text : Ram → (ℕ → MonitorAddr) → ℕ → ℕ → Option Text
unfolding monitor_rows
monitors_text ram monitor_addresses i zero = some []
monitors_text ram monitor_addresses i (suc n) =
    both_texts (monitor_rows ram (monitor_addresses i).address (monitor_addresses i).size)
      (monitors_text ram monitor_addresses (suc i) n)

abbrev pub cell : Ram → String → ℕ → Text
cell ram name address = codes name ++ hex2 (ram address)

unfoldable pub default_locations : Ram → Text
unfolding hex2
default_locations ram =
    cell ram "RAM State: $0000:" 0x0000
    ++ cell ram " $0001:" 0x0001
    ++ cell ram " $0002:" 0x0002
    ++ cell ram " $0003:" 0x0003
    ++ codes "\n"
    ++ cell ram "RAM State: $6000:" 0x6000
    ++ cell ram " $6001:" 0x6001
    ++ cell ram " scroll mode $0264:" 0x0264
    ++ cell ram " row $0230:" 0x0230
    ++ cell ram " col $0231:" 0x0231
    ++ codes "   \n"
    ++ cell ram "RAM State: $0300:" 0x0300
    ++ cell ram " $0301:" 0x0301
    ++ cell ram " $0302:" 0x0302
    ++ cell ram " $0303:" 0x0303
    ++ codes "\n"

unfoldable pub print_cpu_state_to_stream : Cpu → Monitors → Ram → Option Text
unfolding monitors_text default_locations hex2 hex4
print_cpu_state_to_stream cpu monitors ram = after_text (registers cpu) (
    both_texts (monitors_text ram monitors.monitor_addresses 0 monitors.monitor_count)
      (some (if monitors.monitor_count == 0 then default_locations ram else [])))

-- `(addr - start_addr) % 8 == 0`, on ints.
abbrev pub begins_row : ℕ → ℕ → Bool
begins_row start_addr addr =
    (if leb start_addr addr then addr - start_addr else start_addr - addr) % 8 == 0

unfoldable pub dump_cell : Ram → ℕ → ℕ → Text
unfolding hex_loop hex2
dump_cell ram start_addr addr =
    (if begins_row start_addr addr then codes "\n" ++ hex_loop 8 7 addr [] ++ codes ":" else [])
    ++ codes " "
    ++ hex2 (ram addr)

-- The loop of `dump_memory_range`, whose counter has 16 bits, on fuel; `none` if it runs out.
unfoldable pub dump_loop : ℕ → Ram → ℕ → ℕ → ℕ → Option Text
unfolding dump_cell
dump_loop zero ram start_addr end_addr addr = none
dump_loop (suc f) ram start_addr end_addr addr = elim (leb addr end_addr) [
  | true ↦
      after_text (dump_cell ram start_addr addr)
        (dump_loop f ram start_addr end_addr ((addr + 1) % 65536))
  | false ↦ some (codes "\n")
]

-- What goes to the stream. (The heading goes to stdout.)
unfoldable pub dump_memory_range : ℕ → Ram → ℕ → ℕ → Option Text
unfolding dump_loop
dump_memory_range fuel ram start_addr end_addr = dump_loop fuel ram start_addr end_addr start_addr

-- sscanf's match of a literal first character.
abbrev pub behind_letter : ℕ → Text → Option Text
behind_letter letter [] = none
behind_letter letter (c ∷ s) = if c == letter then some s else none

-- The loop of `handle_read_command`: `n` bytes from byte `i` on.
unfoldable pub read_cells : Ram → ℕ → ℕ → ℕ → Text
unfolding hex4 hex2
read_cells ram start_addr i zero = []
read_cells ram start_addr i (suc n) =
    (if i % 16 == 0 then hex4 ((start_addr + i) % 2 ^ 32) ++ codes ": " else [])
    ++ hex2 (ram ((start_addr + i) % 65536))
    ++ codes " "
    ++ (if i % 16 == 15 then codes "\n" else [])
    ++ read_cells ram start_addr (i + 1) n

-- The rows, and the newline behind a last row that is not full.
unfoldable pub read_rows : Ram → ℕ → ℤ → Text
unfolding read_cells
read_rows ram start_addr (pos count) =
    read_cells ram start_addr 0 count ++ (if not (count % 16 == 0) then codes "\n" else [])
read_rows ram start_addr (negsuc n) = if not (suc n % 16 == 0) then codes "\n" else []

-- The count of the command, sixteen where %d reads none.
unfoldable pub read_count : Text → ℤ
unfolding scan_int
read_count rest = elim (scan_int rest) [ some (count, _) ↦ count | none ↦ pos 16 ]

abbrev pub scan_after : Option Text → Option (ℕ × Text)
scan_after none = none
scan_after (some s) = scan_hex s

unfoldable pub handle_read_command : Ram → Text → Text
unfolding read_rows read_count scan_hex hex4
handle_read_command ram input = elim (scan_after (behind_letter b'r' input)) [
  | none ↦ codes "Usage: r <hex_address> [count]\n"
  | some (start_addr, rest) ↦
      codes "Memory dump from "
      ++ hex4 start_addr
      ++ codes ":\n"
      ++ read_rows ram start_addr (read_count rest)
]

unfoldable pub write_value : ℕ → ℕ → Ram → Ram × Text
unfolding hex2 hex4
write_value address value ram =
    if ltb 0xFF value then (ram, codes "Value must be 0x00-0xFF\n") else (
      update ram (address % 65536) (value % 256),
      codes "Wrote " ++ hex2 value ++ codes " to address " ++ hex4 address ++ codes "\n",
    )

unfoldable pub handle_write_command : Text → Ram → Ram × Text
unfolding write_value scan_hex
handle_write_command input ram = elim (scan_after (behind_letter b'w' input)) [
  | none ↦ (ram, codes "Usage: w <hex_address> <hex_value>\n")
  | some (address, rest) ↦ elim (scan_hex rest) [
    | none ↦ (ram, codes "Usage: w <hex_address> <hex_value>\n")
    | some (value, _) ↦ write_value address value ram
  ]
]

unfoldable pub pc_line : List SymbolEntry → ℕ → Text
unfolding find_closest_symbol hex4
pc_line symbol_list pc = elim (find_closest_symbol symbol_list pc) [
  | none ↦ []
  | some closest ↦ codes "pc at " ++ hex4 pc ++ codes " under " ++ closest.symbol_name ++ codes "\n"
]

unfoldable pub print_call_stack : List SymbolEntry → CallStack → Cpu → Monitors → Ram → Option Text
unfolding frame_lines pc_line disassemble_current_instruction print_cpu_state_to_stream dec_text
print_call_stack symbol_list s cpu monitors ram =
    let heading =
      codes "Call stack trace (" ++ dec_text s.call_stack_depth ++ codes " levels):\n" in
    if s.call_stack_depth == 0
    then some (heading ++ codes "  No subroutine calls active\n")
    else after_text
        (heading
          ++ frame_lines s.call_stack 0 s.call_stack_depth
          ++ codes "\nCPU status:\n"
          ++ pc_line symbol_list cpu.pc
          ++ (disassemble_current_instruction cpu.pc ram).0)
        (print_cpu_state_to_stream cpu monitors ram)

abbrev pub print_gdb_help : Text
print_gdb_help =
    codes "Debug Command Examples\n"
    ++ codes "h           :  print help\n"
    ++ codes "<enter>     :  run next instruction\n"
    ++ codes "c           :  continue to the next breakpoint\n"
    ++ codes "r           :  read memory.  r addr 32 for printing 32 byte from addr\n"
    ++ codes "w addr val  :  write memory byte -- w addr value \n"
    ++ codes "t           :  print call stack\n"
    ++ codes "u           :  add a breakpoint at subroutine calls the current subroutine\n"
    ++ codes "b           :  print all breakpoints\n"
    ++ codes
        "b addr      :  add breakpoint at addr; it also remove it if the breakpoint exists in the database already\n"
    ++ codes "b label     :  add breakpoint at address correspoinding to the label\n"
    ++ codes "s *lcd*     :  print all labels matching the pattern\n"
    ++ codes "m           :  print current monitoring address\n"
    ++ codes
        "m addr      :  monitor address (4 byte default); it also remove it from monitor if exits \n"
    ++ codes "m addr n    :  monitor address n byte\n"
    ++ codes "v           :  kills the tracer if already launched\n"
    ++ codes "v listFile  :  launch the tracer, if not launched\n"
    ++ codes "[           :  step backward in tracer; type enter to exit scroll mode\n"
    ++ codes "]           :  step forward  in tracer; type enter to exit scroll mode\n"
