-- ===== src/Monitors.antt =====
-- tools/benEater_simulator/simulator.c: the table of monitored addresses and the `m` command.
pub mod Toggle
mod Samples
use ben_eater.Common.{
  ℕ, suc, zero, ◌+◌, ◌-◌, Bool, Option, none, some, List, [], ◌∷◌, ◌++◌, Text, codes, skip_while,
  is_blank, hex4, dec_text, drop, leb, ◌==◌, if◌then◌else◌,
}
use ben_eater.Common.Array.{update, find_from, shift_down, window}
use ben_eater.Common.Int.{ℤ, pos}
use ben_eater.Common.Scan.{scan_hex, scan_int, int_text}

abbrev pub max_monitor_addresses : ℕ
max_monitor_addresses = 50

pub record MonitorAddr : Type 0 where
  pub address : ℕ
  pub size : ℤ

-- `monitor_addresses` and `monitor_count`.
pub record Monitors : Type 0 where
  pub monitor_addresses : ℕ → MonitorAddr
  pub monitor_count : ℕ

abbrev pub monitors_address : ℕ → MonitorAddr → Bool
monitors_address address m = m.address == address

-- The index, or `none` for -1.
unfoldable pub find_monitor_address : Monitors → ℕ → Option ℕ
unfolding find_from
find_monitor_address t address =
    find_from (monitors_address address) t.monitor_addresses 0 t.monitor_count

unfoldable pub add_monitor_address : ℕ → ℤ → Monitors → Monitors × Text
unfolding hex4 int_text dec_text
add_monitor_address address size t =
    if leb max_monitor_addresses t.monitor_count
    then (
      t,
      codes "Maximum monitor addresses reached (" ++ dec_text max_monitor_addresses ++ codes ")!\n",
    )
    else (
      record {
        monitor_addresses =
            update t.monitor_addresses t.monitor_count (record { address = address; size = size });
        monitor_count = t.monitor_count + 1;
      },
      codes "Added monitor: " ++ hex4 address ++ codes " (" ++ int_text size ++ codes " bytes)\n",
    )

unfoldable pub remove_monitor_address : ℕ → Monitors → Monitors × Text
unfolding find_monitor_address shift_down hex4
remove_monitor_address address t = elim (find_monitor_address t address) [
  | none ↦ (t, codes "Address " ++ hex4 address ++ codes " not found in monitor list\n")
  | some index ↦ (
    record {
      monitor_addresses = shift_down t.monitor_addresses index (t.monitor_count - 1 - index);
      monitor_count = t.monitor_count - 1;
    },
    codes "Removed monitor: " ++ hex4 address ++ codes "\n",
  )
]

unfoldable pub monitor_lines : (ℕ → MonitorAddr) → ℕ → ℕ → Text
unfolding hex4 int_text
monitor_lines monitor_addresses i zero = []
monitor_lines monitor_addresses i (suc n) =
    (codes "  "
      ++ hex4 (monitor_addresses i).address
      ++ codes " ("
      ++ int_text (monitor_addresses i).size
      ++ codes " bytes)\n")
    ++ monitor_lines monitor_addresses (suc i) n

unfoldable pub print_monitor_addresses : Monitors → Text
unfolding monitor_lines
print_monitor_addresses t =
    if t.monitor_count == 0
    then codes "No addresses being monitored\n"
    else codes "Monitored addresses:\n" ++ monitor_lines t.monitor_addresses 0 t.monitor_count

abbrev monitor_usage : Text
monitor_usage =
    codes
      "Usage: m [address] [size]\nExamples:\n  m           - show all monitored addresses\n  m 0200      - toggle monitoring of address 0200 (4 bytes default)\n  m 0200 16   - toggle monitoring of address 0200 (16 bytes)\n"

-- The end of `handle_memory_monitor_command`: out if it is there, in if it is not.
unfoldable pub toggle_monitor : ℕ → ℤ → Monitors → Monitors × Text
unfolding find_monitor_address remove_monitor_address add_monitor_address
toggle_monitor address size t = elim (find_monitor_address t address) [
  | some existing_index ↦ remove_monitor_address address t
  | none ↦ add_monitor_address address size t
]

-- The size of the command, four where %d reads none.
unfoldable pub monitor_size : Text → ℤ
unfolding scan_int
monitor_size rest = elim (scan_int rest) [ some (size, _) ↦ size | none ↦ pos 4 ]

unfoldable pub handle_memory_monitor_command : Text → Monitors → Monitors × Text
unfolding print_monitor_addresses toggle_monitor monitor_size scan_hex skip_while is_blank
handle_memory_monitor_command input t = elim (skip_while is_blank (drop 1 input)) [
  | [] ↦ (t, print_monitor_addresses t)
  | c ∷ s ↦ elim (scan_hex (c ∷ s)) [
    | none ↦ (t, monitor_usage)
    | some (address, rest) ↦ toggle_monitor address (monitor_size rest) t
  ]
]

-- The entries in use, in order.
abbrev pub monitored : Monitors → List MonitorAddr
monitored t = window t.monitor_addresses 0 t.monitor_count
