-- ===== src/Monitors/Samples.antt =====
-- Runs of the `m` command, and the theorems on them at concrete inputs.
use ben_eater.Common.{◌≡◌, refl, not, ◌&&◌, [], ◌∷◌, codes, arith, leb, ◌==◌, if◌then◌else◌}
use ben_eater.Common.Array.{any_passes}
use ben_eater.Common.Int.{pos}
use ben_eater.Monitors.{
  Monitors, max_monitor_addresses, toggle_monitor, handle_memory_monitor_command, monitored,
}
use ben_eater.Monitors.Toggle.{IsValid, is_monitored, entry, is_monitored-toggle_monitor}

abbrev one_address : Monitors
one_address = record { monitor_addresses = λ i. entry 0x200 (pos 4); monitor_count = 1 }

one_address-IsValid : IsValid one_address
unfolding any_passes
one_address-IsValid = record { within = omega arith; distinct = (refl, tt) }

adds :
    monitored (handle_memory_monitor_command (codes "m 0300 16") one_address).0
    ≡ entry 0x200 (pos 4) ∷ entry 0x300 (pos 16) ∷ []
unfolding handle_memory_monitor_command
adds = refl

is_monitored-toggle_monitor_example :
    is_monitored (toggle_monitor 0x200 (pos 4) one_address).0 0x200 ≡ (
      if not (is_monitored one_address 0x200) && leb max_monitor_addresses 1
      then is_monitored one_address 0x200
      else if 0x200 == 0x200
      then not (is_monitored one_address 0x200)
      else is_monitored one_address 0x200)
is_monitored-toggle_monitor_example =
    is_monitored-toggle_monitor 0x200 (pos 4) one_address 0x200 one_address-IsValid
