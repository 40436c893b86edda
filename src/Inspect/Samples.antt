-- ===== src/Inspect/Samples.antt =====
-- Runs of the commands on memory, and the theorems on them.
use ben_eater.Common.{ℕ, ◌≡◌, ◌↔◌, refl, none, some, codes, hex4, arith, if◌then◌else◌, ◌==◌}
use ben_eater.Common.Int.{pos}
use ben_eater.Bus.{Ram}
use ben_eater.Monitors.{Monitors}
use ben_eater.Inspect.{
  Cpu, dump_memory_range, handle_read_command, handle_write_command, memory_row,
}
use ben_eater.Inspect.Dump.{dump_memory_range-endless_iff}

abbrev letters : Ram
letters b = b

row :
    memory_row letters 0x0040 4
    ≡ codes "RAM State $0040: 40 41 42 43                                      |@ABC|\n"
unfolding memory_row hex4
row = refl

read_two :
    handle_read_command letters (codes "r 0040 2") ≡ codes "Memory dump from 0040:\n0040: 40 41 \n"
unfolding handle_read_command
read_two = refl

written : (handle_write_command (codes "w 6000 41") letters).0 0x6000 ≡ 0x41
unfolding handle_write_command
written = refl

too_large : (handle_write_command (codes "w 6000 141") letters).0 0x6000 ≡ 0x6000
unfolding handle_write_command
too_large = refl

dumped : dump_memory_range 4 letters 0x0010 0x0011 ≡ some (codes "\n0000010: 10 11\n")
unfolding dump_memory_range
dumped = refl

dump_memory_range-endless_iff_example :
    ((fuel : ℕ) → dump_memory_range fuel letters 0xFFF0 0xFFFF ≡ none) ↔ (◌≡◌ {A = ℕ} 0xFFFF 65535)
dump_memory_range-endless_iff_example =
    dump_memory_range-endless_iff letters 0xFFF0 0xFFFF (omega arith) (omega arith)

abbrev cpu : Cpu
cpu = record { pc = 0x8000; a = 0x12; x = 0; y = 0; sp = 0xFF; status = 0x30 }

abbrev two_monitors : Monitors
two_monitors = record {
  monitor_addresses = λ i.
      if i == 0
      then record { address = 0x0200; size = pos 20 }
      else record { address = 0x0300; size = pos 4 };
  monitor_count = 2;
}
