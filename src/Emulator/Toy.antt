-- ===== src/Emulator/Toy.antt =====
-- A core that only counts its program counter on, and a state with it, for the tests.
use ben_eater.Common.{
  ℕ, ◌+◌, ◌*◌, ◌%◌, true, false, Option, none, List, [], ◌∷◌, Text, ◌==◌, if◌then◌else◌,
}
use ben_eater.Common.Int.{pos}
use ben_eater.Bus.{Ram}
use ben_eater.Inspect.{Cpu}
use ben_eater.Tracer.Window.{zeroed}
use ben_eater.Emulator.{Core, Round, State, key_down_event}

abbrev pub counting : Core
counting = record {
  exec6502 = λ cpu m. (record cpu { pc = (cpu.pc + 1) % 65536 }, m, 2);
  irq6502 = λ cpu m. (record cpu { pc = m.ram 0xFFFE + 256 * m.ram 0xFFFF }, m);
  reset6502 = λ cpu m. (record cpu { pc = m.ram 0xFFFC + 256 * m.ram 0xFFFD }, m);
}

abbrev pub quiet_round : Round
quiet_round = record {
  quit_flag = false;
  polled = [];
  arrived = [];
  window_height = 600;
  sdl = record {
    ttf_init = true;
    create_window = true;
    create_renderer = true;
    open_font = λ i. true;
    error_text = [];
  };
}

-- The key `a` comes.
abbrev pub key_round : Round
key_round = record quiet_round { polled = key_down_event b'a' false ∷ [] }

abbrev pub cpu_at : ℕ → Cpu
cpu_at pc = record { pc = pc; a = 0; x = 0; y = 0; sp = 0xFF; status = 0x20 }

-- 0xEA everywhere but for 0xFF at $8003.
abbrev pub program : Ram
program b = if b == 0x8003 then 0xFF else 0xEA

-- A breakpoint at $8001.
abbrev pub state_at : ℕ → List Text → State
state_at pc lines = record {
  cpu = cpu_at pc;
  machine = record { ram = program; lcd_calls = [] };
  symbol_list = [];
  breakpoints = record {
    breakpoints = λ i. record { address = 0x8001; label = none };
    breakpoint_count = 1;
  };
  call_stack = record {
    call_stack = λ i. record { address = 0; label = none };
    call_stack_depth = 0;
  };
  monitors = record {
    monitor_addresses = λ i. record { address = 0; size = pos 0 };
    monitor_count = 0;
  };
  setup = record {
    tracer = zeroed;
    trace = record {
      is_allocated = false;
      trace_history =
          λ i. record { instruction = []; cpu_state = []; ram_state = []; pc_value = 0 };
      trace_history_size = 0;
      trace_history_capacity = 0;
      trace_scroll_index = none;
      scroll_mode = false;
    };
    window = false;
    renderer = false;
    font = false;
  };
  queue = [];
  sdl_calls = [];
  stdin = lines;
  stdout = [];
  log_file = [];
  step_enabled = false;
  break_loop = false;
  auto_tracer_opened = false;
  loop_cnt = 0;
  last_irq = 0;
  total_cycles = 0;
  irq_count = 0;
}

abbrev pub no_files : Text → Option Text
no_files name = none
