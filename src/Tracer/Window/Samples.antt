-- ===== src/Tracer/Window/Samples.antt =====
-- A set-up that finds a font, and one that does not.
use ben_eater.Common.{◌≡◌, ◌==◌, refl, true, false, none, some, codes, [], inr}
use ben_eater.Tracer.{load_list_file}
use ben_eater.Tracer.Window.{Sdl, Setup, init_tracer_window, cleanup_tracer, zeroed}
use ben_eater.Tracer.Window.Held.{
  IsBalanced, after_calls, nothing, init_tracer_window-IsBalanced,
  cleanup_tracer-init_tracer_window,
}

abbrev third_font : Sdl
third_font = record {
  ttf_init = true;
  create_window = true;
  create_renderer = true;
  open_font = λ i. i == 2;
  error_text = [];
}

abbrev no_font : Sdl
no_font = record third_font { open_font = λ i. false }

abbrev start : Setup
start = record {
  tracer = zeroed;
  trace = record {
    is_allocated = false;
    trace_history = λ i. record { instruction = []; cpu_state = []; ram_state = []; pc_value = 0 };
    trace_history_size = 0;
    trace_history_capacity = 0;
    trace_scroll_index = none;
    scroll_mode = false;
  };
  window = false;
  renderer = false;
  font = false;
}

opened : (init_tracer_window third_font (some (codes "00:8000 EA nop\n")) start).2 ≡ true
unfolding init_tracer_window
opened = refl

init_tracer_window-IsBalanced_example :
    IsBalanced (init_tracer_window third_font (some (codes "00:8000 EA nop\n")) start)
init_tracer_window-IsBalanced_example =
    init_tracer_window-IsBalanced third_font (some (codes "00:8000 EA nop\n")) start

cleanup_tracer-init_tracer_window_example :
    after_calls (cleanup_tracer (init_tracer_window no_font (some (codes "nop")) start).0).1 nothing
    ≡ none
unfolding load_list_file
cleanup_tracer-init_tracer_window_example =
    cleanup_tracer-init_tracer_window no_font (some (codes "nop")) _ start refl
      (refl, refl, inr (refl, refl))
