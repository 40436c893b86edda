-- ===== src/Trace/Samples.antt =====
-- Runs of the trace history with room for two entries, and the theorem on them.
use ben_eater.Common.{ℕ, ◌≡◌, refl, true, false, none, some, List, [], ◌∷◌, codes}
use ben_eater.Common.Int.{pos}
use ben_eater.Tracer.{Tracer}
use ben_eater.Trace.{
  TraceEntry, Trace, add_trace_entry, handle_trace_scroll_up, scroll_up_to, index_up, show_entry,
  handle_trace_scroll_down, scroll_down_from, leave_scroll_mode, kept,
}
use ben_eater.Trace.Kept.{add_entries}

abbrev step_at : ℕ → TraceEntry
step_at pc = record { instruction = codes "nop"; cpu_state = []; ram_state = []; pc_value = pc }

abbrev no_entries : Trace
no_entries = record {
  is_allocated = true;
  trace_history = λ i. step_at 0;
  trace_history_size = 0;
  trace_history_capacity = 2;
  trace_scroll_index = none;
  scroll_mode = false;
}

abbrev three_steps : List TraceEntry
three_steps = step_at 0x8000 ∷ step_at 0x8001 ∷ step_at 0x8002 ∷ []

last_two : kept (add_entries three_steps no_entries) ≡ step_at 0x8001 ∷ step_at 0x8002 ∷ []
unfolding add_trace_entry
last_two = refl

abbrev closed : Tracer
closed = record {
  lines = [];
  current_pc_line = none;
  display_start = pos 0;
  visible_lines = pos 0;
  is_active = false;
}

up_once :
    handle_trace_scroll_up 900 (add_entries three_steps no_entries) closed
    ≡ some (
      record (add_entries three_steps no_entries) {
        scroll_mode = true;
        trace_scroll_index = some 1;
      },
      closed,
      codes "TRACE [2/2]: nop\n\n\n",
    )
unfolding handle_trace_scroll_up scroll_up_to index_up show_entry add_trace_entry
up_once = refl

down_to_now :
    handle_trace_scroll_down 900
      (record (add_entries three_steps no_entries) {
        scroll_mode = true;
        trace_scroll_index = some 1;
      })
      closed
    ≡ some (
      add_entries three_steps no_entries,
      closed,
      codes "Reached current state, exiting trace scroll mode\n",
      true,
    )
unfolding handle_trace_scroll_down scroll_down_from leave_scroll_mode add_trace_entry
down_to_now = refl
