-- ===== src/Trace.antt =====
-- tools/benEater_simulator/simulator.c: the history of trace entries, and scrolling through it.
pub mod Kept
pub mod Scroll
pub mod Closed
mod Samples
use ben_eater.Common.{
  [], ℕ, ◌+◌, ◌-◌, Bool, true, false, ◌&&◌, not, Option, none, some, List, ◌++◌, Text, codes, take,
  dec_text, leb, ltb, ◌==◌, if◌then◌else◌,
}
use ben_eater.Common.Array.{update, shift_down, window}
use ben_eater.Tracer.{Tracer, update_tracer_display, render_tracer_window}

pub record TraceEntry : Type 0 where
  pub instruction : Text
  pub cpu_state : Text
  pub ram_state : Text
  pub pc_value : ℕ

-- `is_allocated` is `trace_history != NULL`; `trace_scroll_index` is `none` for -1.
pub record Trace : Type 0 where
  pub is_allocated : Bool
  pub trace_history : ℕ → TraceEntry
  pub trace_history_size : ℕ
  pub trace_history_capacity : ℕ
  pub trace_scroll_index : Option ℕ
  pub scroll_mode : Bool

-- The end of `init_tracer_window`, where the malloc succeeds.
unfoldable pub init_trace_history : Trace → Trace
init_trace_history t = record t {
  is_allocated = true;
  trace_history_capacity = 1000;
  trace_history_size = 0;
  trace_scroll_index = none;
  scroll_mode = false;
}

-- The copies by strncpy into fields of 128, 256 and 512 characters.
unfoldable pub new_entry : Text → Text → Text → ℕ → TraceEntry
new_entry instruction cpu_state ram_state pc = record {
  instruction = take 127 instruction;
  cpu_state = take 255 cpu_state;
  ram_state = take 511 ram_state;
  pc_value = pc;
}

-- The entries moved down by one where the history is full.
unfoldable pub make_room : Trace → Trace
unfolding shift_down
make_room t =
    if leb t.trace_history_capacity t.trace_history_size
    then record t {
      trace_history = shift_down t.trace_history 0 (t.trace_history_capacity - 1);
      trace_history_size = t.trace_history_capacity - 1;
    }
    else t

unfoldable pub append_entry : TraceEntry → Trace → Trace
append_entry entry t = record t {
  trace_history = update t.trace_history t.trace_history_size entry;
  trace_history_size = t.trace_history_size + 1;
}

unfoldable pub add_trace_entry : Text → Text → Text → ℕ → Trace → Trace
unfolding append_entry make_room new_entry
add_trace_entry instruction cpu_state ram_state pc t =
    if t.is_allocated
    then append_entry (new_entry instruction cpu_state ram_state pc) (make_room t)
    else t

-- What the scroll commands print of an entry.
unfoldable pub entry_text : ℕ → Trace → Text
unfolding dec_text
entry_text index t =
    let entry = t.trace_history index in
    codes "TRACE ["
    ++ dec_text (index + 1)
    ++ codes "/"
    ++ dec_text t.trace_history_size
    ++ codes "]: "
    ++ entry.instruction
    ++ codes "\n"
    ++ entry.cpu_state
    ++ codes "\n"
    ++ entry.ram_state
    ++ codes "\n"

abbrev pub has_entries : Trace → Bool
has_entries t = t.is_allocated && not (t.trace_history_size == 0)

-- The index that scrolling up goes to.
unfoldable pub index_up : Trace → ℕ
index_up t = elim (t.trace_scroll_index) [ none ↦ t.trace_history_size - 1 | some i ↦ i - 1 ]

-- Print an entry and, where the tracer's window is open, show its instruction there. `none` is a
-- read outside the lines of the list file.
unfoldable pub show_entry : ℕ → ℕ → Trace → Tracer → Option (Tracer × Text)
unfolding entry_text update_tracer_display render_tracer_window
show_entry window_height index t tracer =
    if tracer.is_active
    then elim (render_tracer_window window_height
        (update_tracer_display (t.trace_history index).pc_value tracer)) [
          | none ↦ none
          | some (tracer', rows) ↦ some (tracer', entry_text index t)
        ]
    else some (tracer, entry_text index t)

unfoldable pub scroll_up_to : ℕ → ℕ → Trace → Tracer → Option (Trace × Tracer × Text)
scroll_up_to window_height i t tracer =
    if ltb i t.trace_history_size
    then elim (show_entry window_height i t tracer) [
      | none ↦ none
      | some (tracer', out) ↦ some (t, tracer', out)
    ]
    else some (t, tracer, [])

unfoldable pub handle_trace_scroll_up : ℕ → Trace → Tracer → Option (Trace × Tracer × Text)
handle_trace_scroll_up window_height t tracer =
    if has_entries t
    then scroll_up_to window_height (index_up t)
        (record t { scroll_mode = true; trace_scroll_index = some (index_up t) }) tracer
    else some (t, tracer, [])

unfoldable pub leave_scroll_mode : Trace → Trace
leave_scroll_mode t = record t { scroll_mode = false; trace_scroll_index = none }

-- Step down to entry `i`.
unfoldable pub scroll_down_to : ℕ → ℕ → Trace → Tracer → Option (Trace × Tracer × Text × Bool)
scroll_down_to window_height i t tracer = elim (show_entry window_height i t tracer) [
  | none ↦ none
  | some (tracer', out) ↦ some (t, tracer', out, false)
]

unfoldable pub scroll_down_from : ℕ → ℕ → Trace → Tracer → Option (Trace × Tracer × Text × Bool)
scroll_down_from window_height i t tracer =
    if ltb i (t.trace_history_size - 1)
    then scroll_down_to window_height (i + 1) (record t { trace_scroll_index = some (i + 1) })
        tracer
    else some (
      leave_scroll_mode t,
      tracer,
      codes "Reached current state, exiting trace scroll mode\n",
      true,
    )

-- The last part of the result is the signal to leave the scroll mode.
unfoldable pub handle_trace_scroll_down : ℕ → Trace → Tracer → Option (Trace × Tracer × Text × Bool)
handle_trace_scroll_down window_height t tracer =
    if has_entries t
    then elim (t.trace_scroll_index) [
      | none ↦ some (leave_scroll_mode t, tracer, codes "Exiting trace scroll mode\n", true)
      | some i ↦ scroll_down_from window_height i t tracer
    ]
    else some (leave_scroll_mode t, tracer, codes "Exiting trace scroll mode\n", true)

-- The entries of the history, oldest first.
abbrev pub kept : Trace → List TraceEntry
kept t = window t.trace_history 0 t.trace_history_size
