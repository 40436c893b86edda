-- ===== src/Trace/Kept.antt =====
-- The history keeps the last entries, and scrolling walks over them.
use ben_eater.Common.{ℕ, ◌-◌, ◌<◌, ◌≤◌, ◌≡◌, true, List, [], ◌∷◌, length, drop, arith}
use ben_eater.Trace.{TraceEntry, Trace, new_entry, add_trace_entry}

-- A history in use: it holds no more entries than it has room for, and scrolling stands at one.
pub record IsValid (t : Trace) : Type 0 where
  pub allocated : t.is_allocated ≡ true
  pub room : 0 < t.trace_history_capacity
  pub within : t.trace_history_size ≤ t.trace_history_capacity

abbrev cut : TraceEntry → TraceEntry
cut e = new_entry e.instruction e.cpu_state e.ram_state e.pc_value

abbrev pub add_entry : TraceEntry → Trace → Trace
add_entry e t = add_trace_entry e.instruction e.cpu_state e.ram_state e.pc_value t

pub add_entry_rest :
    (e : TraceEntry) (t : Trace)
    → IsValid t
    → ((add_entry e t).trace_history_capacity ≡ t.trace_history_capacity) × IsValid (add_entry e t)
unfolding add_trace_entry
add_entry_rest e t v = ground arith

-- The last `limit` elements.
abbrev pub last_of : ℕ → List TraceEntry → List TraceEntry
last_of limit xs = drop (length xs - limit) xs

-- Add the entries one after the other.
abbrev pub add_entries : List TraceEntry → Trace → Trace
add_entries [] t = t
add_entries (e ∷ es) t = add_entries es (add_entry e t)

abbrev pub cut_all : List TraceEntry → List TraceEntry
cut_all [] = []
cut_all (e ∷ es) = cut e ∷ cut_all es
