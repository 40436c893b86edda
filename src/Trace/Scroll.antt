-- ===== src/Trace/Scroll.antt =====
-- Scrolling stays among the entries of the history.
use ben_eater.Common.{
  ℕ, ◌+◌, ◌-◌, ◌<◌, ◌≤◌, ◌≡◌, refl, Bool, true, false, Option, none, some, Text, ltb, arith, tests,
  inl, inr, Bool-cases, Option-cases,
}
use ben_eater.Common.Chain.{IfSome}
use ben_eater.Tracer.{Tracer}
use ben_eater.Trace.{
  Trace, init_trace_history, add_trace_entry, has_entries, index_up, show_entry, scroll_up_to,
  handle_trace_scroll_up, leave_scroll_mode, scroll_down_to, scroll_down_from,
  handle_trace_scroll_down,
}
use ben_eater.Trace.Kept.{IsValid}

-- No index, or one below `n`.
abbrev pub Below : ℕ → Option ℕ → Type 0
Below n none = Unit
Below n (some i) = i < n

-- The history, where there is one, is valid, and the scroll index stands at one of its entries.
pub record InHistory (t : Trace) : Type 0 where
  pub valid : t.is_allocated ≡ true → IsValid t
  pub within : Below t.trace_history_size t.trace_scroll_index

pub init_trace_history-InHistory : (t : Trace) → InHistory (init_trace_history t)
unfolding init_trace_history
init_trace_history-InHistory t = record {
  valid = λ e. record { allocated = refl; room = omega arith; within = omega arith };
  within = tt;
}

same_history :
    (t : Trace) (scroll_mode : Bool) (index : Option ℕ)
    → InHistory t
    → Below t.trace_history_size index
    → InHistory (record t { scroll_mode = scroll_mode; trace_scroll_index = index })
same_history t scroll_mode index h b = record {
  valid = λ e. let v = h.valid e in record { allocated = e; room = v.room; within = v.within };
  within = b;
}

pub leave_scroll_mode-InHistory : (t : Trace) → InHistory t → InHistory (leave_scroll_mode t)
unfolding leave_scroll_mode
leave_scroll_mode-InHistory t h = same_history t false none h tt

Below-mono : (n k : ℕ) (m : Option ℕ) → n ≤ k → Below n m → Below k m
Below-mono n k none h b = tt
Below-mono n k (some i) h b = omega arith

not_allocated :
    (instruction cpu_state ram_state : Text) (pc : ℕ) (t : Trace)
    → t.is_allocated ≡ false
    → add_trace_entry instruction cpu_state ram_state pc t ≡ t
unfolding add_trace_entry
not_allocated instruction cpu_state ram_state pc t e = simp e

module _ (instruction cpu_state ram_state : Text) (pc : ℕ) (t : Trace) (v : IsValid t) where
  add_trace_entry-IsValid : IsValid (add_trace_entry instruction cpu_state ram_state pc t)
  unfolding add_trace_entry
  add_trace_entry-IsValid = ground arith

  add_trace_entry-grows :
      t.trace_history_size
      ≤ (add_trace_entry instruction cpu_state ram_state pc t).trace_history_size
  unfolding add_trace_entry
  add_trace_entry-grows = ground arith

  add_trace_entry-index :
      (add_trace_entry instruction cpu_state ram_state pc t).trace_scroll_index
      ≡ t.trace_scroll_index
  unfolding add_trace_entry
  add_trace_entry-index = ground arith

pub add_trace_entry-InHistory :
    (instruction cpu_state ram_state : Text) (pc : ℕ) (t : Trace)
    → InHistory t
    → InHistory (add_trace_entry instruction cpu_state ram_state pc t)
add_trace_entry-InHistory instruction cpu_state ram_state pc t h =
    elim (Bool-cases (t.is_allocated)) [
      | inl e ↦
          let v = h.valid e in
          record {
            valid = λ _. add_trace_entry-IsValid instruction cpu_state ram_state pc t v;
            within = rw (add_trace_entry-index instruction cpu_state ram_state pc t v) (
                Below-mono _ _ t.trace_scroll_index
                  (add_trace_entry-grows instruction cpu_state ram_state pc t v) h.within);
          }
      | inr e ↦ rw (not_allocated instruction cpu_state ram_state pc t e) h
    ]

index_up-lt : (t : Trace) → InHistory t → has_entries t ≡ true → index_up t < t.trace_history_size
unfolding index_up
index_up-lt t h e = elim (Option-cases (t.trace_scroll_index)) [
  | inl p ↦ rw p (ground arith)
  | inr (i, p) ↦ let b = rw p at h.within in rw p (ground arith)
]

module _ (P : Trace → Type 0) where
  scroll_up_to-keeps :
      (window_height i : ℕ) (t : Trace) (tracer : Tracer)
      → P t
      → IfSome (λ (r : Trace × Tracer × Text). P r.0) (scroll_up_to window_height i t tracer)
  unfolding scroll_up_to
  scroll_up_to-keeps window_height i t tracer h = elim (Bool-cases (ltb i t.trace_history_size)) [
    | inl e ↦ elim (Option-cases (show_entry window_height i t tracer)) [
      | inl p ↦ rw (e, scroll_up_to) (rw p tt)
      | inr (r, p) ↦ rw (e, scroll_up_to) (rw p h)
    ]
    | inr e ↦ rw e h
  ]

  scroll_down_to-keeps :
      (window_height i : ℕ) (t : Trace) (tracer : Tracer)
      → P t
      → IfSome
          (λ (r : Trace × Tracer × Text × Bool). P r.0)
          (scroll_down_to window_height i t tracer)
  unfolding scroll_down_to
  scroll_down_to-keeps window_height i t tracer h =
      elim (Option-cases (show_entry window_height i t tracer)) [
        | inl p ↦ rw (p, scroll_down_to) tt
        | inr (r, p) ↦ rw (p, scroll_down_to) h
      ]

pub handle_trace_scroll_up-InHistory :
    (window_height : ℕ) (t : Trace) (tracer : Tracer)
    → InHistory t
    → IfSome
        (λ (r : Trace × Tracer × Text). InHistory r.0)
        (handle_trace_scroll_up window_height t tracer)
unfolding handle_trace_scroll_up
handle_trace_scroll_up-InHistory window_height t tracer h = elim (Bool-cases (has_entries t)) [
  | inl e ↦ rw e (
      scroll_up_to-keeps InHistory window_height (index_up t)
        (record t { scroll_mode = true; trace_scroll_index = some (index_up t) }) tracer
        (same_history t true (some (index_up t)) h (index_up-lt t h e)))
  | inr e ↦ rw e h
]

scroll_down_from-InHistory :
    (window_height i : ℕ) (t : Trace) (tracer : Tracer)
    → InHistory t
    → IfSome
        (λ (r : Trace × Tracer × Text × Bool). InHistory r.0)
        (scroll_down_from window_height i t tracer)
unfolding scroll_down_from
scroll_down_from-InHistory window_height i t tracer h =
    elim (Bool-cases (ltb i (t.trace_history_size - 1))) [
      | inl e ↦ rw e (
          scroll_down_to-keeps InHistory window_height (i + 1)
            (record t { trace_scroll_index = some (i + 1) }) tracer
            (same_history t t.scroll_mode (some (i + 1)) h (omega (tests, e))))
      | inr e ↦ rw e (leave_scroll_mode-InHistory t h)
    ]

pub handle_trace_scroll_down-InHistory :
    (window_height : ℕ) (t : Trace) (tracer : Tracer)
    → InHistory t
    → IfSome
        (λ (r : Trace × Tracer × Text × Bool). InHistory r.0)
        (handle_trace_scroll_down window_height t tracer)
unfolding handle_trace_scroll_down
handle_trace_scroll_down-InHistory window_height t tracer h = elim (Bool-cases (has_entries t)) [
  | inl e ↦ elim (Option-cases (t.trace_scroll_index)) [
    | inl p ↦ rw (e, p) (leave_scroll_mode-InHistory t h)
    | inr (i, p) ↦ rw (e, p) (scroll_down_from-InHistory window_height i t tracer h)
  ]
  | inr e ↦ rw e (leave_scroll_mode-InHistory t h)
]
