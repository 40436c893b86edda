-- ===== src/Trace/Closed.antt =====
-- Scrolling through the history while no window is open: it comes to a result and opens none.
use ben_eater.Common.{
  ℕ, ◌+◌, ◌-◌, ◌≡◌, refl, Bool, false, some, Text, ltb, inl, inr, Bool-cases, Option-cases,
}
use ben_eater.Common.Chain.{IsSome}
use ben_eater.Tracer.{Tracer}
use ben_eater.Trace.{
  Trace, has_entries, entry_text, show_entry, index_up, scroll_up_to, handle_trace_scroll_up,
  scroll_down_to, scroll_down_from, handle_trace_scroll_down,
}

module _ (window_height : ℕ) (tracer : Tracer) (closed : tracer.is_active ≡ false) where
  show_entry-closed :
      (index : ℕ) (t : Trace)
      → show_entry window_height index t tracer ≡ some (tracer, entry_text index t)
  unfolding show_entry
  show_entry-closed index t = simp closed refl

  scroll_up_to-closed :
      (i : ℕ) (t : Trace)
      → IsSome
          (λ (r : Trace × Tracer × Text). r.1.is_active ≡ false)
          (scroll_up_to window_height i t tracer)
  unfolding scroll_up_to
  scroll_up_to-closed i t = elim (Bool-cases (ltb i t.trace_history_size)) [
    | inl e ↦ rw (e, show_entry-closed i t) closed
    | inr e ↦ rw e closed
  ]

  pub handle_trace_scroll_up-closed :
      (t : Trace)
      → IsSome
          (λ (r : Trace × Tracer × Text). r.1.is_active ≡ false)
          (handle_trace_scroll_up window_height t tracer)
  unfolding handle_trace_scroll_up
  handle_trace_scroll_up-closed t = elim (Bool-cases (has_entries t)) [
    | inl e ↦ rw e (scroll_up_to-closed (index_up t) _)
    | inr e ↦ rw e closed
  ]

  scroll_down_to-closed :
      (i : ℕ) (t : Trace)
      → IsSome
          (λ (r : Trace × Tracer × Text × Bool). r.1.is_active ≡ false)
          (scroll_down_to window_height i t tracer)
  unfolding scroll_down_to
  scroll_down_to-closed i t = rw (show_entry-closed i t, scroll_down_to) closed

  scroll_down_from-closed :
      (i : ℕ) (t : Trace)
      → IsSome
          (λ (r : Trace × Tracer × Text × Bool). r.1.is_active ≡ false)
          (scroll_down_from window_height i t tracer)
  unfolding scroll_down_from
  scroll_down_from-closed i t = elim (Bool-cases (ltb i (t.trace_history_size - 1))) [
    | inl e ↦ rw e (scroll_down_to-closed (i + 1) _)
    | inr e ↦ rw e closed
  ]

  pub handle_trace_scroll_down-closed :
      (t : Trace)
      → IsSome
          (λ (r : Trace × Tracer × Text × Bool). r.1.is_active ≡ false)
          (handle_trace_scroll_down window_height t tracer)
  unfolding handle_trace_scroll_down
  handle_trace_scroll_down-closed t = elim (Bool-cases (has_entries t)) [
    | inl e ↦ elim (Option-cases (t.trace_scroll_index)) [
      | inl p ↦ rw (e, p) closed
      | inr (i, p) ↦ rw (e, p) (scroll_down_from-closed i t)
    ]
    | inr e ↦ rw e closed
  ]
