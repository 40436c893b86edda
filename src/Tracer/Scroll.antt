-- ===== src/Tracer/Scroll.antt =====
-- tools/benEater_simulator/simulator.c: `handle_tracer_events`.
use ben_eater.Common.{ℕ, Bool, true, false, Option, none, some, List, [], ◌∷◌, if◌then◌else◌}
use ben_eater.Common.Int.{pos, ◌+ℤ◌, ◌-ℤ◌, ltb_ℤ}
use ben_eater.Tracer.{Tracer, total_lines, at_least_zero, render_tracer_window}

-- The events that the function tells apart.
pub data TracerEvent : Type 0 where
  quit resized key_up key_down key_page_up key_page_down other : TracerEvent

-- What an event does before the window is drawn again.
unfoldable pub scroll : TracerEvent → Tracer → Tracer
unfolding ◌+ℤ◌ ◌-ℤ◌
scroll key_up t =
    if ltb_ℤ (pos 0) t.display_start
    then record t { display_start = t.display_start -ℤ pos 1 }
    else t
scroll key_down t =
    if ltb_ℤ t.display_start (pos (total_lines t) -ℤ t.visible_lines)
    then record t { display_start = t.display_start +ℤ pos 1 }
    else t
scroll key_page_up t = record t {
  display_start = at_least_zero (t.display_start -ℤ t.visible_lines);
}
scroll key_page_down t =
    let display_start = t.display_start +ℤ t.visible_lines in
    record t {
      display_start =
          if ltb_ℤ (pos (total_lines t) -ℤ t.visible_lines) display_start
          then pos (total_lines t) -ℤ t.visible_lines
          else display_start;
    }
scroll quit t = record t { is_active = false }
scroll resized t = t
scroll other t = t

abbrev pub redraws : TracerEvent → Bool
redraws quit = false
redraws other = false
redraws _ = true

-- One round of the loop; `none` is a read outside the lines.
unfoldable pub handle_tracer_event : ℕ → TracerEvent → Tracer → Option Tracer
unfolding scroll render_tracer_window
handle_tracer_event window_height event t =
    if redraws event
    then elim (render_tracer_window window_height (scroll event t)) [
      | none ↦ none
      | some (t', rows) ↦ some t'
    ]
    else some (scroll event t)

unfoldable pub handle_tracer_loop : ℕ → List TracerEvent → Tracer → Option Tracer
unfolding handle_tracer_event
handle_tracer_loop window_height [] t = some t
handle_tracer_loop window_height (event ∷ events) t =
    elim (handle_tracer_event window_height event t) [
      | none ↦ none
      | some t' ↦ handle_tracer_loop window_height events t'
    ]

unfoldable pub handle_tracer_events : ℕ → List TracerEvent → Tracer → Option Tracer
unfolding handle_tracer_loop
handle_tracer_events window_height events t =
    if t.is_active then handle_tracer_loop window_height events t else some t
