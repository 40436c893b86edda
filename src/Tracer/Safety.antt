-- ===== src/Tracer/Safety.antt =====
-- Which events of the tracer's window read outside the lines of the list file.
use ben_eater.Common.{
  ℕ, suc, ◌+◌, ◌-◌, ◌<◌, ◌≤◌, ◌≡◌, refl, ◌∙◌, true, Option, none, some, List, [], ◌∷◌, ltb,
  if◌then◌else◌, arith, inl, inr, Bool-cases,
}
use ben_eater.Common.Int.{pos, negsuc}
use ben_eater.Tracer.{
  Tracer, total_lines, DrawnRow, draw_rows, render_tracer_window, rows_of_window,
}
use ben_eater.Tracer.View.{pos-add, pos-sub, at_least_zero-sub}
use ben_eater.Tracer.Drawing.{draw_rows-above, draw_rows-total}
use ben_eater.Tracer.Scroll.{
  TracerEvent, quit, resized, key_up, key_down, key_page_up, key_page_down, other, scroll, redraws,
  handle_tracer_event, handle_tracer_loop, handle_tracer_events,
}

-- The window stands in the file and shows no more rows than the file has lines.
pub record InFile (t : Tracer) : Type 0 where
  pub start : ℕ
  pub start_is : t.display_start ≡ pos start
  pub rows : ℕ
  pub rows_is : t.visible_lines ≡ pos rows
  pub fits : rows ≤ total_lines t

scroll_start : TracerEvent → Tracer → ℕ → ℕ → ℕ
scroll_start key_up t s v = s - 1
scroll_start key_down t s v = if ltb s (total_lines t - v) then s + 1 else s
scroll_start key_page_up t s v = s - v
scroll_start key_page_down t s v =
    if ltb (total_lines t - v) (s + v) then total_lines t - v else s + v
scroll_start _ t s v = s

scroll-start :
    (event : TracerEvent) (t : Tracer) (i : InFile t)
    → (scroll event t).display_start ≡ pos (scroll_start event t i.start i.rows)
unfolding scroll scroll_start
scroll-start quit t i = i.start_is
scroll-start resized t i = i.start_is
scroll-start other t i = i.start_is
scroll-start key_up t i = ground (arith, pos-sub i.start 1)
scroll-start key_down t i = ground (arith, pos-sub (total_lines t) i.rows i.fits, pos-add i.start 1)
scroll-start key_page_up t i = simp (i.start_is, i.rows_is, at_least_zero-sub)
scroll-start key_page_down t i =
    simp (i.start_is, i.rows_is, pos-add, pos-sub (total_lines t) i.rows i.fits) (ground arith)

scroll_rest :
    (event : TracerEvent) (t : Tracer)
    → ((scroll event t).visible_lines ≡ t.visible_lines) × ((scroll event t).lines ≡ t.lines)
unfolding scroll
scroll_rest quit t = (refl, refl)
scroll_rest _ t = ground arith

scroll-InFile : (event : TracerEvent) (t : Tracer) → InFile t → InFile (scroll event t)
scroll-InFile event t i = record {
  start = scroll_start event t i.start i.rows;
  start_is = scroll-start event t i;
  rows = i.rows;
  rows_is = (scroll_rest event t).0 ∙ i.rows_is;
  fits = rw (scroll_rest event t).1 i.fits;
}

-- What drawing leaves of a tracer.
record Drawn (t : Tracer) (out : Option (Tracer × List DrawnRow)) : Type 0 where
  after : Tracer
  rows : List DrawnRow
  is_drawn : out ≡ some (after, rows)
  in_file : InFile after
  same_lines : after.lines ≡ t.lines

-- An active window of known height draws its rows from where it stands.
render-active :
    (window_height rows i : ℕ) (t : Tracer) (drawn : List DrawnRow)
    → t.is_active ≡ true
    → rows_of_window window_height ≡ pos rows
    → t.display_start ≡ pos i
    → draw_rows (record t { visible_lines = pos rows }) rows (pos i) ≡ some drawn
    → render_tracer_window window_height t ≡ some (record t { visible_lines = pos rows }, drawn)
unfolding render_tracer_window
render-active window_height rows i t drawn active e s d = simp (active, e, s, d)

render-Drawn :
    (window_height rows : ℕ) (t : Tracer)
    → rows_of_window window_height ≡ pos rows
    → rows ≤ total_lines t
    → InFile t
    → Drawn t (render_tracer_window window_height t)
render-Drawn window_height rows t e fits i = elim (Bool-cases (t.is_active)) [
  | inl active ↦
      let t' : Tracer = record t { visible_lines = pos rows } in
      let (drawn, d) = draw_rows-total t' rows i.start in
      record {
        after = t';
        rows = drawn;
        is_drawn = render-active window_height rows i.start t drawn active e i.start_is d;
        in_file = record {
          start = i.start;
          start_is = i.start_is;
          rows = rows;
          rows_is = refl;
          fits = fits;
        };
        same_lines = refl;
      }
  | inr idle ↦ record {
    after = t;
    rows = [];
    is_drawn = unfold render_tracer_window in simp idle;
    in_file = i;
    same_lines = refl;
  }
]

-- One event leaves the window in the file.
event-InFile :
    (window_height rows : ℕ) (event : TracerEvent) (t : Tracer)
    → rows_of_window window_height ≡ pos rows
    → rows ≤ total_lines t
    → InFile t
    → (t' : Tracer) × (handle_tracer_event window_height event t ≡ some t')
      × InFile t'
      × (t'.lines ≡ t.lines)
unfolding handle_tracer_event
event-InFile window_height rows event t e fits i = elim (Bool-cases (redraws event)) [
  | inl again ↦
      let d =
        render-Drawn window_height rows (scroll event t) e (rw (scroll_rest event t).1 fits)
          (scroll-InFile event t i) in
      (d.after, rw again (rw (d.is_drawn) refl), d.in_file, d.same_lines ∙ (scroll_rest event t).1)
  | inr still ↦ (scroll event t, rw still refl, scroll-InFile event t i, (scroll_rest event t).1)
]

loop-InFile :
    (window_height rows : ℕ) (events : List TracerEvent) (t : Tracer)
    → rows_of_window window_height ≡ pos rows
    → rows ≤ total_lines t
    → InFile t
    → (t' : Tracer) × (handle_tracer_loop window_height events t ≡ some t')
      × InFile t'
      × (t'.lines ≡ t.lines)
unfolding handle_tracer_loop
loop-InFile window_height rows [] t e fits i = (t, refl, i, refl)
loop-InFile window_height rows (event ∷ events) t e fits i =
    let (t', p, i', l) = event-InFile window_height rows event t e fits i in
    let (t'', q, i'', l') = loop-InFile window_height rows events t' e (rw l fits) i' in
    (t'', rw (p, handle_tracer_loop) q, i'', l' ∙ l)

-- While the window shows no more rows than the file has lines, no sequence of events makes it read
-- outside the lines of the file, and it stays in the file.
pub handle_tracer_events-InFile :
    (window_height rows : ℕ) (events : List TracerEvent) (t : Tracer)
    → rows_of_window window_height ≡ pos rows
    → rows ≤ total_lines t
    → InFile t
    → (t' : Tracer) × (handle_tracer_events window_height events t ≡ some t')
      × InFile t'
      × (t'.lines ≡ t.lines)
unfolding handle_tracer_events
handle_tracer_events-InFile window_height rows events t e fits i = elim (Bool-cases (t.is_active)) [
  | inl active ↦
      let (t', p, i', l) = loop-InFile window_height rows events t e fits i in
      (t', simp (active, p), i', l)
  | inr idle ↦ (t, simp idle, i, refl)
]

render-above :
    (window_height rows i : ℕ) (t : Tracer)
    → t.is_active ≡ true
    → rows_of_window window_height ≡ pos (suc rows)
    → t.display_start ≡ negsuc i
    → render_tracer_window window_height t ≡ none
unfolding render_tracer_window
render-above window_height rows i t active e s = simp (active, e, s, draw_rows-above)

page_down-start :
    (visible start : ℕ) (t : Tracer)
    → t.visible_lines ≡ pos visible
    → t.display_start ≡ pos start
    → total_lines t < visible
    → ((scroll key_page_down t).display_start ≡ negsuc (visible - total_lines t - 1))
      × ((scroll key_page_down t).is_active ≡ t.is_active)
unfolding scroll
page_down-start visible start t v s short = (simp (v, s) (ground arith), refl)

-- In a file that is shorter than the window, PAGE DOWN reads a line before the first.
pub handle_tracer_event_page_down :
    (window_height rows visible start : ℕ) (t : Tracer)
    → t.is_active ≡ true
    → rows_of_window window_height ≡ pos (suc rows)
    → t.visible_lines ≡ pos visible
    → t.display_start ≡ pos start
    → total_lines t < visible
    → handle_tracer_event window_height key_page_down t ≡ none
unfolding handle_tracer_event
handle_tracer_event_page_down window_height rows visible start t active e v s short =
    let (above, same) = page_down-start visible start t v s short in
    rw
      (
        render-above window_height rows (visible - total_lines t - 1) (scroll key_page_down t)
            (same ∙ active) e above,
        handle_tracer_event,
      )
      refl
