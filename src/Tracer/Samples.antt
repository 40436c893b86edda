-- ===== src/Tracer/Samples.antt =====
-- Runs of the tracer window on a list file of three lines, and the theorems on them.
use ben_eater.Common.{
  ℕ, ◌+◌, ◌<◌, ◌≤◌, ◌≡◌, ◌⊎◌, refl, true, none, some, List, [], ◌∷◌, codes, hex4, arith,
}
use ben_eater.Common.Int.{ℤ, pos}
use ben_eater.Tracer.{
  Tracer, total_lines, load_list_file, find_pc_line, update_tracer_display, rows_of_window,
  render_tracer_window,
}
use ben_eater.Tracer.View.{FirstLine, update_tracer_display_shows}
use ben_eater.Tracer.Scroll.{
  TracerEvent, key_up, key_down, key_page_up, key_page_down, resized, quit, handle_tracer_event,
  handle_tracer_events,
}
use ben_eater.Tracer.Safety.{InFile, handle_tracer_events-InFile, handle_tracer_event_page_down}

-- A tracer of the three lines that shows `visible` of them from line `start` on.
abbrev listing : ℤ → ℤ → Tracer
listing start visible = record {
  lines =
      codes "00:8000 A9FF  lda #$ff"
      ∷ codes "00:8002 8D02  sta $6002"
      ∷ codes "              ; end"
      ∷ [];
  current_pc_line = none;
  display_start = start;
  visible_lines = visible;
  is_active = true;
}

loaded :
    load_list_file (some (codes "one\ntwo\r\n\nlast")) (listing (pos 0) (pos 2))
    ≡ some (record (listing (pos 0) (pos 2)) {
      lines = codes "one" ∷ codes "two" ∷ [] ∷ codes "last" ∷ [];
    })
unfolding load_list_file
loaded = refl

found : find_pc_line (listing (pos 0) (pos 2)) 0x8002 ≡ some 2
unfolding find_pc_line hex4
found = refl

not_found : find_pc_line (listing (pos 0) (pos 2)) 0x8003 ≡ none
unfolding find_pc_line hex4
not_found = refl

drawn :
    render_tracer_window 40 (update_tracer_display 0x8002 (listing (pos 0) (pos 1)))
    ≡ some (
      record (listing (pos 1) (pos 1)) { current_pc_line = some 2 },
      record { highlight = true; display_text = codes "-> 00:8002 8D02  sta $6002" } ∷ [],
    )
unfolding render_tracer_window update_tracer_display find_pc_line hex4
drawn = refl

update_tracer_display_shows_example :
    FirstLine (hex4 0x8002) (listing (pos 0) (pos 1)).lines 0 2
    × ((update_tracer_display 0x8002 (listing (pos 0) (pos 1))).current_pc_line ≡ some 2)
    × ((start : ℕ) × ((update_tracer_display 0x8002 (listing (pos 0) (pos 1))).display_start
          ≡ pos start)
        × (start < 2)
        × (2 ≤ start + 1)
        × ((start ≡ 0) ⊎ (start + 1 ≤ total_lines (listing (pos 0) (pos 1)))))
unfolding find_pc_line hex4
update_tracer_display_shows_example =
    update_tracer_display_shows 0x8002 2 1 (listing (pos 0) (pos 1)) refl refl (omega arith) refl

abbrev keys : List TracerEvent
keys = key_page_down ∷ key_down ∷ key_up ∷ resized ∷ key_page_up ∷ key_down ∷ quit ∷ []

handle_tracer_events-InFile_example :
    (t' : Tracer) × (handle_tracer_events 60 keys (listing (pos 0) (pos 2)) ≡ some t')
    × InFile t'
    × (t'.lines ≡ (listing (pos 0) (pos 2)).lines)
unfolding rows_of_window
handle_tracer_events-InFile_example =
    handle_tracer_events-InFile 60 2 keys (listing (pos 0) (pos 2)) refl (omega arith)
      (record { start = 0; start_is = refl; rows = 2; rows_is = refl; fits = omega arith })

handle_tracer_event_page_down_example :
    handle_tracer_event 160 key_page_down (listing (pos 0) (pos 7)) ≡ none
unfolding rows_of_window
handle_tracer_event_page_down_example =
    handle_tracer_event_page_down 160 6 7 0 (listing (pos 0) (pos 7)) refl refl refl refl
      (omega arith)
