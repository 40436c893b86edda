-- ===== src/Tracer/Window/Held.antt =====
-- What the window's code makes and frees.
use ben_eater.Common.{
  ℕ, zero, suc, ◌-◌, ◌≡◌, ◌⊎◌, refl, Bool, true, false, Option, none, some, List, [], ◌∷◌, Text,
  arith, inl, inr, Bool-cases, Option-cases,
}
use ben_eater.Tracer.{Tracer, load_list_file}
use ben_eater.Tracer.Window.{
  Sdl, SdlCall, Setup, any_font, open_window, init_tracer_window, cleanup_tracer, started_ttf,
  made_window, made_renderer, opened_font, quit_ttf, destroyed_window, destroyed_renderer,
  closed_font,
}

-- What is made and not yet freed.
pub record Handles : Type 0 where
  pub ttf : ℕ
  pub windows : ℕ
  pub renderers : ℕ
  pub fonts : ℕ

abbrev pub nothing : Handles
nothing = record { ttf = 0; windows = 0; renderers = 0; fonts = 0 }

abbrev pub everything : Handles
everything = record { ttf = 1; windows = 1; renderers = 1; fonts = 1 }

-- `none` is the freeing of what is not there. (TTF_Quit does nothing then.)
abbrev pub one_less : ℕ → Option ℕ
one_less zero = none
one_less (suc n) = some n

abbrev pub with_windows : Handles → Option ℕ → Option Handles
with_windows h none = none
with_windows h (some n) = some (record h { windows = n })

abbrev pub with_renderers : Handles → Option ℕ → Option Handles
with_renderers h none = none
with_renderers h (some n) = some (record h { renderers = n })

abbrev pub with_fonts : Handles → Option ℕ → Option Handles
with_fonts h none = none
with_fonts h (some n) = some (record h { fonts = n })

abbrev pub after_call : SdlCall → Handles → Option Handles
after_call started_ttf h = some (record h { ttf = suc h.ttf })
after_call made_window h = some (record h { windows = suc h.windows })
after_call made_renderer h = some (record h { renderers = suc h.renderers })
after_call opened_font h = some (record h { fonts = suc h.fonts })
after_call quit_ttf h = some (record h { ttf = h.ttf - 1 })
after_call destroyed_window h = with_windows h (one_less h.windows)
after_call destroyed_renderer h = with_renderers h (one_less h.renderers)
after_call closed_font h = with_fonts h (one_less h.fonts)

abbrev pub after_calls : List SdlCall → Handles → Option Handles
after_calls [] h = some h
after_calls (call ∷ calls) h = elim (after_call call h) [
  | none ↦ none
  | some h' ↦ after_calls calls h'
]

-- From no handles: a failed set-up has freed what it made, and a successful one holds one of each,
-- which the clean-up frees.
abbrev pub IsBalanced : Setup × List SdlCall × Bool → Type 0
IsBalanced (s, calls, done) =
    ((done ≡ false) × (after_calls calls nothing ≡ some nothing))
    ⊎ ((done ≡ true)
        × (after_calls calls nothing ≡ some everything)
        × (after_calls (cleanup_tracer s).1 everything ≡ some nothing))

open_window-IsBalanced : (sdl : Sdl) (s : Setup) → IsBalanced (open_window sdl s)
unfolding open_window cleanup_tracer
open_window-IsBalanced sdl s = elim (Bool-cases (sdl.ttf_init)) [
  | inr failed ↦ rw failed (inl (refl, refl))
  | inl ttf ↦ elim (Bool-cases (sdl.create_window)) [
    | inr failed ↦ rw (ttf, failed) (inl (refl, refl))
    | inl window ↦ elim (Bool-cases (sdl.create_renderer)) [
      | inr failed ↦ rw (ttf, window, failed) (inl (refl, refl))
      | inl renderer ↦ elim (Bool-cases (any_font sdl)) [
        | inr failed ↦ rw (ttf, window, renderer, failed) (inl (refl, refl))
        | inl font ↦ rw (ttf, window, renderer, font) (inr (refl, refl, refl))
      ]
    ]
  ]
]

-- Of the handles of SDL (TTF, the window, the renderer and the font): whatever SDL answers, a set-up
-- of the tracer's window that fails has freed all those that it made; one that succeeds holds one of
-- each, and the clean-up frees them.
pub init_tracer_window-IsBalanced :
    (sdl : Sdl) (file : Option Text) (s : Setup) → IsBalanced (init_tracer_window sdl file s)
unfolding init_tracer_window
init_tracer_window-IsBalanced sdl file s = elim (Option-cases (load_list_file file s.tracer)) [
  | inl e ↦ rw (e, init_tracer_window) (inl (refl, refl))
  | inr (t, e) ↦ rw (e, init_tracer_window) (open_window-IsBalanced sdl (record s { tracer = t }))
]

-- The two ways in which a set-up fails with a window made.
abbrev pub FailsBehindWindow : Sdl → Type 0
FailsBehindWindow sdl =
    (sdl.ttf_init ≡ true)
    × (sdl.create_window ≡ true)
    × ((sdl.create_renderer ≡ false) ⊎ ((sdl.create_renderer ≡ true) × (any_font sdl ≡ false)))

open_window-cleanup :
    (sdl : Sdl) (s : Setup)
    → FailsBehindWindow sdl
    → after_calls (cleanup_tracer (open_window sdl s).0).1 nothing ≡ none
unfolding open_window cleanup_tracer
open_window-cleanup sdl s (ttf, window, inl renderer) = rw (ttf, window, renderer) (ground arith)
open_window-cleanup sdl s (ttf, window, inr (renderer, fonts)) =
    rw (ttf, window, renderer, fonts) (ground arith)

-- A set-up that fails once its window is made leaves the freed window's handle in the globals: the
-- clean-up at the end of the run frees what is already freed.
pub cleanup_tracer-init_tracer_window :
    (sdl : Sdl) (file : Option Text) (t : Tracer) (s : Setup)
    → load_list_file file s.tracer ≡ some t
    → FailsBehindWindow sdl
    → after_calls (cleanup_tracer (init_tracer_window sdl file s).0).1 nothing ≡ none
unfolding init_tracer_window
cleanup_tracer-init_tracer_window sdl file t s loads fails =
    rw (loads, init_tracer_window) (open_window-cleanup sdl (record s { tracer = t }) fails)
