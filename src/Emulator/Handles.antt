-- ===== src/Emulator/Handles.antt =====
-- The handles of SDL in a run: none is freed that is not there.
pub mod Debug
pub mod Run
use ben_eater.Common.{
  ℕ, suc, zero, ◌+◌, ◌-◌, ◌≤◌, ◌<◌, ◌≡◌, refl, ap, ◌∙◌, Bool, true, false, Option, some, List, [],
  ◌∷◌, ◌++◌, Text, arith, inl, inr, Option-cases,
}
use ben_eater.Common.Chain.{◌>>=◌}
use ben_eater.Tracer.{load_list_file}
use ben_eater.Tracer.Window.{
  Sdl, SdlCall, Setup, any_font, open_window, init_tracer_window, cleanup_tracer, call_if,
  started_ttf, made_window, made_renderer, opened_font, quit_ttf, destroyed_window,
  destroyed_renderer, closed_font,
}
use ben_eater.Tracer.Window.Held.{Handles, nothing, one_less, after_call, after_calls}
use ben_eater.Emulator.{Round, State}
use ben_eater.Emulator.Commands.{after_setup, close_tracer}
use ben_eater.Emulator.Loop.{cleaned_up}

-- SDL and its fonts make what they are asked for.
pub record Makes (sdl : Sdl) : Type 0 where
  pub ttf : sdl.ttf_init ≡ true
  pub window : sdl.create_window ≡ true
  pub renderer : sdl.create_renderer ≡ true
  pub font : any_font sdl ≡ true

abbrev pub AllMake : Round → Type 0
AllMake r = Makes r.sdl

abbrev count : Bool → ℕ
count true = 1
count false = 0

-- The calls so far have freed nothing that was not there, and each handle that the globals hold is.
pub record Holds (s : Setup) (calls : List SdlCall) : Type 0 where
  pub handles : Handles
  pub made : after_calls calls nothing ≡ some handles
  pub window : count s.window ≤ handles.windows
  pub renderer : count s.renderer ≤ handles.renderers
  pub font : count s.font ≤ handles.fonts

abbrev pub IsHeld : State → Type 0
IsHeld s = Holds s.setup s.sdl_calls

after_calls-append :
    (xs ys : List SdlCall) (h : Handles)
    → after_calls (xs ++ ys) h ≡ (after_calls xs h >>= after_calls ys)
after_calls-append [] ys h = refl
after_calls-append (x ∷ xs) ys h = elim (Option-cases (after_call x h)) [
  | inl e ↦ rw (e, after_calls) refl
  | inr (h', e) ↦ rw (e, after_calls) (after_calls-append xs ys h')
]

-- Calls behind those that are there.
followed :
    (xs ys : List SdlCall) (h h' : Handles)
    → after_calls xs nothing ≡ some h
    → after_calls ys h ≡ some h'
    → after_calls (xs ++ ys) nothing ≡ some h'
followed xs ys h h' p q = after_calls-append xs ys nothing ∙ rw p q

one_less-some : (n : ℕ) → 0 < n → one_less n ≡ some (n - 1)
one_less-some zero h = absurd (omega arith)
one_less-some (suc n) h = ap some (omega arith)

free_window :
    (b : Bool) (rest : List SdlCall) (h : Handles)
    → count b ≤ h.windows
    → (h' : Handles) × (after_calls (call_if b destroyed_window rest) h ≡ after_calls rest h')
free_window false rest h k = (h, refl)
free_window true rest h k =
    (record h { windows = h.windows - 1 }, rw (one_less-some h.windows k, after_calls) refl)

free_renderer :
    (b : Bool) (rest : List SdlCall) (h : Handles)
    → count b ≤ h.renderers
    → (h' : Handles) × (after_calls (call_if b destroyed_renderer rest) h ≡ after_calls rest h')
      × (h'.windows ≡ h.windows)
free_renderer false rest h k = (h, refl, refl)
free_renderer true rest h k = (
  record h { renderers = h.renderers - 1 },
  rw (one_less-some h.renderers k, after_calls) refl,
  refl,
)

free_font :
    (b : Bool) (rest : List SdlCall) (h : Handles)
    → count b ≤ h.fonts
    → (h' : Handles) × (after_calls (call_if b closed_font rest) h ≡ after_calls rest h')
      × (h'.windows ≡ h.windows)
      × (h'.renderers ≡ h.renderers)
free_font false rest h k = (h, refl, refl, refl)
free_font true rest h k =
    (record h { fonts = h.fonts - 1 }, rw (one_less-some h.fonts k, after_calls) refl, refl, refl)

-- The clean-up frees what the globals hold.
cleanup_tracer-Holds :
    (s : Setup) (calls : List SdlCall)
    → Holds s calls
    → Holds (cleanup_tracer s).0 (calls ++ (cleanup_tracer s).1)
unfolding cleanup_tracer
cleanup_tracer-Holds s calls h =
    let behind_renderer = call_if s.window destroyed_window (quit_ttf ∷ []) in
    let behind_font = call_if s.renderer destroyed_renderer behind_renderer in
    let (h1, p1, w1, r1) = free_font s.font behind_font h.handles h.font in
    let (h2, p2, w2) = free_renderer s.renderer behind_renderer h1 (rw r1 h.renderer) in
    let (h3, p3) = free_window s.window (quit_ttf ∷ []) h2 (rw (w2, w1) h.window) in
    record {
      handles = record h3 { ttf = h3.ttf - 1 };
      made =
          followed calls (call_if s.font closed_font behind_font) h.handles _ h.made (p1 ∙ p2 ∙ p3);
      window = omega arith;
      renderer = omega arith;
      font = omega arith;
    }

one_more : Handles → Handles
one_more h = record {
  ttf = suc h.ttf;
  windows = suc h.windows;
  renderers = suc h.renderers;
  fonts = suc h.fonts;
}

open_window-Holds :
    (sdl : Sdl) (s : Setup) (calls : List SdlCall)
    → Makes sdl
    → Holds s calls
    → Holds (open_window sdl s).0 (calls ++ (open_window sdl s).1)
unfolding open_window one_more
open_window-Holds sdl s calls makes h =
    rw (makes.ttf, makes.window, makes.renderer, makes.font)
      (record {
        handles = one_more h.handles;
        made =
            followed calls (started_ttf ∷ made_window ∷ made_renderer ∷ opened_font ∷ []) h.handles
              (one_more h.handles) h.made refl;
        window = omega arith;
        renderer = omega arith;
        font = omega arith;
      })

init_tracer_window-Holds :
    (sdl : Sdl) (file : Option Text) (s : Setup) (calls : List SdlCall)
    → Makes sdl
    → Holds s calls
    → Holds (init_tracer_window sdl file s).0 (calls ++ (init_tracer_window sdl file s).1)
unfolding init_tracer_window
init_tracer_window-Holds sdl file s calls makes h =
    elim (Option-cases (load_list_file file s.tracer)) [
      | inl e ↦
          rw (e, init_tracer_window)
            (record {
              handles = h.handles;
              made = followed calls [] h.handles h.handles h.made refl;
              window = h.window;
              renderer = h.renderer;
              font = h.font;
            })
      | inr (t, e) ↦
          rw (e, init_tracer_window)
            (open_window-Holds sdl (record s { tracer = t }) calls makes
              (record {
                handles = h.handles;
                made = h.made;
                window = h.window;
                renderer = h.renderer;
                font = h.font;
              }))
    ]

pub after_setup-IsHeld :
    (sdl : Sdl) (file : Option Text) (s : State)
    → Makes sdl
    → IsHeld s
    → IsHeld (after_setup (init_tracer_window sdl file s.setup) s)
after_setup-IsHeld sdl file s = init_tracer_window-Holds sdl file s.setup s.sdl_calls

pub close_tracer-IsHeld : (s : State) → IsHeld s → IsHeld (close_tracer s)
unfolding close_tracer
close_tracer-IsHeld s = cleanup_tracer-Holds s.setup s.sdl_calls

pub cleaned_up-IsHeld : (s : State) → IsHeld s → IsHeld (cleaned_up s)
cleaned_up-IsHeld s = cleanup_tracer-Holds s.setup s.sdl_calls

-- The same handles and calls, whatever the tracer and the history are.
pub same-Holds :
    (s t : Setup) (calls : List SdlCall)
    → t.window ≡ s.window
    → t.renderer ≡ s.renderer
    → t.font ≡ s.font
    → Holds s calls
    → Holds t calls
same-Holds s t calls window renderer font h = record {
  handles = h.handles;
  made = h.made;
  window = rw window h.window;
  renderer = rw renderer h.renderer;
  font = rw font h.font;
}
