-- ===== src/Tracer/Window.antt =====
-- tools/benEater_simulator/simulator.c: `init_tracer_window` and `cleanup_tracer`. What the calls of
-- SDL and its fonts give is an argument, and the calls that make and free something are recorded.
pub mod Held
mod Samples
use ben_eater.Common.{
  ℕ, Bool, true, false, ◌||◌, not, Option, none, some, List, [], ◌∷◌, ◌++◌, Text, codes, dec_text,
  if◌then◌else◌,
}
use ben_eater.Common.Int.{pos}
use ben_eater.Tracer.{Tracer, total_lines, load_list_file}
use ben_eater.Trace.{Trace, init_trace_history}

-- Whether TTF_Init, SDL_CreateWindow and SDL_CreateRenderer succeed, which of the four fonts open, and
-- the text of an error.
pub record Sdl : Type 0 where
  pub ttf_init : Bool
  pub create_window : Bool
  pub create_renderer : Bool
  pub open_font : ℕ → Bool
  pub error_text : Text

pub data SdlCall : Type 0 where
  started_ttf made_window made_renderer opened_font : SdlCall
  quit_ttf destroyed_window destroyed_renderer closed_font : SdlCall

-- The globals, with the handles of `TracerWindow` that are not NULL.
pub record Setup : Type 0 where
  pub tracer : Tracer
  pub trace : Trace
  pub window : Bool
  pub renderer : Bool
  pub font : Bool

abbrev pub any_font : Sdl → Bool
any_font sdl = sdl.open_font 0 || sdl.open_font 1 || sdl.open_font 2 || sdl.open_font 3

abbrev pub ready : Tracer → Tracer
ready t = record t {
  visible_lines = pos 25;
  is_active = true;
  current_pc_line = none;
  display_start = pos 0;
}

-- The part of `init_tracer_window` behind the list file; the result tells whether it returns 1.
unfoldable pub open_window : Sdl → Setup → Setup × List SdlCall × Bool
unfolding init_trace_history
open_window sdl s =
    if not sdl.ttf_init
    then (s, [], false)
    else if not sdl.create_window
    then (record s { window = false }, started_ttf ∷ quit_ttf ∷ [], false)
    else if not sdl.create_renderer
    then (
      record s { window = true; renderer = false },
      started_ttf ∷ made_window ∷ destroyed_window ∷ quit_ttf ∷ [],
      false,
    )
    else if not (any_font sdl)
    then (
      record s { window = true; renderer = true; font = false },
      started_ttf ∷ made_window ∷ made_renderer ∷ destroyed_renderer ∷ destroyed_window ∷ quit_ttf
          ∷ [],
      false,
    )
    else (
      record {
        tracer = ready s.tracer;
        trace = init_trace_history s.trace;
        window = true;
        renderer = true;
        font = true;
      },
      started_ttf ∷ made_window ∷ made_renderer ∷ opened_font ∷ [],
      true,
    )

unfoldable pub init_tracer_window : Sdl → Option Text → Setup → Setup × List SdlCall × Bool
unfolding open_window load_list_file
init_tracer_window sdl file s = elim (load_list_file file s.tracer) [
  | none ↦ (s, [], false)
  | some t ↦ open_window sdl (record s { tracer = t })
]

-- What `init_tracer_window` prints behind the list file.
unfoldable pub window_text : Sdl → Text
window_text sdl =
    if not sdl.ttf_init
    then codes "TTF_Init failed: " ++ sdl.error_text ++ codes "\n"
    else if not sdl.create_window
    then codes "Failed to create tracer window: " ++ sdl.error_text ++ codes "\n"
    else if not sdl.create_renderer
    then codes "Failed to create tracer renderer: " ++ sdl.error_text ++ codes "\n"
    else if not (any_font sdl)
    then codes "Failed to load font, tracer disabled\n"
    else []

-- What it prints of a list file of that name.
unfoldable pub setup_text : Sdl → Text → Option Text → Tracer → Text
unfolding load_list_file window_text dec_text
setup_text sdl list_filename file t = elim (load_list_file file t) [
  | none ↦ codes "Failed to open list file: " ++ list_filename ++ codes "\n"
  | some t' ↦
      codes "Loaded "
      ++ dec_text (total_lines t')
      ++ codes " lines from list file\n"
      ++ window_text sdl
]

abbrev pub call_if : Bool → SdlCall → List SdlCall → List SdlCall
call_if made call calls = if made then call ∷ calls else calls

-- The memset sets every field of `tracer` to 0, also `current_pc_line`.
abbrev pub zeroed : Tracer
zeroed = record {
  lines = [];
  current_pc_line = some 0;
  display_start = pos 0;
  visible_lines = pos 0;
  is_active = false;
}

unfoldable pub cleanup_tracer : Setup → Setup × List SdlCall
cleanup_tracer s = (
  record {
    tracer = zeroed;
    trace = record s.trace { is_allocated = false };
    window = false;
    renderer = false;
    font = false;
  },
  call_if s.font closed_font
      (call_if s.renderer destroyed_renderer (call_if s.window destroyed_window (quit_ttf ∷ []))),
)
