-- ===== src/CallStack/Frames.antt =====
-- The call stack by the list of its frames.
use native.Mathlib.Numerals.{add-one}
use ben_eater.Common.{
  ℕ, zero, suc, ◌+◌, ◌-◌, ◌≤◌, ◌<◌, ◌≡◌, refl, ap, ne→==_false, ◌∙◌, true, false, List, [], ◌∷◌,
  ◌++◌, length, leb, if◌then◌else◌, arith, inl, inr, Bool-cases,
}
use ben_eater.Common.Array.{update, window, window-update}
use mathlib.Core.Path.{ap₂}
use ben_eater.Symbols.{SymbolEntry}
use ben_eater.CallStack.{
  Subroutine, CallStack, max_call_stack, subroutine_label, push_subroutine_call,
  pop_subroutine_call, frames, CallEvent, jsr, rts, track,
}

-- All but the last element.
abbrev pub but_last : List Subroutine → List Subroutine
but_last [] = []
but_last (x ∷ []) = []
but_last (x ∷ y ∷ ys) = x ∷ but_last (y ∷ ys)

-- A call on a stack with room adds its frame at the end, a call on a full stack adds nothing.
pub frames-push :
    (symbol_list : List SymbolEntry) (jsr_address : ℕ) (s : CallStack)
    → frames (push_subroutine_call symbol_list jsr_address s).0 ≡ (
        if leb max_call_stack s.call_stack_depth
        then frames s
        else frames s
          ++ (record { address = jsr_address; label = subroutine_label symbol_list jsr_address }
              ∷ []))
unfolding push_subroutine_call
frames-push symbol_list jsr_address s = elim (Bool-cases (leb max_call_stack s.call_stack_depth)) [
  | inl full ↦ rw full
  | inr room ↦
      rw (room, add-one)
        (window-update s.call_stack 0 s.call_stack_depth s.call_stack_depth _ (omega arith))
]

window-but_last :
    (arr : ℕ → Subroutine) (i n k : ℕ) (v : Subroutine)
    → k ≡ i + n
    → window (update arr k v) i n ≡ but_last (window arr i (suc n))
window-but_last arr i zero k v e = refl
window-but_last arr i (suc n) k v e =
    ap₂ ◌∷◌ (rw (ne→==_false i k (omega arith))) (window-but_last arr (suc i) n k v (omega arith))

-- A return takes the last frame away, and leaves an empty stack empty.
pub frames-pop : (s : CallStack) → frames (pop_subroutine_call s).0 ≡ but_last (frames s)
unfolding pop_subroutine_call
frames-pop s = go s.call_stack_depth refl
  where
    go :
        (n : ℕ)
        → s.call_stack_depth ≡ n
        → frames (pop_subroutine_call s).0 ≡ but_last (window s.call_stack 0 s.call_stack_depth)
    go zero e = simp e
    go (suc n) e =
        let short : suc n - 1 ≡ n = omega arith in
        simp (e, short, ne→==_false (suc n) 0 (omega arith))
          (window-but_last s.call_stack 0 n n _ (omega arith))

but_last-append : (xs : List Subroutine) (x : Subroutine) → but_last (xs ++ (x ∷ [])) ≡ xs
but_last-append [] x = refl
but_last-append (y ∷ []) x = refl
but_last-append (y ∷ z ∷ ys) x = ap (◌∷◌ y) (but_last-append (z ∷ ys) x)

depth-push :
    (symbol_list : List SymbolEntry) (a : ℕ) (s : CallStack)
    → s.call_stack_depth < max_call_stack
    → (push_subroutine_call symbol_list a s).0.call_stack_depth ≡ s.call_stack_depth + 1
unfolding push_subroutine_call
depth-push symbol_list a s h = ground arith

depth-pop : (s : CallStack) → (pop_subroutine_call s).0.call_stack_depth ≡ s.call_stack_depth - 1
unfolding pop_subroutine_call
depth-pop s = ground arith

-- The calls and returns on a list of frames, oldest first: a call of an address adds its frame where
-- fewer than 50 are open, and a return takes the last one away.
abbrev pub called : List SymbolEntry → CallEvent → List Subroutine → List Subroutine
called symbol_list (jsr jsr_address) calls =
    if leb 50 (length calls)
    then calls
    else calls
      ++ (record { address = jsr_address; label = subroutine_label symbol_list jsr_address } ∷ [])
called symbol_list rts calls = but_last calls

abbrev pub open_calls : List SymbolEntry → List CallEvent → List Subroutine → List Subroutine
open_calls symbol_list [] calls = calls
open_calls symbol_list (event ∷ events) calls =
    open_calls symbol_list events (called symbol_list event calls)

length-window : (arr : ℕ → Subroutine) (i n : ℕ) → length (window arr i n) ≡ n
length-window arr i zero = refl
length-window arr i (suc n) = omega (arith, length-window arr (suc i) n)

-- The array with its depth implements the list.
pub frames-track :
    (symbol_list : List SymbolEntry) (events : List CallEvent) (s : CallStack)
    → frames (track symbol_list events s) ≡ open_calls symbol_list events (frames s)
unfolding track
frames-track symbol_list [] s = refl
frames-track symbol_list (jsr a ∷ events) s =
    frames-track symbol_list events (push_subroutine_call symbol_list a s).0
    ∙ ap (open_calls symbol_list events)
        (frames-push symbol_list a s ∙ rw (length-window s.call_stack 0 s.call_stack_depth) refl)
frames-track symbol_list (rts ∷ events) s =
    frames-track symbol_list events (pop_subroutine_call s).0
    ∙ ap (open_calls symbol_list events) (frames-pop s)

-- Runs in which every call returns, with at most `h` calls open at once.
pub data Balanced : ℕ → List CallEvent → Type 0 where
  quiet : {h : ℕ} → Balanced h []
  nested :
      {h : ℕ} {inner rest : List CallEvent} (a : ℕ)
      → Balanced h inner
      → Balanced (suc h) rest
      → Balanced (suc h) (jsr a ∷ (inner ++ (rts ∷ rest)))

pub track-append :
    (symbol_list : List SymbolEntry) (xs ys : List CallEvent) (s : CallStack)
    → track symbol_list (xs ++ ys) s ≡ track symbol_list ys (track symbol_list xs s)
unfolding track
track-append symbol_list [] ys s = refl
track-append symbol_list (jsr a ∷ xs) ys s = track-append symbol_list xs ys _
track-append symbol_list (rts ∷ xs) ys s = track-append symbol_list xs ys _

-- The same frames at the same depth.
abbrev pub SameFrames : CallStack → CallStack → Type 0
SameFrames s t = (frames s ≡ frames t) × (s.call_stack_depth ≡ t.call_stack_depth)

return-SameFrames :
    (symbol_list : List SymbolEntry) (a : ℕ) (s t : CallStack)
    → s.call_stack_depth < max_call_stack
    → SameFrames t (push_subroutine_call symbol_list a s).0
    → SameFrames (pop_subroutine_call t).0 s
return-SameFrames symbol_list a s t room same = (
  frames-pop t ∙ rw (same.0, frames-push symbol_list a s, room_test) (but_last-append (frames s) _),
  omega (arith, depth-pop t, depth-push symbol_list a s room),
)
  where
    room_test : leb max_call_stack s.call_stack_depth ≡ false
    room_test = ground arith

-- A run in which every call returns, with no more calls open than the array has room for, leaves
-- the frames as they were.
pub track-Balanced :
    (symbol_list : List SymbolEntry) {h : ℕ} {events : List CallEvent} (s : CallStack)
    → Balanced h events
    → s.call_stack_depth + h ≤ max_call_stack
    → SameFrames (track symbol_list events s) s
unfolding track
track-Balanced symbol_list s quiet room = (refl, refl)
track-Balanced symbol_list s (nested {h = h} {inner = inner} {rest = rest} a b c) room =
    let pushed = (push_subroutine_call symbol_list a s).0 in
    let inside = track symbol_list inner pushed in
    let popped = (pop_subroutine_call inside).0 in
    let i =
      track-Balanced symbol_list pushed b
        (omega (arith, depth-push symbol_list a s (omega arith))) in
    let r = return-SameFrames symbol_list a s inside (omega arith) i in
    let k = track-Balanced symbol_list popped c (omega (arith, r.1)) in
    rw (track-append symbol_list inner (rts ∷ rest) pushed) (k.0 ∙ r.0, k.1 ∙ r.1)

-- A call that finds the stack full is lost, and its return takes away the frame of a call that is
-- still open.
pub frames-pop-push_full :
    (symbol_list : List SymbolEntry) (a : ℕ) (s : CallStack)
    → max_call_stack ≤ s.call_stack_depth
    → frames (pop_subroutine_call (push_subroutine_call symbol_list a s).0).0 ≡ but_last (frames s)
frames-pop-push_full symbol_list a s h =
    frames-pop (push_subroutine_call symbol_list a s).0
    ∙ rw (frames-push symbol_list a s, full) refl
  where
    full : leb max_call_stack s.call_stack_depth ≡ true
    full = ground arith
