-- ===== src/CallStack/Samples.antt =====
-- Runs of the call stack, and the theorems on them at concrete inputs.
use ben_eater.Common.{ℕ, ◌≡◌, refl, none, some, List, [], ◌∷◌, codes, arith}
use ben_eater.Symbols.{SymbolEntry}
use ben_eater.CallStack.{Subroutine, CallStack, push_subroutine_call, pop_subroutine_call, frames}
use ben_eater.CallStack.Frames.{but_last, frames-pop-push_full}

abbrev symbols : List SymbolEntry
symbols = record { symbol_name = codes "main"; address = 0x8000 } ∷ []

abbrev frame : ℕ → Subroutine
frame address = record { address = address; label = none }

abbrev no_calls : CallStack
no_calls = record { call_stack = λ i. frame 0; call_stack_depth = 0 }

abbrev full_stack : CallStack
full_stack = record { call_stack = λ i. frame i; call_stack_depth = 50 }

labels :
    frames (push_subroutine_call symbols 0x8005 no_calls).0
    ≡ record { address = 0x8005; label = some (codes "main+5") } ∷ []
unfolding push_subroutine_call
labels = refl

frames-pop-push_full_example :
    frames (pop_subroutine_call (push_subroutine_call symbols 0x8000 full_stack).0).0
    ≡ but_last (frames full_stack)
frames-pop-push_full_example = frames-pop-push_full symbols 0x8000 full_stack (omega arith)
