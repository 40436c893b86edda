-- ===== src/Emulator/Paused/Debug.antt =====
-- What a command of the debugger leaves of the program that it has stopped.
use ben_eater.Common.{◌≡◌, refl, ap, Option, List, [], ◌∷◌, Text, inl, inr, Option-cases}
use ben_eater.Common.Chain.{IfSome, IfSome-map}
use ben_eater.CallStack.{handle_up_command}
use ben_eater.Inspect.Write.{handle_write_command-changes}
use ben_eater.Emulator.{State, After, Round}
use ben_eater.Emulator.Commands.{Letter, write, up, letter, cut_newline, debug}
use ben_eater.Emulator.Paused.{IsPaused, Paused, SameRun-refl}
use ben_eater.Emulator.Plain.{plain_letter, plain_command, plain_read, plain_debug}
use ben_eater.Emulator.Plain.Debug.{debug-Gives}
use ben_eater.Emulator.View.{Program, program_of}

untouched : (p : Program) → IsPaused p p
untouched p = (inl (λ b. refl), SameRun-refl p)

plain_letter-IsPaused :
    (l : Letter) (input : Text) (p : Program) → IsPaused p (plain_letter l input p).1
unfolding plain_letter
plain_letter-IsPaused write input p =
    (handle_write_command-changes input p.machine.ram, SameRun-refl p)
plain_letter-IsPaused up input p =
    elim (Option-cases (handle_up_command p.symbol_list p.cpu.sp p.call_stack p.breakpoints)) [
      | inl e ↦ rw (e, plain_letter) (untouched p)
      | inr (t, e) ↦ rw (e, plain_letter) (untouched p)
    ]
plain_letter-IsPaused _ input p = untouched p

plain_command-IsPaused : (input : Text) (p : Program) → IsPaused p (plain_command input p).1
plain_command-IsPaused [] p = untouched p
plain_command-IsPaused (c ∷ rest) p = plain_letter-IsPaused (letter c) (c ∷ rest) p

plain_read-IsPaused : (lines : List Text) (p : Program) → IsPaused p (plain_read lines p).1
plain_read-IsPaused [] p = untouched p
plain_read-IsPaused (line ∷ rest) p =
    plain_command-IsPaused (cut_newline line) (record p { stdin = rest })

shown-IsPaused : (p q r : Program) → r ≡ q → IsPaused p q → IsPaused p r
shown-IsPaused p q r e h = rw e h

-- Whatever is typed and whatever windows open, the debugger leaves the registers, the calls of the
-- LCD, the clocks, the counters, the call stack and the symbols of the program that it has stopped,
-- and at most one byte of its memory changes, wherever the commands stay within the arrays of the
-- debugger.
pub debug-Paused :
    (files : Text → Option Text) (list_file : Option Text) (r : Round) (s : State)
    → IfSome (λ (t : After × State). Paused s t.1) (debug files list_file r s)
debug-Paused files list_file r s =
    let q = plain_debug (program_of s) in
    IfSome-map (λ (t : After × State). (t.0, program_of t.1) ≡ q)
      (λ (t : After × State). Paused s t.1) (debug files list_file r s)
      (λ t e.
        shown-IsPaused (program_of s) q.1 (program_of t.1) (ap (λ (x : After × Program). x.1) e)
          (plain_read-IsPaused s.stdin (program_of s)))
      (debug-Gives files r list_file s)
