-- ===== src/Emulator/Free/Run.antt =====
-- A run in which the debugger does not come up ends at the magic opcode.
use ben_eater.Common.{
  ℕ, ◌≡◌, refl, ◌∙◌, ap, true, false, Option, some, List, [], ◌∷◌, ◌++◌, Text, ◌==◌,
}
use ben_eater.Emulator.{Core, Round, State, After, next_round, end_loop}
use ben_eater.Emulator.Commands.{is_named}
use ben_eater.Emulator.Execute.{magic_opcde}
use ben_eater.Emulator.Loop.{round, rounds, later, ended, finish, started, run_emulator_loop}
use ben_eater.Emulator.Plain.{plain_polled}
use ben_eater.Emulator.Plain.Rounds.{round-given}
use ben_eater.Emulator.Plain.Run.{finish-given}
use ben_eater.Emulator.View.{Program, program_of}
use ben_eater.Emulator.Windowless.{NoWindow}
use ben_eater.Emulator.Free.{
  opcode_of, IsFree, instruction_of, free_run, IsCalm, RunsFreely, instruction_of-IsFree,
  plain_round-instruction, plain_round-magic,
}

module _ (core : Core) (irq_interval : ℕ) (files : Text → Option Text) (list_file : Option Text)
    (no_file : is_named list_file ≡ false) where
  rounds-later :
      (r : Round) (rs : List Round) (s t : State) (after : After)
      → s.break_loop ≡ false
      → r.quit_flag ≡ false
      → round core files irq_interval list_file r s ≡ some (after, t)
      → rounds core files irq_interval list_file (r ∷ rs) s
        ≡ later after t (rounds core files irq_interval list_file rs t)
  unfolding rounds
  rounds-later r rs s t after no_break no_signal p =
      rw (no_break, rounds) (rw (no_signal, rounds) (rw (p, rounds) refl))

  -- The rounds run up to the magic opcode.
  rounds-free_run :
      (rs : List Round) (last : Round) (more : List Round) (s : State)
      → NoWindow s
      → IsFree (program_of s)
      → RunsFreely core irq_interval rs (program_of s)
      → IsCalm core irq_interval last (free_run core irq_interval rs (program_of s))
      → (opcode_of (plain_polled last (free_run core irq_interval rs (program_of s)))
          == magic_opcde)
        ≡ true
      → (t : State) × (rounds core files irq_interval list_file (rs ++ (last ∷ more)) s
          ≡ some (ended t))
        × (program_of t ≡ plain_polled last (free_run core irq_interval rs (program_of s)))
  rounds-free_run [] last more s h free runs calm magic =
      let ((after, t), p, k, same) =
        round-given core files irq_interval list_file last s _ no_file h
          (plain_round-magic core irq_interval last (program_of s) calm free magic) in
      let ends : after ≡ end_loop = ap (λ (x : After × Program). x.0) same in
      (
        t,
        rounds-later last more s t after free.1 calm.no_signal p
            ∙ ap (λ a. later a t (rounds core files irq_interval list_file more t)) ends,
        ap (λ (x : After × Program). x.1) same,
      )
  rounds-free_run (r ∷ rs) last more s h free (first, other, runs) calm magic =
      let ((after, s'), p, k, same) =
        round-given core files irq_interval list_file r s _ no_file h
          (plain_round-instruction core irq_interval r (program_of s) first free other) in
      let goes_on : after ≡ next_round = ap (λ (x : After × Program). x.0) same in
      let next : program_of s' ≡ instruction_of core irq_interval r (program_of s) =
        ap (λ (x : After × Program). x.1) same in
      let (t, q, reached) =
        rounds-free_run rs last more s' k
          (rw next (instruction_of-IsFree core irq_interval r (program_of s) first free))
          (rw next runs) (rw next calm) (rw next magic) in
      (
        t,
        rounds-later r (rs ++ (last ∷ more)) s s' after free.1 first.no_signal p
            ∙ ap
                (λ a.
                  later a s' (rounds core files irq_interval list_file (rs ++ (last ∷ more)) s'))
                goes_on
            ∙ q,
        reached ∙ ap (λ x. plain_polled last (free_run core irq_interval rs x)) next,
      )

  run_emulator_loop-ended :
      (rs : List Round) (s t t' : State)
      → rounds core files irq_interval list_file rs (started s) ≡ some (ended t)
      → finish t ≡ some t'
      → run_emulator_loop core files irq_interval list_file rs s ≡ some (ended t')
  unfolding run_emulator_loop
  run_emulator_loop-ended rs s t t' p q = rw p (rw q refl)

-- The loop runs the instructions of the program: where no window is open, no list file is named and
-- no line that is left begins with `u` or `v`, where no signal, no Ctrl+C, no SDL_QUIT and no
-- breakpoint comes, and where the opcode of the last round is the first to be 0xFF, the run ends,
-- whatever rounds would follow, and the program has gone through the rounds before one by one, each
-- with its keys, the call stack that follows the opcode, one instruction of the core, and the IRQ
-- when it is due.
pub run_emulator_loop-free_run :
    (core : Core) (files : Text → Option Text) (irq_interval : ℕ) (list_file : Option Text)
    (rs : List Round) (last : Round) (more : List Round) (s : State)
    → is_named list_file ≡ false
    → NoWindow s
    → RunsFreely core irq_interval rs (program_of (started s))
    → IsCalm core irq_interval last (free_run core irq_interval rs (program_of (started s)))
    → opcode_of (plain_polled last (free_run core irq_interval rs (program_of (started s)))) ≡ 0xFF
    → (t : State) × (run_emulator_loop core files irq_interval list_file (rs ++ (last ∷ more)) s
        ≡ some (ended t))
      × (program_of t ≡ plain_polled last (free_run core irq_interval rs (program_of (started s))))
run_emulator_loop-free_run core files irq_interval list_file rs last more s no_file h runs calm
      magic =
    let (t, p, reached) =
      rounds-free_run core irq_interval files list_file no_file rs last more (started s) h
        (refl, refl) runs calm (ap (λ x. x == magic_opcde) magic) in
    let (t', q, u, same) = finish-given t in
    (
      t',
      run_emulator_loop-ended core irq_interval files list_file no_file (rs ++ (last ∷ more)) s t t'
          p q,
      same ∙ reached,
    )
