-- ===== src/Emulator/Invariant.antt =====
-- How an invariant of the rounds of the loop is proved: from the debugger and from `execute`.
use ben_eater.Common.{
  ℕ, true, ◌||◌, Option, List, [], ◌∷◌, Text, inl, inr, Bool-cases, Option-cases,
}
use ben_eater.Common.Chain.{IfSome, OrElse, OrElse-bind}
use ben_eater.Breakpoints.{is_breakpoint}
use ben_eater.Emulator.{Core, Round, State, After, next_round, go_on, end_loop}
use ben_eater.Emulator.Commands.{debug}
use ben_eater.Emulator.Execute.{execute}
use ben_eater.Emulator.Loop.{at_breakpoint, after_debug, round, rounds, later, Run, running, ended}

-- The state that the rounds have come to.
abbrev pub state_of : Run → State
state_of (running s) = s
state_of (ended s) = s

-- Of each round.
abbrev pub Each : (Round → Type 0) → List Round → Type 0
Each G [] = Unit {0}
Each G (r ∷ rs) = G r × Each G rs

Each-Unit : (rs : List Round) → Each (λ r. Unit) rs
Each-Unit [] = tt
Each-Unit (r ∷ rs) = (tt, Each-Unit rs)

module _ (P : State → Type 0) where
  -- Of what a part of a round leaves.
  abbrev pub KeptAfter : Option (After × State) → Type 0
  KeptAfter = IfSome (λ (r : After × State). P r.1)

  -- Of what the rounds have come to.
  abbrev pub KeptRun : Option Run → Type 0
  KeptRun = IfSome (λ r. P (state_of r))

-- The same for a result that may be required to be there: `E` is what holds where it is missing.
module _ (E : Type 0) (P : State → Type 0) where
  abbrev Behind : Option (After × State) → Type 0
  Behind = OrElse E (λ (r : After × State). P r.1)

  abbrev BehindRounds : Option Run → Type 0
  BehindRounds = OrElse E (λ r. P (state_of r))

  later-kept :
      (after : After) (s : State) (rest : Option Run)
      → P s
      → BehindRounds rest
      → BehindRounds (later after s rest)
  later-kept end_loop s rest h k = h
  later-kept next_round s rest h k = k
  later-kept go_on s rest h k = k

  module _ (core : Core) (files : Text → Option Text) (irq_interval : ℕ) (list_file : Option Text)
      (G : Round → Type 0) (stopped : (s : State) → P s → P (record s { step_enabled = true }))
      (debugged : (r : Round) (s : State) → G r → P s → Behind (debug files list_file r s))
      (executed : (r : Round) (s : State) → P s → Behind (execute core irq_interval r s)) where
    at_breakpoint-kept : (s : State) → P s → P (at_breakpoint s)
    at_breakpoint-kept s h = elim (Bool-cases (is_breakpoint s.breakpoints s.cpu.pc)) [
      | inl e ↦ rw e (stopped s h)
      | inr e ↦ rw e h
    ]

    after_debug-kept :
        (r : Round) (t : After × State)
        → P t.1
        → Behind (after_debug core files irq_interval list_file r t)
    after_debug-kept r (next_round, s) h = h
    after_debug-kept r (end_loop, s) h = h
    after_debug-kept r (go_on, s) h = executed r s h

    pub round-kept :
        (r : Round) (s : State) → G r → P s → Behind (round core files irq_interval list_file r s)
    unfolding round
    round-kept r s g h =
        let h' = at_breakpoint-kept s h in
        elim (Bool-cases ((at_breakpoint s).step_enabled)) [
          | inl e ↦ simp e (
              OrElse-bind E (λ (t : After × State). P t.1) (λ (t : After × State). P t.1)
                (debug files list_file r (at_breakpoint s))
                (after_debug core files irq_interval list_file r)
                (debugged r (at_breakpoint s) g h') (λ t. after_debug-kept r t))
          | inr e ↦ simp e (executed r (at_breakpoint s) h')
        ]

    -- Where the world of each round is as `G` says.
    pub rounds-kept_where :
        (rs : List Round) (s : State)
        → Each G rs
        → P s
        → BehindRounds (rounds core files irq_interval list_file rs s)
    unfolding rounds
    rounds-kept_where [] s g h = h
    rounds-kept_where (r ∷ rs) s g h = elim (Bool-cases (s.break_loop || r.quit_flag)) [
      | inl e ↦ rw (e, rounds) h
      | inr e ↦ elim (Option-cases (round core files irq_interval list_file r s)) [
        | inl p ↦
            let kept = round-kept r s g.0 h in
            let missing : E = rw p at kept in rw (e, rounds) (rw p missing)
        | inr ((after, s'), p) ↦
            let kept = round-kept r s g.0 h in
            let h' : P s' = rw p at kept in
            rw (e, rounds)
              (rw p (
                later-kept after s' (rounds core files irq_interval list_file rs s') h'
                  (rounds-kept_where rs s' g.1 h')))
      ]
    ]

  -- Whatever the world does.
  pub rounds-kept :
      (core : Core) (files : Text → Option Text) (irq_interval : ℕ) (list_file : Option Text)
      → ((s : State) → P s → P (record s { step_enabled = true }))
      → ((r : Round) (s : State) → P s → Behind (debug files list_file r s))
      → ((r : Round) (s : State) → P s → Behind (execute core irq_interval r s))
      → (rs : List Round) (s : State) → P s
      → BehindRounds (rounds core files irq_interval list_file rs s)
  rounds-kept core files irq_interval list_file stopped debugged executed rs s =
      rounds-kept_where core files irq_interval list_file (λ r. Unit) stopped
        (λ r t g. debugged r t) executed rs s (Each-Unit rs)
