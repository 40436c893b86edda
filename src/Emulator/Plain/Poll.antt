-- ===== src/Emulator/Plain/Poll.antt =====
-- The polling of a round refines that of the reference, where no window is open.
use ben_eater.Common.{◌≡◌, refl, ap, List, [], ◌∷◌, ◌++◌, if_both, if_pair, inl, inr, Bool-cases}
use ben_eater.Common.Chain.{IfSome}
use ben_eater.Emulator.{SdlEvent, sdl_quit, window_resized, sdl_other, key_down_event, Round, State}
use ben_eater.Emulator.Execute.{key_pressed, is_interrupt, poll_events, poll_tracer, polled_in}
use ben_eater.Emulator.Plain.{plain_poll, plain_polled}
use ben_eater.Emulator.Windowless.{NoWindow}
use ben_eater.Emulator.Windowless.Run.{poll_tracer-closed}
use ben_eater.Emulator.View.{Program, program_of, Shows}

-- The program and what is left in the queue.
abbrev left_with : State × List SdlEvent → Program
left_with r = record (program_of r.0) { queue = r.1 }

poll_events-Shows :
    (events : List SdlEvent) (s : State)
    → left_with (poll_events events s) ≡ plain_poll events (program_of s)
unfolding poll_events plain_poll
poll_events-Shows [] s = refl
poll_events-Shows (sdl_quit ∷ events) s =
    if_pair (λ (r : State × List SdlEvent) (p : Program). left_with r ≡ p) s.step_enabled _ _ _ _
      refl (poll_events-Shows events _)
poll_events-Shows (key_down_event key ctrl ∷ events) s = elim (Bool-cases (is_interrupt key ctrl)) [
  | inl e ↦ rw (e, poll_events) (rw (e, plain_poll) (poll_events-Shows events _))
  | inr e ↦ rw (e, poll_events) (rw (e, plain_poll) (poll_events-Shows events (key_pressed key s)))
]
poll_events-Shows (window_resized ∷ events) s = poll_events-Shows events s
poll_events-Shows (sdl_other ∷ events) s = poll_events-Shows events s

-- The keys and the other events leave the tracer's window and the terminal alone.
poll_events-NoWindow :
    (events : List SdlEvent) (s : State) → NoWindow s → NoWindow (poll_events events s).0
unfolding poll_events
poll_events-NoWindow [] s h = h
poll_events-NoWindow (sdl_quit ∷ events) s h =
    if_both (λ (r : State × List SdlEvent). NoWindow r.0) s.step_enabled _ _ h
      (poll_events-NoWindow events _ h)
poll_events-NoWindow (key_down_event key ctrl ∷ events) s h =
    elim (Bool-cases (is_interrupt key ctrl)) [
      | inl e ↦ rw (e, poll_events) (poll_events-NoWindow events _ h)
      | inr e ↦ rw (e, poll_events) (poll_events-NoWindow events (key_pressed key s) h)
    ]
poll_events-NoWindow (window_resized ∷ events) s h = poll_events-NoWindow events s h
poll_events-NoWindow (sdl_other ∷ events) s h = poll_events-NoWindow events s h

-- Where no window is open, the queue keeps what comes.
pub polled_in-Shows :
    (r : Round) (s : State)
    → NoWindow s
    → IfSome
        (Shows (plain_polled r (program_of s)))
        (poll_tracer r ((polled_in r s).1 ++ r.arrived) (polled_in r s).0)
polled_in-Shows r s h =
    let polled = polled_in r s in
    rw
      (poll_tracer-closed r (polled.1 ++ r.arrived) polled.0
        (poll_events-NoWindow (s.queue ++ r.polled) s h))
      (ap (λ (p : Program). record p { queue = p.queue ++ r.arrived })
        (poll_events-Shows (s.queue ++ r.polled) s))
