-- ===== src/MultiBook/Time.antt =====
-- The time of the simulator, over the calls that merge streams.
use lobsim.MultiBook.State.{MultiBookSimulator, returned, threw, Run}
use lobsim.MultiBook.Step.{step, step_until, apply_to_book, is_late}
use lobsim.MultiBook.Keeps.{Always, keeps-step, keeps-step_until, keeps-apply_to_book}
use lobsim.Base.{HashMap, Option, String, arith, false, none, some, true, ℤ, ◌≡◌, ◌≤ℤ◌}
use lobsim.MultiBook.Stream.{is_before}
use lobsim.Types.{NormalizedLobEvent}

-- A time that is not before another one; none is before every time.
abbrev pub NotBefore : Option ℤ → Option ℤ → Type 0
NotBefore none now = Unit
NotBefore (some t) none = false ≡ true
NotBefore (some t) (some now) = t ≤ℤ now

NotBefore-refl : (t : Option ℤ) → NotBefore t t
NotBefore-refl none = tt
NotBefore-refl (some t) = ground arith

NotBefore-later :
    (t now : Option ℤ) (next : ℤ)
    → NotBefore t now
    → is_before next now ≡ false
    → NotBefore t (some next)
NotBefore-later none now next h k = tt
NotBefore-later (some t) none next h k = absurd (ground (arith, h))
NotBefore-later (some t) (some now) next h k = ground (arith, h, k)

module _ ⦃H : HashMap⦄ where
  abbrev IsSince : Option ℤ → MultiBookSimulator → Type 0
  IsSince t m = (m.cfg.require_monotonic_ts_received ≡ true) × NotBefore t m.current_time

  IsSince-timed :
      (t : Option ℤ) (ev : NormalizedLobEvent) (m : MultiBookSimulator)
      → is_late ev m ≡ false
      → IsSince t m
      → IsSince t (record m { current_time = some ev.ts_received })
  IsSince-timed t ev m on_time h =
      (h.0, NotBefore-later t m.current_time ev.ts_received h.1 (ground (arith, h.0, on_time)))

  Since-of :
      {A : Type 0} (t : Option ℤ) (r : Run A)
      → Always (IsSince t) r
      → Always (λ m. NotBefore t m.current_time) r
  Since-of t (returned a m) h = h.1
  Since-of t (threw e m) h = h.1

  -- Where the configuration asks for times in order, the time of the simulator never goes back: after
  -- `step`, `step_until` and `apply_to_book`, whether they return or throw, it is not before what it was,
  -- and there is one if there was one.
  pub current_time-NotBefore :
      (m : MultiBookSimulator) (bound : ℤ) (key : String) (ev : NormalizedLobEvent)
      → m.cfg.require_monotonic_ts_received ≡ true
      → Always (λ m'. NotBefore m.current_time m'.current_time) (step m)
        × Always (λ m'. NotBefore m.current_time m'.current_time) (step_until bound m)
        × Always (λ m'. NotBefore m.current_time m'.current_time) (apply_to_book key ev m)
  current_time-NotBefore m bound key ev mono =
      let now : Option ℤ = m.current_time in
      let start : IsSince now m = (mono, NotBefore-refl now) in
      (
        Since-of now _ (keeps-step (IsSince now) (λ x s h b o p. p) (IsSince-timed now) m start),
        Since-of now _
            (keeps-step_until (IsSince now) (λ x s h b o p. p) (IsSince-timed now) bound m start),
        Since-of now _ (
            keeps-apply_to_book (IsSince now) (λ x s h b o p. p) (IsSince-timed now) key ev m
              start),
      )
