-- ===== src/Session/Step.antt =====
-- Which events a session takes, and what has become of the engine after them.
use lobsim.Session.{
  invalid_ts_received, non_monotonic_ts_received, normalize_failed, accept, ReplaySession,
  ReplayError, rejection, step,
}
use lobsim.Types.{NormalizedLobEvent}
use lobsim.Base.{
  Bool, List, [], pos, true, ℤ, ◌∷◌, ◌≡◌, ◌≤ℤ◌, Bool-cases, arith, false, inl, inr, none, refl,
  some, ◌<ℤ◌,
}
use lobsim.Engine.BestPrice.{has}

-- Times that are not negative, and, where it is asked for, none before the last one.
abbrev pub InOrder : Bool → Bool → ℤ → List NormalizedLobEvent → Type 0
InOrder mono has_last last [] = Unit
InOrder mono has_last last (ev ∷ evs) =
    (pos 0 ≤ℤ ev.ts_received)
    × (mono ≡ true → has_last ≡ true → last ≤ℤ ev.ts_received)
    × InOrder mono true ev.ts_received evs

module _ {E : Type 0} (update : NormalizedLobEvent → E → E) where
  -- The engine after the events.
  abbrev pub feed : List NormalizedLobEvent → E → E
  feed [] engine = engine
  feed (ev ∷ evs) engine = feed evs (update ev engine)

  abbrev pub session_after : List NormalizedLobEvent → ReplaySession update → ReplaySession update
  session_after [] s = s
  session_after (ev ∷ evs) s = session_after evs (accept update ev s)

  pub engine-session_after :
      (evs : List NormalizedLobEvent) (s : ReplaySession update)
      → (session_after evs s).engine ≡ feed evs s.engine
  engine-session_after [] s = refl
  engine-session_after (ev ∷ evs) s = engine-session_after evs (accept update ev s)

  cfg-session_after :
      (evs : List NormalizedLobEvent) (s : ReplaySession update) → (session_after evs s).cfg ≡ s.cfg
  cfg-session_after [] s = refl
  cfg-session_after (ev ∷ evs) s = cfg-session_after evs (accept update ev s)

  -- The guards of `step` pass exactly what is in order.
  pub rejection-eq-none :
      (ev : NormalizedLobEvent) (s : ReplaySession update)
      → pos 0 ≤ℤ ev.ts_received
      → (s.cfg.require_monotonic_ts_received ≡ true
          → s.has_last_ts_received ≡ true
          → s.last_ts_received ≤ℤ ev.ts_received)
      → rejection update ev s ≡ none
  rejection-eq-none ev s h k = elim (Bool-cases s.cfg.require_monotonic_ts_received) [
    | inl mono ↦ elim (Bool-cases s.has_last_ts_received) [
      | inl has ↦ ground (arith, h, mono, has, k mono has)
      | inr fresh ↦ ground (arith, h, mono, fresh)
    ]
    | inr free ↦ ground (arith, h, free)
  ]

  -- What each exception of `step` says.
  abbrev pub Fault : ReplayError → NormalizedLobEvent → ReplaySession update → Type 0
  Fault invalid_ts_received ev s = ev.ts_received <ℤ pos 0
  Fault non_monotonic_ts_received ev s =
      (s.cfg.require_monotonic_ts_received ≡ true)
      × (s.has_last_ts_received ≡ true)
      × (pos 0 ≤ℤ ev.ts_received)
      × (ev.ts_received <ℤ s.last_ts_received)
  Fault normalize_failed ev s = true ≡ false

  pub rejection-eq-some :
      (ev : NormalizedLobEvent) (s : ReplaySession update) (e : ReplayError)
      → rejection update ev s ≡ some e
      → Fault e ev s
  rejection-eq-some ev s invalid_ts_received h = ground (arith, h)
  rejection-eq-some ev s non_monotonic_ts_received h =
      (ground (arith, h), ground (arith, h), ground (arith, h), ground (arith, h))
  rejection-eq-some ev s normalize_failed h = ground (arith, h)

  pub in_order_of_none :
      (ev : NormalizedLobEvent) (s : ReplaySession update)
      → rejection update ev s ≡ none
      → (pos 0 ≤ℤ ev.ts_received)
        × (s.cfg.require_monotonic_ts_received ≡ true
            → s.has_last_ts_received ≡ true
            → s.last_ts_received ≤ℤ ev.ts_received)
  in_order_of_none ev s h = (ground (arith, h), λ mono has. ground (arith, h, mono, has))

  pub step-accept :
      (ev : NormalizedLobEvent) (s : ReplaySession update)
      → rejection update ev s ≡ none
      → step update ev s ≡ (none, accept update ev s)
  unfolding step
  step-accept ev s h = rw (h, step)

  pub step-reject :
      (ev : NormalizedLobEvent) (s : ReplaySession update) (e : ReplayError)
      → rejection update ev s ≡ some e
      → step update ev s ≡ (some e, s)
  unfolding step
  step-reject ev s e h = rw (h, step)
