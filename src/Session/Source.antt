-- ===== src/Session/Source.antt =====
-- `run` over a source and an adapter, against `run` over the span of the adapter's events.
use lobsim.Session.Run.{run_loop-accept, run_loop-reject}
use lobsim.Session.{
  run, run_loop, run_source, run_source_loop, count_event, ended, threw, accept, rejection,
  ReplaySession, Outcome, normalize_failed, ReplayError, RunSummary, count_failure, count_raw,
  count_update, ReplayConfig, empty_summary,
}
use lobsim.Session.Step.{
  InOrder, session_after, feed, rejection-eq-none, engine-session_after, step-accept, step-reject,
}
use lobsim.Base.{
  List, Option, [], arith, false, length, none, some, suc, true, ℕ, ◌%◌, ◌+◌, ◌<◌, ◌^◌, ◌∷◌, ◌≡◌,
  Option-cases, inl, inr, refl, ◌++◌,
}
use lobsim.Types.{NormalizedLobEvent}

-- The fields that both kinds of run count.
pub record SameCounts (a b : RunSummary) : Type 0 where
  updates : a.num_engine_updates ≡ b.num_engine_updates
  normalized : a.num_normalized_events ≡ b.num_normalized_events
  found : a.has_ts_range ≡ b.has_ts_range
  least : a.first_ts_received ≡ b.first_ts_received
  greatest : a.last_ts_received ≡ b.last_ts_received

SameCounts-count_event :
    (ev : NormalizedLobEvent) (a b : RunSummary)
    → SameCounts a b
    → SameCounts (count_update (count_event ev (count_raw a))) (count_update (count_event ev b))
unfolding count_event
SameCounts-count_event ev a b h = ground arith

raw_counts :
    (ev : NormalizedLobEvent) (a : RunSummary)
    → let next = count_update (count_event ev (count_raw a)) in
      (next.num_raw_events ≡ (a.num_raw_events + 1) % 2 ^ 64)
      × (next.num_adapter_failures ≡ a.num_adapter_failures)
unfolding count_event
raw_counts ev a = (ground arith, ground arith)

module _ {E Raw : Type 0} (update : NormalizedLobEvent → E → E)
    (normalize : Raw → Option NormalizedLobEvent) where
  -- What the adapter makes of the raw events, and on how many it throws.
  abbrev pub events_of : List Raw → List NormalizedLobEvent
  events_of [] = []
  events_of (raw ∷ raws) =
      let rest = events_of raws in elim (normalize raw) [ none ↦ rest | some ev ↦ ev ∷ rest ]

  abbrev pub failures : List Raw → ℕ
  failures [] = 0
  failures (raw ∷ raws) =
      let rest = failures raws in elim (normalize raw) [ none ↦ suc rest | some ev ↦ rest ]

  -- Both runs end alike, and the run over the source has counted its raw events and its failures.
  abbrev pub SameEnd : ℕ → ℕ → Outcome update → Outcome update → Type 0
  SameEnd raw bad (ended a t) (ended b u) =
      (t ≡ u)
      × SameCounts a b
      × (a.num_raw_events ≡ raw % 2 ^ 64)
      × (a.num_adapter_failures ≡ bad % 2 ^ 64)
  SameEnd raw bad (threw e t) (threw f u) = (e ≡ f) × (t ≡ u)
  SameEnd raw bad (ended a t) (threw f u) = false ≡ true
  SameEnd raw bad (threw e t) (ended b u) = false ≡ true

  source_failed :
      (raw : Raw) (raws : List Raw) (a : RunSummary) (s : ReplaySession update)
      → s.cfg.fail_fast ≡ false
      → normalize raw ≡ none
      → run_source_loop update normalize (raw ∷ raws) a s
        ≡ run_source_loop update normalize raws (count_failure (count_raw a)) s
  unfolding run_source_loop
  source_failed raw raws a s h e = ground (arith, h, e)

  source_accept :
      (raw : Raw) (raws : List Raw) (a : RunSummary) (s : ReplaySession update)
      (ev : NormalizedLobEvent)
      → normalize raw ≡ some ev
      → rejection update ev s ≡ none
      → run_source_loop update normalize (raw ∷ raws) a s
        ≡ run_source_loop update normalize raws
            (count_update (count_event ev (count_raw a)))
            (accept update ev s)
  unfolding run_source_loop
  source_accept raw raws a s ev e ok = ground (arith, e, step-accept update ev s ok)

  source_reject :
      (raw : Raw) (raws : List Raw) (a : RunSummary) (s : ReplaySession update)
      (ev : NormalizedLobEvent) (err : ReplayError)
      → normalize raw ≡ some ev
      → rejection update ev s ≡ some err
      → run_source_loop update normalize (raw ∷ raws) a s ≡ threw err s
  unfolding run_source_loop
  source_reject raw raws a s ev err e bad = ground (arith, e, step-reject update ev s err bad)

  events_none :
      (raw : Raw) (raws : List Raw)
      → normalize raw ≡ none
      → (events_of (raw ∷ raws) ≡ events_of raws) × (failures (raw ∷ raws) ≡ suc (failures raws))
  events_none raw raws e = (ground (arith, e), ground (arith, e))

  events_some :
      (raw : Raw) (raws : List Raw) (ev : NormalizedLobEvent)
      → normalize raw ≡ some ev
      → (events_of (raw ∷ raws) ≡ ev ∷ events_of raws) × (failures (raw ∷ raws) ≡ failures raws)
  events_some raw raws ev e = (ground (arith, e), ground (arith, e))

  SameEnd-run_source_loop :
      (x y : ℕ) (raws : List Raw) (a b : RunSummary) (s : ReplaySession update)
      → s.cfg.fail_fast ≡ false
      → SameCounts a b
      → (a.num_raw_events + length raws) % 2 ^ 64 ≡ x % 2 ^ 64
      → (a.num_adapter_failures + failures raws) % 2 ^ 64 ≡ y % 2 ^ 64
      → a.num_raw_events < 2 ^ 64
      → a.num_adapter_failures < 2 ^ 64
      → SameEnd x y
          (run_source_loop update normalize raws a s)
          (run_loop update (events_of raws) b s)
  unfolding run_source_loop run_loop
  SameEnd-run_source_loop x y [] a b s lax h p q lp lq =
      (refl, h, omega (arith, p, lp), omega (arith, q, lq))
  SameEnd-run_source_loop x y (raw ∷ raws) a b s lax h p q lp lq =
      elim (Option-cases (normalize raw)) [
        | inl e ↦
            let (same, one_more) = events_none raw raws e in
            rw (source_failed raw raws a s lax e, same)
              (SameEnd-run_source_loop x y raws (count_failure (count_raw a)) b s lax
                (record {
                  updates = h.updates;
                  normalized = h.normalized;
                  found = h.found;
                  least = h.least;
                  greatest = h.greatest;
                })
                (omega (arith, p)) (omega (arith, q, one_more)) (omega arith) (omega arith))
        | inr (ev, e) ↦
            let (same, as_many) = events_some raw raws ev e in
            let counts = raw_counts ev a in
            elim (Option-cases (rejection update ev s)) [
              | inl ok ↦
                  rw
                    (
                      source_accept raw raws a s ev e ok,
                      same,
                      run_loop-accept update ev (events_of raws) b s ok,
                    )
                    (SameEnd-run_source_loop x y raws (count_update (count_event ev (count_raw a)))
                      (count_update (count_event ev b)) (accept update ev s) lax
                      (SameCounts-count_event ev a b h) (omega (arith, p, counts.0))
                      (omega (arith, q, as_many, counts.1)) (omega (arith, counts.0))
                      (omega (arith, counts.1, lq)))
              | inr (err, bad) ↦
                  rw
                    (
                      source_reject raw raws a s ev err e bad,
                      same,
                      run_loop-reject update ev (events_of raws) b s err bad,
                    )
                    (refl, refl)
            ]
      ]

  -- Where the configuration does not ask to fail fast, a run over a source does what a run over the
  -- span of the events does that the adapter makes of the raw ones, those left out on which it throws:
  -- both return, with equal sessions and with summaries that agree in both counts of events and in the
  -- range of times, or both throw the same exception with equal sessions. The summary of a run over
  -- a source that returns also counts all raw events and the failures of the adapter, modulo 2 ^ 64.
  pub run_source-SameEnd :
      (raws : List Raw) (cfg : ReplayConfig) (s : ReplaySession update)
      → cfg.fail_fast ≡ false
      → SameEnd
          (length raws)
          (failures raws)
          (run_source update normalize raws cfg s)
          (run update (events_of raws) cfg s)
  unfolding run_source run
  run_source-SameEnd raws cfg s lax =
      SameEnd-run_source_loop (length raws) (failures raws) raws empty_summary empty_summary
        (record s { cfg = cfg }) lax
        (record { updates = refl; normalized = refl; found = refl; least = refl; greatest = refl })
        (omega arith) (omega arith) (omega arith) (omega arith)

  fail_fast_loop :
      (before : List Raw) (bad : Raw) (after : List Raw) (a : RunSummary) (s : ReplaySession update)
      → s.cfg.fail_fast ≡ true
      → failures before ≡ 0
      → normalize bad ≡ none
      → InOrder s.cfg.require_monotonic_ts_received s.has_last_ts_received s.last_ts_received
          (events_of before)
      → run_source_loop update normalize (before ++ bad ∷ after) a s
        ≡ threw normalize_failed (session_after update (events_of before) s)
  unfolding run_source_loop
  fail_fast_loop [] bad after a s strict none_failed e h = ground (arith, strict, e)
  fail_fast_loop (raw ∷ before) bad after a s strict none_failed e h =
      elim (Option-cases (normalize raw)) [
        | inl failed ↦ absurd (omega (arith, none_failed, (events_none raw before failed).1))
        | inr (ev, made) ↦
            let (same, as_many) = events_some raw before ev made in
            let g = rw same at h in
            rw
              (
                source_accept raw (before ++ bad ∷ after) a s ev made
                    (rejection-eq-none update ev s g.0 g.1),
                same,
              )
              (fail_fast_loop before bad after (count_update (count_event ev (count_raw a)))
                (accept update ev s) strict (omega (arith, none_failed, as_many)) e g.2)
      ]

  -- Where the configuration asks to fail fast, a run over a source stops at the first raw event on which
  -- the adapter throws, if what came before was in order: it throws that exception again, and the engine
  -- has been fed with what the adapter made of the raw events before it.
  pub run_source-fail_fast :
      (before : List Raw) (bad : Raw) (after : List Raw) (cfg : ReplayConfig)
      (s : ReplaySession update)
      → cfg.fail_fast ≡ true
      → failures before ≡ 0
      → normalize bad ≡ none
      → InOrder cfg.require_monotonic_ts_received s.has_last_ts_received s.last_ts_received
          (events_of before)
      → (t : ReplaySession update) × (run_source update normalize (before ++ bad ∷ after) cfg s
          ≡ threw normalize_failed t)
        × (t.engine ≡ feed update (events_of before) s.engine)
  unfolding run_source
  run_source-fail_fast before bad after cfg s strict none_failed e h =
      let s' : ReplaySession update = record s { cfg = cfg } in
      (
        session_after update (events_of before) s',
        fail_fast_loop before bad after empty_summary s' strict none_failed e h,
        engine-session_after update (events_of before) s',
      )
