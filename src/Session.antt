-- ===== src/Session.antt =====
-- `ReplaySession`: cpp/include/lobsim/replay_session.hpp. It feeds an engine with events, in order
-- of their time of receipt. The engine is any `IMatchingEngine`, of which a session uses `update`.
pub mod Step
pub mod Summary
pub mod Run
pub mod Source
mod Tests
use lobsim.Base.{
  ℕ, ℤ, pos, ltb_ℤ, Bool, true, false, ◌&&◌, Option, none, some, List, [], ◌∷◌, if◌then◌else◌,
}
use lobsim.Types.{NormalizedLobEvent, next_u64}

pub record ReplayConfig : Type 0 where
  pub require_monotonic_ts_received : Bool
  pub fail_fast : Bool

abbrev pub default_config : ReplayConfig
default_config = record { require_monotonic_ts_received = true; fail_fast = true }

pub record RunSummary : Type 0 where
  pub num_raw_events : ℕ
  pub num_normalized_events : ℕ
  pub num_engine_updates : ℕ
  pub num_adapter_failures : ℕ
  pub has_ts_range : Bool
  pub first_ts_received : ℤ
  pub last_ts_received : ℤ

abbrev pub empty_summary : RunSummary
empty_summary = record {
  num_raw_events = 0;
  num_normalized_events = 0;
  num_engine_updates = 0;
  num_adapter_failures = 0;
  has_ts_range = false;
  first_ts_received = pos 0;
  last_ts_received = pos 0;
}

-- The exceptions: those of `step`, and one of the adapter that is thrown again.
pub data ReplayError : Type 0 where
  invalid_ts_received non_monotonic_ts_received normalize_failed : ReplayError

-- The range of times and the count, before the event is stepped.
pub count_event : NormalizedLobEvent → RunSummary → RunSummary
count_event ev summary =
    if summary.has_ts_range
    then record summary {
      num_normalized_events = next_u64 summary.num_normalized_events;
      first_ts_received =
          if ltb_ℤ ev.ts_received summary.first_ts_received
          then ev.ts_received
          else summary.first_ts_received;
      last_ts_received =
          if ltb_ℤ summary.last_ts_received ev.ts_received
          then ev.ts_received
          else summary.last_ts_received;
    }
    else record summary {
      num_normalized_events = next_u64 summary.num_normalized_events;
      has_ts_range = true;
      first_ts_received = ev.ts_received;
      last_ts_received = ev.ts_received;
    }

abbrev pub count_update : RunSummary → RunSummary
count_update summary = record summary { num_engine_updates = next_u64 summary.num_engine_updates }

abbrev pub count_raw : RunSummary → RunSummary
count_raw summary = record summary { num_raw_events = next_u64 summary.num_raw_events }

abbrev pub count_failure : RunSummary → RunSummary
count_failure summary = record summary {
  num_adapter_failures = next_u64 summary.num_adapter_failures;
}

module _ {E : Type 0} (update : NormalizedLobEvent → E → E) where
  -- The engine stands in the session, which holds a reference to it.
  pub record ReplaySession : Type 0 where
    pub engine : E
    pub cfg : ReplayConfig
    pub has_last_ts_received : Bool
    pub last_ts_received : ℤ

  abbrev pub new_session : E → ReplayConfig → ReplaySession
  new_session engine cfg = record {
    engine = engine;
    cfg = cfg;
    has_last_ts_received = false;
    last_ts_received = pos 0;
  }

  -- The guards of `step`: the exception, if there is one.
  abbrev pub rejection : NormalizedLobEvent → ReplaySession → Option ReplayError
  rejection ev s =
      if ltb_ℤ ev.ts_received (pos 0)
      then some invalid_ts_received
      else if s.cfg.require_monotonic_ts_received
          && (s.has_last_ts_received && ltb_ℤ ev.ts_received s.last_ts_received)
      then some non_monotonic_ts_received
      else none

  abbrev pub accept : NormalizedLobEvent → ReplaySession → ReplaySession
  accept ev s = record s {
    has_last_ts_received = true;
    last_ts_received = ev.ts_received;
    engine = update ev s.engine;
  }

  -- The exception, if there is one, and the session after the call.
  unfoldable pub step : NormalizedLobEvent → ReplaySession → Option ReplayError × ReplaySession
  step ev s = elim (rejection ev s) [ none ↦ (none, accept ev s) | some e ↦ (some e, s) ]

  pub data Outcome : Type 0 where
    ended : RunSummary → ReplaySession → Outcome
    threw : ReplayError → ReplaySession → Outcome

  -- The loop of `run` over a span.
  pub run_loop : List NormalizedLobEvent → RunSummary → ReplaySession → Outcome
  unfolding step count_event
  run_loop [] summary s = ended summary s
  run_loop (ev ∷ evs) summary s =
      let r = step ev s in
      elim r.0 [
        | none ↦ run_loop evs (count_update (count_event ev summary)) r.1
        | some e ↦ threw e r.1
      ]

  pub run : List NormalizedLobEvent → ReplayConfig → ReplaySession → Outcome
  unfolding run_loop
  run evs cfg s = run_loop evs empty_summary (record s { cfg = cfg })

  -- `run` over a source, given by the events that `next` gives until it returns false, and an adapter,
  -- whose `normalize` throws where it gives `none`.
  module _ {Raw : Type 0} (normalize : Raw → Option NormalizedLobEvent) where
    pub run_source_loop : List Raw → RunSummary → ReplaySession → Outcome
    unfolding step count_event
    run_source_loop [] summary s = ended summary s
    run_source_loop (raw ∷ raws) summary s = elim (normalize raw) [
      | none ↦
          let rest = run_source_loop raws (count_failure (count_raw summary)) s in
          if s.cfg.fail_fast then threw normalize_failed s else rest
      | some ev ↦
          let r = step ev s in
          elim r.0 [
            | none ↦ run_source_loop raws (count_update (count_event ev (count_raw summary))) r.1
            | some e ↦ threw e r.1
          ]
    ]

    pub run_source : List Raw → ReplayConfig → ReplaySession → Outcome
    unfolding run_source_loop
    run_source raws cfg s = run_source_loop raws empty_summary (record s { cfg = cfg })
