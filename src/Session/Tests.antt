-- ===== src/Session/Tests.antt =====
-- Sessions that feed the simulator, over the entry lists of Base/Assoc.
use lobsim.Base.{
  assoc_map, pos, true, false, Option, some, none, List, [], ◌∷◌, ◌++◌, refl, arith, length, ◌%◌,
  ◌^◌, ◌≡◌,
}
use lobsim.Session.{
  new_session, default_config, ReplaySession, run, ended, threw, run_source, normalize_failed,
  ReplayConfig, RunSummary,
}
use lobsim.Session.Step.{feed, InOrder}
use lobsim.Engine.Update.{update}
use lobsim.Engine.Tests.{quotes, buyer, config}
use lobsim.Engine.State.{init}
use lobsim.Session.Run.{Explains, run-Explains, run-summary}
use lobsim.Session.Source.{SameEnd, events_of, run_source-SameEnd, run_source-fail_fast}
use lobsim.Session.Summary.{IsRange}
use lobsim.Types.{NormalizedLobEvent}

abbrev session : ReplaySession update
session = new_session update (init config) default_config

-- A time before the last one.
abbrev late : NormalizedLobEvent
late = record buyer { ts_received = pos 0 }

abbrev not_read : List (Option NormalizedLobEvent)
not_read = some buyer ∷ none ∷ some buyer ∷ []

abbrev lax : ReplayConfig
lax = record default_config { fail_fast = false }

quotes-InOrder : InOrder true false (pos 0) quotes
quotes-InOrder = (
  omega arith,
  λ m h. ground (arith, h),
  (omega arith, λ m h. omega arith, (omega arith, λ m h. omega arith, tt)),
)

run-Explains_example :
    Explains update
      (quotes ++ late ∷ [])
      session
      (run update (quotes ++ late ∷ []) default_config session)
run-Explains_example = run-Explains update (quotes ++ late ∷ []) default_config session

run-summary_example :
    (summary : RunSummary) × (t : ReplaySession update) × (run update quotes default_config session
      ≡ ended summary t)
    × (t.engine ≡ feed update quotes (init config))
    × (summary.num_engine_updates ≡ length quotes % 2 ^ 64)
    × (summary.num_normalized_events ≡ length quotes % 2 ^ 64)
    × IsRange quotes summary
run-summary_example = run-summary update quotes default_config session quotes-InOrder

run_source-SameEnd_example :
    SameEnd update
      (λ x. x)
      3
      1
      (run_source update (λ x. x) not_read lax session)
      (run update (events_of update (λ x. x) not_read) lax session)
run_source-SameEnd_example = run_source-SameEnd update (λ x. x) not_read lax session refl

run_source-fail_fast_example :
    (t : ReplaySession update) × (run_source update (λ x. x) not_read default_config session
      ≡ threw normalize_failed t)
    × (t.engine ≡ feed update (buyer ∷ []) (init config))
run_source-fail_fast_example =
    run_source-fail_fast update (λ x. x) (some buyer ∷ []) none (some buyer ∷ []) default_config
      session refl refl refl (omega arith, (λ m h. ground (arith, h)), tt)
