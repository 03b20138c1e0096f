-- ===== src/Session/Run.antt =====
-- `run` over a span: what it has done when it ends, and when it throws.
use lobsim.Session.Summary.{counted, IsRange, counted-IsRange, counted-num}
use lobsim.Session.{
  Outcome, run, run_loop, count_event, ended, threw, accept, rejection, ReplaySession, ReplayError,
  RunSummary, count_update, ReplayConfig, empty_summary,
}
use lobsim.Session.Step.{
  InOrder, session_after, feed, Fault, rejection-eq-none, rejection-eq-some, in_order_of_none,
  engine-session_after, step-accept, step-reject,
}
use lobsim.Base.{
  List, Option-cases, [], ap, inl, inr, none, refl, ◌++◌, ◌∷◌, ◌≡◌, some, ◌∙◌, arith, subst, sym,
  length, ◌%◌, ◌^◌,
}
use lobsim.Types.{NormalizedLobEvent}

module _ {E : Type 0} (update : NormalizedLobEvent → E → E) where
  pub run_loop-accept :
      (ev : NormalizedLobEvent) (evs : List NormalizedLobEvent) (summary : RunSummary)
      (s : ReplaySession update)
      → rejection update ev s ≡ none
      → run_loop update (ev ∷ evs) summary s
        ≡ run_loop update evs (count_update (count_event ev summary)) (accept update ev s)
  unfolding run_loop
  run_loop-accept ev evs summary s h = ground (arith, step-accept update ev s h)

  pub run_loop-reject :
      (ev : NormalizedLobEvent) (evs : List NormalizedLobEvent) (summary : RunSummary)
      (s : ReplaySession update) (e : ReplayError)
      → rejection update ev s ≡ some e
      → run_loop update (ev ∷ evs) summary s ≡ threw e s
  unfolding run_loop
  run_loop-reject ev evs summary s e h = ground (arith, step-reject update ev s e h)

  run_loop-eq-ended :
      (evs : List NormalizedLobEvent) (summary : RunSummary) (s : ReplaySession update)
      → InOrder s.cfg.require_monotonic_ts_received s.has_last_ts_received s.last_ts_received evs
      → run_loop update evs summary s ≡ ended (counted evs summary) (session_after update evs s)
  unfolding run_loop
  run_loop-eq-ended [] summary s h = refl
  run_loop-eq-ended (ev ∷ evs) summary s h =
      run_loop-accept ev evs summary s (rejection-eq-none update ev s h.0 h.1)
      ∙ (run_loop-eq-ended evs (count_update (count_event ev summary)) (accept update ev s) h.2)

  -- Where a run stopped: what came before was in order and has been fed to the engine.
  pub record StoppedAt (e : ReplayError) (evs : List NormalizedLobEvent)
      (s t : ReplaySession update) : Type 0 where
    before : List NormalizedLobEvent
    bad : NormalizedLobEvent
    after : List NormalizedLobEvent
    parts : evs ≡ before ++ bad ∷ after
    taken :
        InOrder s.cfg.require_monotonic_ts_received s.has_last_ts_received s.last_ts_received before
    fed : t.engine ≡ feed update before s.engine
    fault : Fault update e bad t

  abbrev pub Explains : List NormalizedLobEvent → ReplaySession update → Outcome update → Type 0
  Explains evs s (ended summary t) =
      InOrder s.cfg.require_monotonic_ts_received s.has_last_ts_received s.last_ts_received evs
      × (t.engine ≡ feed update evs s.engine)
  Explains evs s (threw e t) = StoppedAt e evs s t

  Explains-cons :
      (ev : NormalizedLobEvent) (evs : List NormalizedLobEvent) (s : ReplaySession update)
      (o : Outcome update)
      → rejection update ev s ≡ none
      → Explains evs (accept update ev s) o
      → Explains (ev ∷ evs) s o
  Explains-cons ev evs s (ended summary t) ok h =
      let first = in_order_of_none update ev s ok in ((first.0, first.1, h.0), h.1)
  Explains-cons ev evs s (threw e t) ok h =
      let first = in_order_of_none update ev s ok in
      record {
        before = ev ∷ h.before;
        bad = h.bad;
        after = h.after;
        parts = ap (λ (x : List NormalizedLobEvent). ev ∷ x) h.parts;
        taken = (first.0, first.1, h.taken);
        fed = h.fed;
        fault = h.fault;
      }

  Explains-run_loop :
      (evs : List NormalizedLobEvent) (summary : RunSummary) (s : ReplaySession update)
      → Explains evs s (run_loop update evs summary s)
  unfolding run_loop
  Explains-run_loop [] summary s = (tt, refl)
  Explains-run_loop (ev ∷ evs) summary s = elim (Option-cases (rejection update ev s)) [
    | inl ok ↦ subst (Explains (ev ∷ evs) s) (sym (run_loop-accept ev evs summary s ok)) (
        Explains-cons ev evs s _ ok
          (Explains-run_loop evs (count_update (count_event ev summary)) (accept update ev s)))
    | inr (e, bad) ↦
        subst (Explains (ev ∷ evs) s) (sym (run_loop-reject ev evs summary s e bad)) (record {
          before = [];
          bad = ev;
          after = evs;
          parts = refl;
          taken = tt;
          fed = refl;
          fault = rejection-eq-some update ev s e bad;
        })
  ]

  -- A run over a span, whatever the events and the configuration, has one of two ends. It returns, and
  -- then the time of each event was not negative and, where the configuration asks for it, not before
  -- that of the event before it, the session's last one included, and the engine has been fed with all
  -- of the events in their order. Or it throws at one of the events: those before it were in order and
  -- have been fed to the engine, it and those after it have not, and the exception names its fault, a
  -- negative time or, where order is asked for, a time before the last one.
  pub run-Explains :
      (evs : List NormalizedLobEvent) (cfg : ReplayConfig) (s : ReplaySession update)
      → Explains evs (record s { cfg = cfg }) (run update evs cfg s)
  unfolding run
  run-Explains evs cfg s = Explains-run_loop evs empty_summary (record s { cfg = cfg })

  -- Where the times of the events are not negative and, if the configuration asks for it, none is before
  -- that of the event before it or before the session's last one, a run over the span returns. The
  -- engine has been fed with all of them, both counts of the summary are the number of events modulo
  -- 2 ^ 64, and the range of the summary is the least and the greatest time of the events, if there
  -- is one.
  pub run-summary :
      (evs : List NormalizedLobEvent) (cfg : ReplayConfig) (s : ReplaySession update)
      → InOrder cfg.require_monotonic_ts_received s.has_last_ts_received s.last_ts_received evs
      → (summary : RunSummary) × (t : ReplaySession update) × (run update evs cfg s
          ≡ ended summary t)
        × (t.engine ≡ feed update evs s.engine)
        × (summary.num_engine_updates ≡ length evs % 2 ^ 64)
        × (summary.num_normalized_events ≡ length evs % 2 ^ 64)
        × IsRange evs summary
  unfolding run
  run-summary evs cfg s h =
      let s' : ReplaySession update = record s { cfg = cfg } in
      let counts = counted-num evs empty_summary (omega arith) (omega arith) in
      (
        counted evs empty_summary,
        session_after update evs s',
        run_loop-eq-ended evs empty_summary s' h,
        engine-session_after update evs s',
        omega (arith, counts.0),
        omega (arith, counts.1),
        counted-IsRange evs,
      )
