-- ===== src/MultiBook/Bounded.antt =====
-- Which events `step_until` applies, by the moves of MultiBook/Moves.
use lobsim.MultiBook.Step.{pending}
use lobsim.MultiBook.Reachable.{run_calls-Merges}
use lobsim.MultiBook.Step.{unread_all}
use lobsim.MultiBook.Steps.{StepEnds, step-StepEnds}
use lobsim.Base.{
  string_eq, if_cases, set as set_at, HashMap, arith, get_elem?, inl, inr, refl, suc, true, zero, ℕ,
  ℤ, ◌≡◌, ◌≤ℤ◌, ==ℕ_iff, Bool, Bool-cases, List, String, [], ap, get_elem?-set_ne, ltb_ℤ, none,
  subst, ◌==ℕ◌, ◌∙◌, ◌∷◌, ◌≢◌, false,
}
use lobsim.MultiBook.Merge.{stream, strategy, EntryKind, HeapEntry}
use lobsim.MultiBook.Stream.{fill_buffer, prime_streams, put_stream}
use lobsim.MultiBook.State.{
  returned, threw, Run, MultiBookSimulator, new_simulator, StreamState, Config,
}
use lobsim.MultiBook.Step.{
  apply_to_book, step_strategy, step_stream, step_entry, step_heap, step, until_loop, step_until,
}
use lobsim.MultiBook.Filled.{
  EndsAs, Ends, EndsAs-both, EndsAs-map, EndsAs-then_run, Valid, Valid-prime_streams,
}
use lobsim.MultiBook.Ready.{Fills, Fills-fill_buffer, is_ready}
use lobsim.MultiBook.Primed.{AllReady, step_ready, PrimesAll, PrimesAll-prime_streams}
use lobsim.MultiBook.Steps.{apply_to_book_keeps}
use lobsim.MultiBook.Keeps.{Always}
use lobsim.MultiBook.Calls.{state_after}
use lobsim.MultiBook.Moves.{
  MovesBy, begun, took_stream, took_strategy, RunsBy, MovesBy-fill_buffer, MovesBy-prime_streams,
}
use lobsim.MultiBook.Valid.{Merges}
use lobsim.MultiBook.Changes.{Merges-pop_strategy, Merges-pop_stream}
use lobsim.MultiBook.Calls.{Call, run_calls}
use lobsim.Engine.State.{heap}
use lobsim.Types.{NormalizedLobEvent}

module _ ⦃H : HashMap⦄ where
  EndsAs-Always :
      {A : Type 0} (Q : A → MultiBookSimulator → Type 0) (S P : MultiBookSimulator → Type 0)
      (r : Run A)
      → EndsAs Q S r
      → Always P r
      → EndsAs (λ a m. Q a m × P m) P r
  EndsAs-Always Q S P (returned a m) h k = (h, k)
  EndsAs-Always Q S P (threw e m) h k = (h.0, k)

  module _ (bound : ℤ) (start : MultiBookSimulator) where
    abbrev By : ℕ → MultiBookSimulator → Type 0
    By n m = MovesBy bound start n m

    abbrev BySome : MultiBookSimulator → Type 0
    BySome m = (n : ℕ) × By n m

    -- A step takes an entry.
    abbrev Goes : ℕ → Bool → MultiBookSimulator → Type 0
    Goes n went m = (went ≡ true) × AllReady m × By (suc n) m

    By-run :
        (n : ℕ) (s : List StreamState) (r : Run (Unit {0}))
        → By n (state_after r)
        → Ends (λ x. x.streams ≡ s) r
        → EndsAs (λ _ x. By n x × (x.streams ≡ s)) BySome r
    By-run n s (returned a m) by h = (by, h)
    By-run n s (threw e m) by h = (h.0, (n, by))

    By-apply_to_book :
        (n : ℕ) (key : String) (ev : NormalizedLobEvent) (m : MultiBookSimulator)
        → By n (state_after (apply_to_book key ev m))
        → EndsAs (λ _ x. By n x × (x.streams ≡ m.streams)) BySome (apply_to_book key ev m)
    By-apply_to_book n key ev m by =
        By-run n m.streams (apply_to_book key ev m) by (
          apply_to_book_keeps (λ x. x.streams ≡ m.streams) (λ x b o p. p) key ev m (λ _. refl) refl)

    By-step_strategy :
        (n : ℕ) (entry : HeapEntry) (rest : List HeapEntry) (m : MultiBookSimulator)
        → m.heap ≡ entry ∷ rest
        → entry.kind ≡ strategy
        → Merges m.streams m.strategy_events (entry ∷ rest)
        → entry.ts_received ≤ℤ bound
        → AllReady m
        → By n m
        → EndsAs (Goes n) BySome (step_strategy entry (record m { heap = rest }))
    unfolding step_strategy
    By-step_strategy n entry rest m top kind v le ready by =
        let (item, found, received, exchange) =
          (Merges-pop_strategy m.streams m.strategy_events entry rest kind v).0 in
        let popped : MultiBookSimulator = record m { heap = rest } in
        rw (found, step_strategy)
          (EndsAs-then_run (λ _ x. By (suc n) x × (x.streams ≡ m.streams)) (Goes n) BySome
            (apply_to_book item.ev.symbol_id item.ev popped) (λ _ m'. returned true m')
            (By-apply_to_book (suc n) item.ev.symbol_id item.ev popped
              (took_strategy n m entry rest item top kind found (rw received at le) by))
            (λ _ m' p.
              (refl, λ j. rw (ap (λ (s : List StreamState). get_elem? s j) p.1) (ready j), p.0)))

    -- The streams after the stream of the entry has been filled again.
    ready_again :
        (i : ℕ) (ss : StreamState) (m x y : MultiBookSimulator)
        → AllReady m
        → x.streams ≡ set_at m.streams i ss
        → Fills i (unread_all x.streams) x y
        → AllReady y
    ready_again i ss m x y ready same f j = elim (Bool-cases (i ==ℕ j)) [
      | inl here ↦
          subst (λ (k : ℕ). is_ready (get_elem? y.streams k) ≡ true) ((==ℕ_iff i j).0 here) f.ready
      | inr other ↦
          let ne : i ≢ j = λ e. ground (arith, other, e) in
          let back : get_elem? y.streams j ≡ get_elem? m.streams j =
            f.others j ne
            ∙ ap (λ (s : List StreamState). get_elem? s j) same
            ∙ get_elem?-set_ne m.streams i j ss ne in
          rw back (ready j)
    ]

    By-step_stream :
        (n : ℕ) (entry : HeapEntry) (rest : List HeapEntry) (m : MultiBookSimulator)
        → m.heap ≡ entry ∷ rest
        → entry.kind ≡ stream
        → Merges m.streams m.strategy_events (entry ∷ rest)
        → entry.ts_received ≤ℤ bound
        → AllReady m
        → By n m
        → EndsAs (Goes n) BySome (step_stream entry (record m { heap = rest }))
    unfolding step_stream
    By-step_stream n entry rest m top kind v le ready by =
        let (ss, ev, found, full, received, v') =
          Merges-pop_stream m.streams m.strategy_events entry rest kind v in
        let i = entry.stream_index in
        let taken : StreamState = record ss { buffered = none } in
        let popped : MultiBookSimulator = put_stream i taken (record m { heap = rest }) in
        rw (found, step_stream)
          (rw (full, step_stream)
            (EndsAs-then_run (λ _ x. By (suc n) x × (x.streams ≡ popped.streams)) (Goes n) BySome
              (apply_to_book ss.book_key ev popped) _
              (By-apply_to_book (suc n) ss.book_key ev popped
                (took_stream n m entry rest ss ev top kind found full (rw received at le) by))
              (λ _ x p.
                EndsAs-then_run (λ _ y. Fills i (unread_all x.streams) x y × By (suc n) y) (Goes n)
                  BySome (fill_buffer i x) (λ _ y. returned true y)
                  (EndsAs-map (λ _ y. Fills i (unread_all x.streams) x y × By (suc n) y)
                    (λ _ y. Fills i (unread_all x.streams) x y × By (suc n) y) (By (suc n)) BySome
                    (fill_buffer i x) (λ _ _ h. h) (λ _ h. (suc n, h))
                    (EndsAs-Always (λ _. Fills i (unread_all x.streams) x) (λ _. Unit) (By (suc n))
                      (fill_buffer i x) (Fills-fill_buffer i x)
                      (MovesBy-fill_buffer bound start (suc n) i x p.0)))
                  (λ _ y q. (refl, ready_again i taken m x y ready p.1 q.0, q.1)))))

    By-step_entry :
        (k : EntryKind) (n : ℕ) (entry : HeapEntry) (rest : List HeapEntry) (m : MultiBookSimulator)
        → m.heap ≡ entry ∷ rest
        → entry.kind ≡ k
        → Merges m.streams m.strategy_events (entry ∷ rest)
        → entry.ts_received ≤ℤ bound
        → AllReady m
        → By n m
        → EndsAs (Goes n) BySome (step_entry entry (record m { heap = rest }))
    unfolding step_entry
    By-step_entry strategy n entry rest m top kind v le ready by =
        rw (kind, step_entry) (By-step_strategy n entry rest m top kind v le ready by)
    By-step_entry stream n entry rest m top kind v le ready by =
        rw (kind, step_entry) (By-step_stream n entry rest m top kind v le ready by)

    By-step :
        (n : ℕ) (entry : HeapEntry) (rest : List HeapEntry) (m : MultiBookSimulator)
        → m.heap ≡ entry ∷ rest
        → Valid m
        → entry.ts_received ≤ℤ bound
        → AllReady m
        → By n m
        → EndsAs (Goes n) BySome (step m)
    unfolding step_heap
    By-step n entry rest m top v le ready by = rw (step_ready m ready) (
        rw (top, step_heap)
          (By-step_entry entry.kind n entry rest m top refl (rw top at v) le ready by))

    By-after_step :
        (n : ℕ) (went : Bool) (m : MultiBookSimulator) (go_on : Run ℕ)
        → StepEnds went m × Goes n went m
        → (Valid m → EndsAs By BySome go_on)
        → EndsAs By BySome (elim went [ true ↦ go_on | false ↦ returned n m ])
    By-after_step n true m go_on h f = f h.0
    By-after_step n false m go_on h f = absurd (ground (arith, h.1.0))

    By-until_loop :
        (fuel : ℕ) (n : ℕ) (heap : List HeapEntry) (m : MultiBookSimulator)
        → m.heap ≡ heap
        → Valid m
        → AllReady m
        → By n m
        → EndsAs By BySome (until_loop fuel bound n m)
    unfolding until_loop
    By-until_loop zero n heap m top v ready by = by
    By-until_loop (suc fuel) n [] m top v ready by = rw (top, until_loop) by
    By-until_loop (suc fuel) n (entry ∷ rest) m top v ready by =
        rw (top, until_loop)
          (if_cases (EndsAs By BySome) (ltb_ℤ bound entry.ts_received) _ _ (λ _. by)
            (λ not_after.
              EndsAs-then_run (λ went x. StepEnds went x × Goes n went x) By BySome (step m) _
                (EndsAs-map (λ went x. StepEnds went x × Goes n went x)
                  (λ went x. StepEnds went x × Goes n went x) (λ x. Valid x × BySome x) BySome
                  (step m) (λ _ _ h. h) (λ _ h. h.1)
                  (EndsAs-both StepEnds (Goes n) Valid BySome (step m) (step-StepEnds m v)
                    (By-step n entry rest m top v (ground (arith, not_after)) ready by)))
                (λ went x h.
                  By-after_step n went x _ h
                    (λ w. By-until_loop fuel (suc n) x.heap x refl w h.1.1 h.1.2))))

    By-step_until :
        (m : MultiBookSimulator) → Valid m → By 0 m → EndsAs By BySome (step_until bound m)
    unfolding step_until
    By-step_until m v by =
        EndsAs-then_run (λ _ x. (Valid x × PrimesAll m x) × By 0 x) By BySome (prime_streams m) _
          (EndsAs-map (λ _ x. (Valid x × PrimesAll m x) × By 0 x)
            (λ _ x. (Valid x × PrimesAll m x) × By 0 x) (By 0) BySome (prime_streams m) (λ _ _ h. h)
            (λ _ h. (0, h))
            (EndsAs-Always (λ _ x. Valid x × PrimesAll m x) (λ x. Valid x × Unit {0}) (By 0)
              (prime_streams m)
              (EndsAs-both (λ _. Valid) (λ _. PrimesAll m) Valid (λ _. Unit) (prime_streams m)
                (Valid-prime_streams m v) (PrimesAll-prime_streams m))
              (MovesBy-prime_streams bound start 0 m by)))
          (λ _ x p. By-until_loop (suc (pending x)) 0 x.heap x refl p.0.0 p.0.1.ready p.1)

    RunsBy-of : (r : Run ℕ) → EndsAs By BySome r → RunsBy bound start r
    RunsBy-of (returned n m) h = h
    RunsBy-of (threw e m) h = h.1

  -- Whatever calls were made of a new simulator of several books, the next `step_until` applies no event
  -- after the bound. However it ends, it went by moves that each fill the buffer of a stream, or take the
  -- first entry from the heap and apply the event for which it stands, the one in the buffer of its
  -- stream or the one of the strategy, and the time of each such event is not after the bound. Where it
  -- returns, the number that it returns is that of the entries it took.
  pub run_calls-RunsBy :
      (cfg : Config) (cs : List Call) (bound : ℤ)
      → let m = run_calls cs (new_simulator cfg) in RunsBy bound m (step_until bound m)
  run_calls-RunsBy cfg cs bound =
      let m = run_calls cs (new_simulator cfg) in
      RunsBy-of bound m (step_until bound m)
        (By-step_until bound m m (run_calls-Merges cfg cs) begun)
