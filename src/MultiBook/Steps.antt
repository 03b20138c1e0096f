-- ===== src/MultiBook/Steps.antt =====
-- One step of the merge: the entry on top of the heap, and the event that it stands for.
use lobsim.MultiBook.Filled.{EndsAs-map, EndsAs-both}
use lobsim.MultiBook.Ready.{is_ready}
use lobsim.MultiBook.Primed.{PrimesAll, PrimesAll-prime_streams}
use lobsim.MultiBook.Step.{step_heap, step}
use lobsim.MultiBook.Filled.{Ends-fail_or}
use lobsim.MultiBook.Valid.{Merges}
use lobsim.MultiBook.Changes.{Merges-pop_strategy, Merges-pop_stream}
use lobsim.MultiBook.Filled.{Valid-fill_buffer, Valid-prime_streams}
use lobsim.Base.{string_eq, Bool, none, true, refl, [], arith, get_elem?, ℕ}
use lobsim.MultiBook.Merge.{strategy, stream, HeapEntry, EntryKind}
use lobsim.Engine.Update.{update}
use lobsim.Base.{
  HashMap, List, Option, String, option_both, Bool-cases, false, inl, inr, some, ◌∷◌, ◌≡◌,
}
use lobsim.MultiBook.Stream.{prime_streams, put_stream}
use lobsim.MultiBook.State.{
  returned, put_engine, non_monotonic_ts, BookEntry, MultiBookSimulator, StreamState,
}
use lobsim.MultiBook.Step.{
  apply_to_book, step_strategy, step_stream, step_entry, step_heap, step, addressed, is_late,
}
use lobsim.MultiBook.Filled.{Valid, Ends, EndsAs, EndsAs-then_run, emit_diagnostic_keeps}
use lobsim.Engine.State.{PaperTradingSimulator}
use lobsim.Types.{NormalizedLobEvent, SinkCall}

module _ ⦃H : HashMap⦄ where
  -- An engine that is put back changes its book and what the sink of all books was told.
  pub put_engine_keeps :
      (P : MultiBookSimulator → Type 0)
      → ((m : MultiBookSimulator) (b : H.Map String BookEntry) (o : Option (List SinkCall))
          → P m
          → P (record m { books = b; multi_sink = o }))
      → (key : String) (entry : BookEntry) (engine : PaperTradingSimulator) (m : MultiBookSimulator)
      → P m
      → P (put_engine key entry engine m)
  unfolding put_engine
  put_engine_keeps P keep key entry engine m h =
      let plain = keep m (H.assign key (record entry { engine = engine }) m.books) m.multi_sink h in
      option_both P (H.find key m.book_sinks) _ _ plain (λ sink.
        option_both P engine.sink _ _ plain
          (λ calls. option_both P m.multi_sink _ _ (keep m _ m.multi_sink h) (λ log. keep m _ _ h)))

  -- What a book's update keeps, if the new time keeps it.
  pub apply_to_book_keeps :
      (P : MultiBookSimulator → Type 0)
      → ((m : MultiBookSimulator) (b : H.Map String BookEntry) (o : Option (List SinkCall))
          → P m
          → P (record m { books = b; multi_sink = o }))
      → (key : String) (ev : NormalizedLobEvent) (m : MultiBookSimulator)
      → (is_late ev m ≡ false → P (record m { current_time = some ev.ts_received }))
      → P m
      → Ends P (apply_to_book key ev m)
  unfolding apply_to_book
  apply_to_book_keeps P keep key ev m timed h =
      option_both (Ends P) (H.find key m.books) _ _
        (emit_diagnostic_keeps P (λ m o. keep m m.books o) _ _ _ _ _ _ m h)
        (λ entry. elim (Bool-cases (is_late ev m)) [
          | inl late ↦ rw late (
              Ends-fail_or P non_monotonic_ts tt _ (λ x. cc)
                (emit_diagnostic_keeps P (λ m o. keep m m.books o) _ _ _ _ _ _ m h))
          | inr on_time ↦ rw on_time (
              put_engine_keeps (λ x. P (record x { current_time = some ev.ts_received }))
                (λ x b o g. keep (record x { current_time = some ev.ts_received }) b o g) key entry
                (update (addressed key ev) entry.engine) m (timed on_time))
        ])

  Valid-apply_to_book :
      (key : String) (ev : NormalizedLobEvent) (m : MultiBookSimulator)
      → Valid m
      → Ends Valid (apply_to_book key ev m)
  Valid-apply_to_book key ev m v = apply_to_book_keeps Valid (λ m b o g. g) key ev m (λ _. v) v

  -- A step on the entry on top, whose event is at hand, says that there was one.
  abbrev Went : Bool → MultiBookSimulator → Type 0
  Went went m = (went ≡ true) × Valid m

  Valid-step_strategy :
      (entry : HeapEntry) (rest : List HeapEntry) (m : MultiBookSimulator)
      → entry.kind ≡ strategy
      → Merges m.streams m.strategy_events (entry ∷ rest)
      → EndsAs Went Valid (step_strategy entry (record m { heap = rest }))
  unfolding step_strategy
  Valid-step_strategy entry rest m kind v =
      let (here, v') = Merges-pop_strategy m.streams m.strategy_events entry rest kind v in
      rw (here.1, step_strategy)
        (EndsAs-then_run (λ _. Valid) Went Valid _ (λ _ m'. returned true m')
          (Valid-apply_to_book here.0.ev.symbol_id here.0.ev (record m { heap = rest }) v')
          (λ _ m' w. (refl, w)))

  Valid-step_stream :
      (entry : HeapEntry) (rest : List HeapEntry) (m : MultiBookSimulator)
      → entry.kind ≡ stream
      → Merges m.streams m.strategy_events (entry ∷ rest)
      → EndsAs Went Valid (step_stream entry (record m { heap = rest }))
  unfolding step_stream
  Valid-step_stream entry rest m kind v =
      let (ss, ev, found, full, received, v') =
        Merges-pop_stream m.streams m.strategy_events entry rest kind v in
      let popped = record m { heap = rest } in
      rw (found, step_stream)
        (rw (full, step_stream)
          (EndsAs-then_run (λ _. Valid) Went Valid _ _
            (Valid-apply_to_book ss.book_key ev
              (put_stream entry.stream_index (record ss { buffered = none }) popped) v')
            (λ _ m' w.
              EndsAs-then_run (λ _. Valid) Went Valid _ (λ _ m''. returned true m'')
                (Valid-fill_buffer entry.stream_index m' w) (λ _ m'' x. (refl, x)))))

  Valid-step_entry :
      (k : EntryKind) (entry : HeapEntry) (rest : List HeapEntry) (m : MultiBookSimulator)
      → entry.kind ≡ k
      → Merges m.streams m.strategy_events (entry ∷ rest)
      → EndsAs Went Valid (step_entry entry (record m { heap = rest }))
  unfolding step_entry
  Valid-step_entry strategy entry rest m kind v =
      rw (kind, step_entry) (Valid-step_strategy entry rest m kind v)
  Valid-step_entry stream entry rest m kind v =
      rw (kind, step_entry) (Valid-step_stream entry rest m kind v)

  -- What `step` says: that it went on, or that nothing is left.
  abbrev pub StepEnds : Bool → MultiBookSimulator → Type 0
  StepEnds true m = Valid m
  StepEnds false m =
      Valid m
      × (m.heap ≡ [])
      × ((j : ℕ) (ss : StreamState) → get_elem? m.streams j ≡ some ss → ss.exhausted ≡ true)

  Went-StepEnds : (went : Bool) (m : MultiBookSimulator) → Went went m → StepEnds went m
  Went-StepEnds true m h = h.1
  Went-StepEnds false m h = absurd (ground (arith, h.0))

  -- Where the heap is empty, a stream that is ready is exhausted.
  exhausted_of_empty :
      (m : MultiBookSimulator) (j : ℕ) (ss : StreamState)
      → Merges m.streams m.strategy_events []
      → is_ready (get_elem? m.streams j) ≡ true
      → get_elem? m.streams j ≡ some ss
      → ss.exhausted ≡ true
  exhausted_of_empty m j ss v ready found = ground (arith, v.counts j, ready, found)

  Valid-step_heap :
      (heap : List HeapEntry) (m m' : MultiBookSimulator)
      → m'.heap ≡ heap
      → Merges m'.streams m'.strategy_events heap
      → PrimesAll m m'
      → EndsAs StepEnds Valid (step_heap m')
  unfolding step_heap
  Valid-step_heap [] m m' top v p =
      rw (top, step_heap)
        (rw top v, top, λ j ss found. exhausted_of_empty m' j ss v (p.ready j) found)
  Valid-step_heap (entry ∷ rest) m m' top v p =
      rw (top, step_heap)
        (EndsAs-map Went StepEnds Valid Valid _ Went-StepEnds (λ _ w. w)
          (Valid-step_entry entry.kind entry rest m' refl v))

  -- From a simulator whose heap fits its buffers and the strategy's events, `step` never meets an entry
  -- of the heap without an event: it does not throw the exceptions for that. However it ends, the
  -- heap still fits. And it returns false only where no event is left: the heap is empty and all streams
  -- are exhausted.
  pub step-StepEnds : (m : MultiBookSimulator) → Valid m → EndsAs StepEnds Valid (step m)
  unfolding step
  step-StepEnds m v =
      EndsAs-then_run (λ _ m'. Valid m' × PrimesAll m m') StepEnds Valid (prime_streams m)
        (λ _ m'. step_heap m')
        (EndsAs-map (λ _ m'. Valid m' × PrimesAll m m') (λ _ m'. Valid m' × PrimesAll m m')
          (λ m'. Valid m' × Unit) Valid _ (λ _ _ h. h) (λ _ h. h.0)
          (EndsAs-both (λ _. Valid) (λ _. PrimesAll m) Valid (λ _. Unit) (prime_streams m)
            (Valid-prime_streams m v) (PrimesAll-prime_streams m)))
        (λ _ m' h. Valid-step_heap m'.heap m m' refl h.0 h.1)
