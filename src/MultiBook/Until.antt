-- ===== src/MultiBook/Until.antt =====
-- `step_until`: how many events wait after each step, and where the loop stops.
use lobsim.Base.{
  if_cases, List, Option-cases, [], ap, inl, inr, length, ltb_ℤ, none, refl, suc, zero, ℤ, ◌+◌,
  ◌<ℤ◌, ◌<◌, ◌∷◌, ◌≡◌,
}
use lobsim.Base.{
  string_eq, Bool, HashMap, String, arith, false, get_elem?, if_both, option_both, true, ℕ, ◌≤◌,
}
use lobsim.MultiBook.Merge.{stream, strategy, HeapEntry, EntryKind}
use lobsim.MultiBook.Stream.{fill_buffer, prime_streams, put_stream}
use lobsim.MultiBook.State.{
  returned, threw, Run, then_run, MultiBookSimulator, MultiBookError, StreamState,
}
use lobsim.MultiBook.Step.{
  apply_to_book, step_strategy, step_stream, step_entry, step_heap, step, until_loop, step_until,
  pending, unread_all,
}
use lobsim.MultiBook.Filled.{
  EndsAs, EndsAs-then_run, emit_diagnostic_keeps, Valid, Valid-prime_streams, emit_diagnostic_keeps,
}
use lobsim.MultiBook.Ready.{Fills, Fills-fill_buffer, unread_all-set}
use lobsim.MultiBook.Primed.{PrimesAll, PrimesAll-prime_streams}
use lobsim.MultiBook.Steps.{StepEnds, step-StepEnds, apply_to_book_keeps}
use lobsim.Types.{NormalizedLobEvent}
use lobsim.Engine.State.{heap}
use lobsim.MultiBook.State.{fail_or}
use lobsim.Engine.PaperTrade.{go_on}

module _ ⦃H : HashMap⦄ where
  -- What holds of the value and the state if a call returns.
  abbrev Returns : {A : Type 0} → (A → MultiBookSimulator → Type 0) → Run A → Type 0
  Returns Q (returned a m) = Q a m
  Returns Q (threw e m) = Unit

  Returns-then_run :
      {A B : Type 0} (P : A → MultiBookSimulator → Type 0) (Q : B → MultiBookSimulator → Type 0)
      (r : Run A) (f : A → MultiBookSimulator → Run B)
      → Returns P r
      → ((a : A) (m : MultiBookSimulator) → P a m → Returns Q (f a m))
      → Returns Q (then_run r f)
  Returns-then_run P Q (returned a m) f h k = k a m h
  Returns-then_run P Q (threw e m) f h k = tt

  Returns-map :
      {A : Type 0} (P Q : A → MultiBookSimulator → Type 0) (r : Run A)
      → ((a : A) (m : MultiBookSimulator) → P a m → Q a m)
      → Returns P r
      → Returns Q r
  Returns-map P Q (returned a m) f h = f a m h
  Returns-map P Q (threw e m) f h = tt

  Returns-of :
      {A : Type 0} (Q : A → MultiBookSimulator → Type 0) (T : MultiBookSimulator → Type 0)
      (r : Run A)
      → EndsAs Q T r
      → Returns Q r
  Returns-of Q T (returned a m) h = h
  Returns-of Q T (threw e m) h = tt

  EndsAs-with :
      {A : Type 0} (P Q : A → MultiBookSimulator → Type 0) (T : MultiBookSimulator → Type 0)
      (r : Run A)
      → EndsAs P T r
      → Returns Q r
      → EndsAs (λ a m. P a m × Q a m) T r
  EndsAs-with P Q T (returned a m) h k = (h, k)
  EndsAs-with P Q T (threw e m) h k = h

  -- At most so many events wait.
  abbrev AtMost : {A : Type 0} → ℕ → A → MultiBookSimulator → Type 0
  AtMost k a m = pending m ≤ k

  AtMost-apply_to_book :
      (k : ℕ) (key : String) (ev : NormalizedLobEvent) (m : MultiBookSimulator)
      → pending m ≤ k
      → Returns (AtMost k) (apply_to_book key ev m)
  AtMost-apply_to_book k key ev m h =
      Returns-of (AtMost k) (λ x. pending x ≤ k) _
        (apply_to_book_keeps (λ x. pending x ≤ k) (λ x b o p. p) key ev m (λ _. h) h)

  AtMost-fail_or :
      (k : ℕ) (e : MultiBookError) (a : Bool) (m : MultiBookSimulator)
      → pending m ≤ k
      → Returns (AtMost k) (fail_or e a m)
  AtMost-fail_or k e a m h = if_both (Returns (AtMost k)) m.cfg.fail_fast _ _ tt h

  AtMost-step_strategy :
      (k : ℕ) (entry : HeapEntry) (m : MultiBookSimulator)
      → pending m ≤ k
      → Returns (AtMost k) (step_strategy entry m)
  unfolding step_strategy
  AtMost-step_strategy k entry m h =
      option_both (Returns (AtMost k)) (get_elem? m.strategy_events entry.strategy_index) _ _
        (AtMost-fail_or k _ false _
          (emit_diagnostic_keeps (λ x. pending x ≤ k) (λ x o p. p) _ _ _ _ _ _ m h))
        (λ item.
          Returns-then_run (AtMost k) (AtMost k) _ (λ _ m'. returned true m')
            (AtMost-apply_to_book k item.ev.symbol_id item.ev m h) (λ _ m' p. p))

  AtMost-fill_buffer :
      (k index : ℕ) (m : MultiBookSimulator)
      → pending m ≤ k
      → Returns (AtMost k) (fill_buffer index m)
  AtMost-fill_buffer k index m h =
      Returns-map (λ _. Fills index (unread_all m.streams) m) (AtMost k) (fill_buffer index m)
        (λ _ m' f. omega (arith, f.cost, h))
        (Returns-of (λ _. Fills index (unread_all m.streams) m) (λ _. Unit) _
          (Fills-fill_buffer index m))

  AtMost-step_stream :
      (k : ℕ) (entry : HeapEntry) (m : MultiBookSimulator)
      → pending m ≤ k
      → Returns (AtMost k) (step_stream entry m)
  unfolding step_stream
  AtMost-step_stream k entry m h = elim (Option-cases (get_elem? m.streams entry.stream_index)) [
    | inl missing ↦ rw (missing, step_stream) h
    | inr (ss, found) ↦
        rw (found, step_stream)
          (option_both (Returns (AtMost k)) ss.buffered _ _
            (AtMost-fail_or k _ false _
              (emit_diagnostic_keeps (λ x. pending x ≤ k) (λ x o p. p) _ _ _ _ _ _ m h))
            (λ ev.
              let ss' : StreamState = record ss { buffered = none } in
              let m' : MultiBookSimulator = put_stream entry.stream_index ss' m in
              Returns-then_run (AtMost k) (AtMost k) (apply_to_book ss.book_key ev m') _
                (AtMost-apply_to_book k ss.book_key ev m'
                  (omega (arith, h, unread_all-set m.streams entry.stream_index ss ss' found)))
                (λ _ x p.
                  Returns-then_run (AtMost k) (AtMost k) (fill_buffer entry.stream_index x) _
                    (AtMost-fill_buffer k entry.stream_index x p) (λ _ y q. q))))
  ]

  AtMost-step_entry :
      (k : ℕ) (kind : EntryKind) (entry : HeapEntry) (m : MultiBookSimulator)
      → entry.kind ≡ kind
      → pending m ≤ k
      → Returns (AtMost k) (step_entry entry m)
  unfolding step_entry
  AtMost-step_entry k strategy entry m e h = rw (e, step_entry) (AtMost-step_strategy k entry m h)
  AtMost-step_entry k stream entry m e h = rw (e, step_entry) (AtMost-step_stream k entry m h)

  -- A step that goes on leaves fewer events.
  abbrev Fewer : ℕ → Bool → MultiBookSimulator → Type 0
  Fewer k true m = pending m < k
  Fewer k false m = Unit

  Fewer-of : (k : ℕ) (went : Bool) (m : MultiBookSimulator) → pending m < k → Fewer k went m
  Fewer-of k true m h = h
  Fewer-of k false m h = tt

  Fewer-step_heap :
      (k : ℕ) (heap : List HeapEntry) (m : MultiBookSimulator)
      → m.heap ≡ heap
      → pending m ≤ k
      → Returns (Fewer k) (step_heap m)
  unfolding step_heap
  Fewer-step_heap k [] m top h = rw (top, step_heap) tt
  Fewer-step_heap k (entry ∷ rest) m top h =
      let shorter : suc (length rest + unread_all m.streams) ≤ k =
        omega (arith, h, ap (λ (x : List HeapEntry). length x) top) in
      rw (top, step_heap)
        (Returns-map (AtMost (length rest + unread_all m.streams)) (Fewer k) _
          (λ went m' p. Fewer-of k went m' (omega (arith, p, shorter)))
          (AtMost-step_entry (length rest + unread_all m.streams) entry.kind entry
            (record m { heap = rest }) refl (omega arith)))

  Fewer-step : (m : MultiBookSimulator) → Returns (Fewer (pending m)) (step m)
  unfolding step
  Fewer-step m =
      Returns-then_run (λ _. PrimesAll m) (Fewer (pending m)) (prime_streams m)
        (λ _ m'. step_heap m')
        (Returns-of (λ _. PrimesAll m) (λ _. Unit) _ (PrimesAll-prime_streams m))
        (λ _ m' p. Fewer-step_heap (pending m) m'.heap m' refl p.cost)

  -- Where the loop may stop: no event is left on the heap, or the first one is after the bound.
  abbrev Stopped : ℤ → List HeapEntry → Type 0
  Stopped bound [] = Unit
  Stopped bound (entry ∷ rest) = bound <ℤ entry.ts_received

  abbrev pub Stops : ℤ → ℕ → MultiBookSimulator → Type 0
  Stops bound applied m = Valid m × Stopped bound m.heap

  -- After a step that went on, or the end.
  Stops-after_step :
      (bound : ℤ) (applied k : ℕ) (went : Bool) (m : MultiBookSimulator) (go_on : Run ℕ)
      → StepEnds went m × Fewer k went m
      → (Valid m → pending m < k → EndsAs (Stops bound) Valid go_on)
      → EndsAs (Stops bound) Valid (elim went [ true ↦ go_on | false ↦ returned applied m ])
  Stops-after_step bound applied k true m go_on h f = f h.0 h.1
  Stops-after_step bound applied k false m go_on h f = (h.0.0, rw h.0.1 tt)

  Stops-until_loop :
      (fuel : ℕ) (bound : ℤ) (applied : ℕ) (heap : List HeapEntry) (m : MultiBookSimulator)
      → m.heap ≡ heap
      → pending m < fuel
      → Valid m
      → EndsAs (Stops bound) Valid (until_loop fuel bound applied m)
  unfolding until_loop
  Stops-until_loop zero bound applied heap m top enough v = absurd (omega arith)
  Stops-until_loop (suc fuel) bound applied [] m top enough v = rw (top, until_loop) (v, rw top tt)
  Stops-until_loop (suc fuel) bound applied (entry ∷ rest) m top enough v =
      rw (top, until_loop)
        (if_cases (EndsAs (Stops bound) Valid) (ltb_ℤ bound entry.ts_received) _ _
          (λ after. (v, rw top (ground (arith, after))))
          (λ _.
            EndsAs-then_run (λ went m'. StepEnds went m' × Fewer (pending m) went m') (Stops bound)
              Valid (step m) _
              (EndsAs-with StepEnds (Fewer (pending m)) Valid (step m) (step-StepEnds m v)
                (Fewer-step m))
              (λ went m' h. Stops-after_step bound applied (pending m) went m' _ h (λ w fewer.
                Stops-until_loop fuel bound (suc applied) m'.heap m' refl
                  (omega (arith, fewer, enough)) w))))

  -- `step_until` of a simulator whose heap fits its buffers and the strategy's events ends by itself: the
  -- fuel of the model suffices. It never meets an entry of the heap without an event. Where it returns,
  -- no event is left on the heap or the first one there is after the bound; and the heap still fits,
  -- however it ends.
  pub step_until-Stops :
      (bound : ℤ) (m : MultiBookSimulator)
      → Valid m
      → EndsAs (Stops bound) Valid (step_until bound m)
  unfolding step_until
  step_until-Stops bound m v =
      EndsAs-then_run (λ _. Valid) (Stops bound) Valid (prime_streams m) _ (Valid-prime_streams m v)
        (λ _ m' w. Stops-until_loop (suc (pending m')) bound 0 m'.heap m' refl (omega arith) w)
