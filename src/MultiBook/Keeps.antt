-- ===== src/MultiBook/Keeps.antt =====
-- What all the calls keep that merge streams: a rule for facts that do not depend on the streams, the
-- heap, the books and what the sink of all books was told.
use lobsim.Base.{
  string_eq, HashMap, List, Option, String, [], false, get_elem?, if_both, is_some, length, ltb_ℤ,
  none, option_both, refl, some, suc, zero, ℕ, ℤ, ◌&&◌, ◌∷◌, ◌≡◌, Bool, true,
}
use lobsim.MultiBook.Merge.{stream, strategy, EntryKind, HeapEntry}
use lobsim.MultiBook.Stream.{
  fill_loop, fill_buffer, prime_loop, prime_streams, buffer_event, next_normalized, put_stream,
  emit_non_monotonic, is_before, unread,
}
use lobsim.MultiBook.State.{
  returned, threw, Run, emit_diagnostic, then_run, fail_or, BookEntry, MultiBookSimulator,
  MultiBookError, StreamState,
}
use lobsim.MultiBook.Step.{
  apply_to_book, step_strategy, step_stream, step_entry, step_heap, step, until_loop, step_until,
  is_late, pending,
}
use lobsim.MultiBook.Filled.{EndsAs, next_both, emit_diagnostic_keeps}
use lobsim.MultiBook.Steps.{apply_to_book_keeps}
use lobsim.Engine.State.{heap}
use lobsim.Types.{DiagnosticRecordCode, DiagnosticRecordSeverity, NormalizedLobEvent, SinkCall}

went_both :
    {B : Type 0} (P : B → Type 0) (went : Bool) (x y : B)
    → P x
    → P y
    → P (elim went [ true ↦ x | false ↦ y ])
went_both P true x y p q = p
went_both P false x y p q = q

module _ ⦃H : HashMap⦄ where
  -- What holds of the state however a call ends.
  abbrev pub Always : {A : Type 0} → (MultiBookSimulator → Type 0) → Run A → Type 0
  Always P (returned a m) = P m
  Always P (threw e m) = P m

  pub Always-then_run :
      {A B : Type 0} (P : MultiBookSimulator → Type 0) (r : Run A)
      (f : A → MultiBookSimulator → Run B)
      → Always P r
      → ((a : A) (m : MultiBookSimulator) → P m → Always P (f a m))
      → Always P (then_run r f)
  Always-then_run P (returned a m) f h k = k a m h
  Always-then_run P (threw e m) f h k = h

  Always-of :
      {A : Type 0} (P : MultiBookSimulator → Type 0) (r : Run A)
      → EndsAs (λ a m. P m) P r
      → Always P r
  Always-of P (returned a m) h = h
  Always-of P (threw e m) h = h.1

  module _ (P : MultiBookSimulator → Type 0)
      (keep : (m : MultiBookSimulator) (s : List StreamState) (h : List HeapEntry)
          (b : H.Map String BookEntry) (o : Option (List SinkCall))
        → P m
        → P (record m { streams = s; heap = h; books = b; multi_sink = o })) where
    told :
        (key : String) (code : DiagnosticRecordCode) (severity : DiagnosticRecordSeverity) (seq : ℕ)
        (ts_received ts_exchange : ℤ) (m : MultiBookSimulator)
        → P m
        → P (emit_diagnostic key code severity seq ts_received ts_exchange m)
    told key code severity seq ts_received ts_exchange m h =
        emit_diagnostic_keeps P (λ x o p. keep x x.streams x.heap x.books o p) key code severity seq
          ts_received ts_exchange m h

    keeps-fill_loop :
        (fuel index : ℕ) (ss : StreamState) (m : MultiBookSimulator)
        → P m
        → Always P (fill_loop fuel index ss m)
    unfolding fill_loop buffer_event
    keeps-fill_loop zero index ss m h = keep m _ m.heap m.books m.multi_sink h
    keeps-fill_loop (suc fuel) index ss m h =
        next_both (Always P) (next_normalized ss.stream) _ _ _
          (λ ev st e.
            let m' : MultiBookSimulator = emit_non_monotonic ss ev m in
            let h' : P m' = told _ _ _ _ _ _ m h in
            let ss' : StreamState = record ss { stream = st } in
            if_both (Always P)
              (m.cfg.require_monotonic_ts_received && is_before ev.ts_received ss.last_ts) _ _
              (if_both (Always P) m.cfg.fail_fast _ _ (keep m' _ m'.heap m'.books m'.multi_sink h')
                (keeps-fill_loop fuel index ss' m' h'))
              (keep m _ _ m.books m.multi_sink h))
          (λ st e. keep m _ m.heap m.books m.multi_sink h)
          (λ st e. keep m _ m.heap m.books m.multi_sink h)

    keeps-fill_buffer : (index : ℕ) (m : MultiBookSimulator) → P m → Always P (fill_buffer index m)
    unfolding fill_buffer
    keeps-fill_buffer index m h = option_both (Always P) (get_elem? m.streams index) _ _ h (λ ss.
        if_both (Always P) ss.exhausted _ _ h (
          if_both (Always P) (is_some ss.buffered) _ _ h
            (keeps-fill_loop (suc (unread ss.stream)) index ss m h)))

    keeps-prime_loop :
        (left index : ℕ) (m : MultiBookSimulator) → P m → Always P (prime_loop left index m)
    unfolding prime_loop
    keeps-prime_loop zero index m h = h
    keeps-prime_loop (suc left) index m h =
        Always-then_run P (fill_buffer index m) _ (keeps-fill_buffer index m h)
          (λ _ m'. keeps-prime_loop left (suc index) m')

    keeps-prime_streams : (m : MultiBookSimulator) → P m → Always P (prime_streams m)
    unfolding prime_streams
    keeps-prime_streams m h = keeps-prime_loop (length m.streams) 0 m h

    module _
        (timed : (ev : NormalizedLobEvent) (m : MultiBookSimulator)
          → is_late ev m ≡ false
          → P m
          → P (record m { current_time = some ev.ts_received })) where
      pub keeps-apply_to_book :
          (key : String) (ev : NormalizedLobEvent) (m : MultiBookSimulator)
          → P m
          → Always P (apply_to_book key ev m)
      keeps-apply_to_book key ev m h = Always-of P _ (
          apply_to_book_keeps P (λ x b o p. keep x x.streams x.heap b o p) key ev m
            (λ on_time. timed ev m on_time h) h)

      keeps-fail_or :
          {A : Type 0} (e : MultiBookError) (a : A) (m : MultiBookSimulator)
          → P m
          → Always P (fail_or e a m)
      keeps-fail_or e a m h = if_both (Always P) m.cfg.fail_fast _ _ h h

      keeps-step_strategy :
          (entry : HeapEntry) (m : MultiBookSimulator) → P m → Always P (step_strategy entry m)
      unfolding step_strategy
      keeps-step_strategy entry m h =
          option_both (Always P) (get_elem? m.strategy_events entry.strategy_index) _ _
            (keeps-fail_or _ false _ (told _ _ _ _ _ _ m h))
            (λ item.
              Always-then_run P (apply_to_book item.ev.symbol_id item.ev m) _
                (keeps-apply_to_book item.ev.symbol_id item.ev m h) (λ _ m' p. p))

      keeps-step_stream :
          (entry : HeapEntry) (m : MultiBookSimulator) → P m → Always P (step_stream entry m)
      unfolding step_stream
      keeps-step_stream entry m h =
          option_both (Always P) (get_elem? m.streams entry.stream_index) _ _ h (λ ss.
            option_both (Always P) ss.buffered _ _ (keeps-fail_or _ false _ (told _ _ _ _ _ _ m h))
              (λ ev.
                let m' : MultiBookSimulator =
                  put_stream entry.stream_index (record ss { buffered = none }) m in
                Always-then_run P (apply_to_book ss.book_key ev m') _
                  (keeps-apply_to_book ss.book_key ev m' (keep m _ m.heap m.books m.multi_sink h))
                  (λ _ x p.
                    Always-then_run P (fill_buffer entry.stream_index x) _
                      (keeps-fill_buffer entry.stream_index x p) (λ _ y q. q))))

      keeps-step_entry :
          (k : EntryKind) (entry : HeapEntry) (m : MultiBookSimulator)
          → entry.kind ≡ k
          → P m
          → Always P (step_entry entry m)
      unfolding step_entry
      keeps-step_entry strategy entry m kind h =
          rw (kind, step_entry) (keeps-step_strategy entry m h)
      keeps-step_entry stream entry m kind h = rw (kind, step_entry) (keeps-step_stream entry m h)

      keeps-step_heap :
          (heap : List HeapEntry) (m : MultiBookSimulator)
          → m.heap ≡ heap
          → P m
          → Always P (step_heap m)
      unfolding step_heap
      keeps-step_heap [] m top h = rw (top, step_heap) h
      keeps-step_heap (entry ∷ rest) m top h =
          rw (top, step_heap)
            (keeps-step_entry entry.kind entry (record m { heap = rest }) refl
              (keep m m.streams rest m.books m.multi_sink h))

      pub keeps-step : (m : MultiBookSimulator) → P m → Always P (step m)
      unfolding step
      keeps-step m h =
          Always-then_run P (prime_streams m) _ (keeps-prime_streams m h)
            (λ _ m'. keeps-step_heap m'.heap m' refl)

      keeps-until_loop :
          (fuel : ℕ) (bound : ℤ) (applied : ℕ) (heap : List HeapEntry) (m : MultiBookSimulator)
          → m.heap ≡ heap
          → P m
          → Always P (until_loop fuel bound applied m)
      unfolding until_loop
      keeps-until_loop zero bound applied heap m top h = h
      keeps-until_loop (suc fuel) bound applied [] m top h = rw (top, until_loop) h
      keeps-until_loop (suc fuel) bound applied (entry ∷ rest) m top h =
          rw (top, until_loop)
            (if_both (Always P) (ltb_ℤ bound entry.ts_received) _ _ h (
              Always-then_run P (step m) _ (keeps-step m h) (λ went m' p.
                went_both (Always P) went _ _
                  (keeps-until_loop fuel bound (suc applied) m'.heap m' refl p) p)))

      pub keeps-step_until :
          (bound : ℤ) (m : MultiBookSimulator) → P m → Always P (step_until bound m)
      unfolding step_until
      keeps-step_until bound m h =
          Always-then_run P (prime_streams m) _ (keeps-prime_streams m h)
            (λ _ m'. keeps-until_loop (suc (pending m')) bound 0 m'.heap m' refl)
