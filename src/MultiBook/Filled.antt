-- ===== src/MultiBook/Filled.antt =====
-- Filling the buffers of the streams: the heap afterwards, and which streams have been filled.
use lobsim.Base.{
  HashMap, List, Option, String, arith, false, get_elem?, none, option_both, some, suc, true, zero,
  ℕ, ℤ, ◌∙◌, ◌≡◌, if_both, refl, ◌&&◌, Option-cases, inl, inr, is_some, length,
}
use lobsim.MultiBook.Stream.{
  fill_loop, fill_buffer, prime_loop, prime_streams, next_normalized, Next, got, at_end, failed,
  unread, put_stream, emit_non_monotonic, is_before,
}
use lobsim.MultiBook.State.{
  emit_diagnostic, returned, threw, Run, invalid_strategy_heap_entry, heap_entry_without_event,
  MultiBookError, MultiBookSimulator, StreamState, Stream, then_run, fail_or,
}
use lobsim.MultiBook.Valid.{Merges, Merges-idle, Merges-buffer}
use lobsim.Types.{DiagnosticRecordCode, DiagnosticRecordSeverity, SinkCall, NormalizedLobEvent}

-- What holds of the three answers of a stream holds of what is done with them.
pub next_both :
    {B : Type 0} (P : B → Type 0) (n : Next) (f : NormalizedLobEvent → Stream → B)
    (g h : Stream → B)
    → ((ev : NormalizedLobEvent) (st : Stream) → n ≡ got ev st → P (f ev st))
    → ((st : Stream) → n ≡ at_end st → P (g st))
    → ((st : Stream) → n ≡ failed st → P (h st))
    → P (elim n [ got ev st ↦ f ev st | at_end st ↦ g st | failed st ↦ h st ])
next_both P (got ev st) f g h a b c = a ev st refl
next_both P (at_end st) f g h a b c = b st refl
next_both P (failed st) f g h a b c = c st refl

module _ ⦃H : HashMap⦄ where
  abbrev pub Valid : MultiBookSimulator → Type 0
  Valid m = Merges m.streams m.strategy_events m.heap

  -- The exceptions that a heap of a valid simulator never leads to.
  abbrev IsSpared : MultiBookError → Type 0
  IsSpared invalid_strategy_heap_entry = Unit
  IsSpared heap_entry_without_event = Unit
  IsSpared _ = false ≡ true

  -- What holds of the value and the state if a call returns, and of the state if it throws, with none of
  -- those exceptions.
  abbrev pub EndsAs :
      {A : Type 0}
      → (A → MultiBookSimulator → Type 0)
      → (MultiBookSimulator → Type 0)
      → Run A
      → Type 0
  EndsAs Q T (returned a m) = Q a m
  EndsAs Q T (threw e m) = ¬ IsSpared e × T m

  -- What holds however it ends.
  abbrev pub Ends : {A : Type 0} → (MultiBookSimulator → Type 0) → Run A → Type 0
  Ends P r = EndsAs (λ a m. P m) P r

  -- What holds after a call that is followed by another.
  pub EndsAs-then_run :
      {A B : Type 0} (P : A → MultiBookSimulator → Type 0) (Q : B → MultiBookSimulator → Type 0)
      (T : MultiBookSimulator → Type 0) (r : Run A) (f : A → MultiBookSimulator → Run B)
      → EndsAs P T r
      → ((a : A) (m : MultiBookSimulator) → P a m → EndsAs Q T (f a m))
      → EndsAs Q T (then_run r f)
  EndsAs-then_run P Q T (returned a m) f h k = k a m h
  EndsAs-then_run P Q T (threw e m) f h k = h

  -- Two facts of one call.
  pub EndsAs-both :
      {A : Type 0} (P Q : A → MultiBookSimulator → Type 0) (S T : MultiBookSimulator → Type 0)
      (r : Run A)
      → EndsAs P S r
      → EndsAs Q T r
      → EndsAs (λ a m. P a m × Q a m) (λ m. S m × T m) r
  EndsAs-both P Q S T (returned a m) h k = (h, k)
  EndsAs-both P Q S T (threw e m) h k = (h.0, (h.1, k.1))

  pub EndsAs-map :
      {A : Type 0} (P Q : A → MultiBookSimulator → Type 0) (S T : MultiBookSimulator → Type 0)
      (r : Run A)
      → ((a : A) (m : MultiBookSimulator) → P a m → Q a m)
      → ((m : MultiBookSimulator) → S m → T m)
      → EndsAs P S r
      → EndsAs Q T r
  EndsAs-map P Q S T (returned a m) f g h = f a m h
  EndsAs-map P Q S T (threw e m) f g h = (h.0, g m h.1)

  pub Ends-fail_or :
      {A : Type 0} (P : MultiBookSimulator → Type 0) (e : MultiBookError) (a : A)
      (m : MultiBookSimulator)
      → ¬ IsSpared e
      → P m
      → Ends P (fail_or e a m)
  Ends-fail_or P e a m spared h = if_both (Ends P) m.cfg.fail_fast _ _ (spared, h) h

  -- A diagnostic changes nothing but what the sink of all books was told.
  pub emit_diagnostic_keeps :
      (P : MultiBookSimulator → Type 0)
      → ((m : MultiBookSimulator) (o : Option (List SinkCall))
          → P m
          → P (record m { multi_sink = o }))
      → (key : String) (code : DiagnosticRecordCode) (severity : DiagnosticRecordSeverity) (seq : ℕ)
        (ts_received ts_exchange : ℤ) (m : MultiBookSimulator)
      → P m
      → P (emit_diagnostic key code severity seq ts_received ts_exchange m)
  unfolding emit_diagnostic
  emit_diagnostic_keeps P keep key code severity seq ts_received ts_exchange m h =
      option_both P m.multi_sink m _ h (λ log. keep m _ h)

  -- What a call of `fill_loop` may rely on.
  pub record Fillable (index : ℕ) (m : MultiBookSimulator) : Type 0 where
    pub old : StreamState
    pub found : get_elem? m.streams index ≡ some old
    pub idle : old.buffered ≡ none
    pub valid : Valid m

  Fillable-put :
      (index : ℕ) (ss : StreamState) (m : MultiBookSimulator)
      → ss.buffered ≡ none
      → Fillable index m
      → Valid (put_stream index ss m)
  Fillable-put index ss m idle f =
      Merges-idle m.streams m.strategy_events m.heap index f.old ss f.found
        (f.valid.counts index ∙ ground (arith, f.found, f.idle)) idle (λ j ne. f.valid.counts j)
        f.valid.stands f.valid.sorted

  Valid-fill_loop :
      (fuel index : ℕ) (ss : StreamState) (m : MultiBookSimulator)
      → ss.buffered ≡ none
      → Fillable index m
      → Ends Valid (fill_loop fuel index ss m)
  unfolding fill_loop
  Valid-fill_loop zero index ss m idle f = Fillable-put index ss m idle f
  Valid-fill_loop (suc fuel) index ss m idle f =
      next_both (Ends Valid) (next_normalized ss.stream) _ _ _
        (λ ev st e.
          let m' : MultiBookSimulator = emit_non_monotonic ss ev m in
          let f' : Fillable index m' =
            emit_diagnostic_keeps (Fillable index)
              (λ m o g. record { old = g.old; found = g.found; idle = g.idle; valid = g.valid }) _ _
              _ _ _ _ m f in
          let ss' : StreamState = record ss { stream = st } in
          if_both (Ends Valid)
            (m.cfg.require_monotonic_ts_received && is_before ev.ts_received ss.last_ts) _ _
            (if_both (Ends Valid) m.cfg.fail_fast _ _ ((λ x. cc), Fillable-put index ss' m' idle f')
              (Valid-fill_loop fuel index ss' m' idle f'))
            (Merges-buffer m.streams m.strategy_events m.heap index f.old _ ev f.found f.idle refl
              f.valid))
        (λ st e. Fillable-put index (record ss { stream = st; exhausted = true }) m idle f)
        (λ st e. ((λ x. cc), Fillable-put index (record ss { stream = st }) m idle f))

  pub Valid-fill_buffer :
      (index : ℕ) (m : MultiBookSimulator) → Valid m → Ends Valid (fill_buffer index m)
  unfolding fill_buffer
  Valid-fill_buffer index m v = elim (Option-cases (get_elem? m.streams index)) [
    | inl missing ↦ rw (missing, fill_buffer) v
    | inr (ss, found) ↦
        rw (found, fill_buffer)
          (if_both (Ends Valid) ss.exhausted _ _ v (elim (Option-cases ss.buffered) [
            | inl idle ↦ if_both (Ends Valid) (is_some ss.buffered) _ _ v (
                Valid-fill_loop (suc (unread ss.stream)) index ss m idle
                  (record { old = ss; found = found; idle = idle; valid = v }))
            | inr (ev, full) ↦ rw full v
          ]))
  ]

  Valid-prime_loop :
      (left index : ℕ) (m : MultiBookSimulator) → Valid m → Ends Valid (prime_loop left index m)
  unfolding prime_loop
  Valid-prime_loop zero index m v = v
  Valid-prime_loop (suc left) index m v =
      EndsAs-then_run (λ _. Valid) (λ _. Valid) Valid (fill_buffer index m)
        (λ _ m'. prime_loop left (suc index) m') (Valid-fill_buffer index m v)
        (λ _ m'. Valid-prime_loop left (suc index) m')

  pub Valid-prime_streams : (m : MultiBookSimulator) → Valid m → Ends Valid (prime_streams m)
  unfolding prime_streams
  Valid-prime_streams m v = Valid-prime_loop (length m.streams) 0 m v
