-- ===== src/MultiBook/Isolation.antt =====
-- The books that an event leaves alone.
use lobsim.Base.{
  string_eq, HashMap, String, ap, false, if_both, none, option_both, refl, true, ◌==◌, ◌≡◌,
}
use lobsim.MultiBook.State.{
  MultiBookSimulator, put_engine, emit_diagnostic, BookEntry, MultiBookError, fail_or,
  non_monotonic_ts,
}
use lobsim.MultiBook.Step.{apply_to_book, is_late, addressed}
use lobsim.MultiBook.Filled.{emit_diagnostic_keeps}
use lobsim.MultiBook.Keeps.{Always}
use lobsim.Engine.Update.{update}
use lobsim.Engine.State.{PaperTradingSimulator}
use lobsim.Types.{
  DiagnosticRecordCode, NormalizedLobEvent, error, apply_event_requested_for_unknown_book,
  non_monotonic_ts_received_detected_in_multi_book_simulator,
}

module _ ⦃H : HashMap⦄ where
  find-put_engine :
      (k key : String) (entry : BookEntry) (engine : PaperTradingSimulator) (m : MultiBookSimulator)
      → (key == k) ≡ false
      → H.find k (put_engine key entry engine m).books ≡ H.find k m.books
  unfolding put_engine
  find-put_engine k key entry engine m ne =
      let P : MultiBookSimulator → Type 0 = λ x. H.find k x.books ≡ H.find k m.books in
      let kept : (e : BookEntry) → H.find k (H.assign key e m.books) ≡ H.find k m.books =
        λ e. rw ne at (H.find-assign k key e m.books) in
      option_both P (H.find key m.book_sinks) _ _ (kept _) (λ sink.
        option_both P engine.sink _ _ (kept _)
          (λ calls. option_both P m.multi_sink _ _ (kept _) (λ log. kept _)))

  Always-fail_or :
      {A : Type 0} (P : MultiBookSimulator → Type 0) (e : MultiBookError) (a : A)
      (m : MultiBookSimulator)
      → P m
      → Always P (fail_or e a m)
  Always-fail_or P e a m h = if_both (Always P) m.cfg.fail_fast _ _ h h

  -- An event for one book leaves all other books as they are, whether the call returns or throws. For a
  -- book that is not there it leaves all books and the time. And where times have to be in order and the
  -- event's time is before that of the simulator, it leaves all books and the time.
  pub apply_to_book-books :
      (key : String) (ev : NormalizedLobEvent) (m : MultiBookSimulator)
      → ((k : String)
          → (key == k) ≡ false
          → Always (λ x. H.find k x.books ≡ H.find k m.books) (apply_to_book key ev m))
        × (H.find key m.books ≡ none
            → Always
                (λ x. (x.books ≡ m.books) × (x.current_time ≡ m.current_time))
                (apply_to_book key ev m))
        × (is_late ev m ≡ true
            → Always
                (λ x. (x.books ≡ m.books) × (x.current_time ≡ m.current_time))
                (apply_to_book key ev m))
  unfolding apply_to_book
  apply_to_book-books key ev m =
      let Same : MultiBookSimulator → Type 0 =
        λ x. (x.books ≡ m.books) × (x.current_time ≡ m.current_time) in
      let told : (code : DiagnosticRecordCode)
          → Same (emit_diagnostic key code error 0 ev.ts_received ev.ts_exchange m) =
        λ code.
          emit_diagnostic_keeps Same (λ x o p. p) key code error 0 ev.ts_received ev.ts_exchange m
            (refl, refl) in
      let late_told = told non_monotonic_ts_received_detected_in_multi_book_simulator in
      let unknown_told = told apply_event_requested_for_unknown_book in
      (
        λ k ne.
            let P : MultiBookSimulator → Type 0 = λ x. H.find k x.books ≡ H.find k m.books in
            let told_k : (code : DiagnosticRecordCode)
                → P (emit_diagnostic key code error 0 ev.ts_received ev.ts_exchange m) =
              λ code. ap (λ (b : H.Map String BookEntry). H.find k b) (told code).0 in
            option_both (Always P) (H.find key m.books) _ _
              (told_k apply_event_requested_for_unknown_book)
              (λ entry.
                if_both (Always P) (is_late ev m) _ _
                  (Always-fail_or P non_monotonic_ts tt _
                    (told_k non_monotonic_ts_received_detected_in_multi_book_simulator))
                  (find-put_engine k key entry (update (addressed key ev) entry.engine) m ne)),
        λ missing. rw (missing, apply_to_book) unknown_told,
        λ late.
            option_both (Always Same) (H.find key m.books) _ _ unknown_told
              (λ entry. rw late (Always-fail_or Same non_monotonic_ts tt _ late_told)),
      )
