-- ===== src/MultiBook/Stream.antt =====
-- The streams: `next_normalized`, `fill_buffer` and `prime_streams`.
use lobsim.Base.{
  ℕ, zero, suc, ℤ, ltb_ℤ, Bool, true, false, ◌&&◌, Option, none, some, List, [], ◌∷◌, HashMap,
  length, get_elem?, is_some, if◌then◌else◌,
}
use lobsim.Base.{set as set_at}
use lobsim.Base.Heap.{push}
use lobsim.Types.{
  NormalizedLobEvent, error, non_monotonic_ts_received_detected_in_multi_book_simulator, next_u64,
}
use lobsim.MultiBook.Merge.{HeapEntry, stream, heap_compare}
use lobsim.MultiBook.State.{
  Stream, adapted, normalized, StreamState, MultiBookSimulator, emit_diagnostic, Run, returned,
  threw, then_run, normalization_failed, non_monotonic_stream,
}

-- What `next_normalized` gives, with the stream after it.
pub data Next : Type 0 where
  got : NormalizedLobEvent → Stream → Next
  at_end failed : Stream → Next

-- The loop over the source, on which the adapter may throw.
unfoldable pub next_adapted : Bool → List (Option NormalizedLobEvent) → Next
next_adapted fail_fast [] = at_end (adapted fail_fast [])
next_adapted fail_fast (none ∷ raws) =
    let rest = next_adapted fail_fast raws in
    if fail_fast then failed (adapted fail_fast raws) else rest
next_adapted fail_fast (some ev ∷ raws) = got ev (adapted fail_fast raws)

unfoldable pub next_normalized : Stream → Next
unfolding next_adapted
next_normalized (adapted fail_fast raws) = next_adapted fail_fast raws
next_normalized (normalized []) = at_end (normalized [])
next_normalized (normalized (ev ∷ evs)) = got ev (normalized evs)

-- How much the source has left.
abbrev pub unread : Stream → ℕ
unread (adapted fail_fast raws) = length raws
unread (normalized evs) = length evs

abbrev pub is_before : ℤ → Option ℤ → Bool
is_before t none = false
is_before t (some last) = ltb_ℤ t last

abbrev pub stream_entry : ℕ → NormalizedLobEvent → HeapEntry
stream_entry index ev = record {
  ts_received = ev.ts_received;
  ts_exchange = ev.ts_exchange;
  stream_index = index;
  kind = stream;
  strategy_index = 0;
}

module _ ⦃H : HashMap⦄ where
  abbrev pub put_stream : ℕ → StreamState → MultiBookSimulator → MultiBookSimulator
  put_stream index ss m = record m { streams = set_at m.streams index ss }

  abbrev pub push_entry : HeapEntry → MultiBookSimulator → MultiBookSimulator
  push_entry entry m = record m { heap = push heap_compare entry m.heap }

  -- The event in the buffer of its stream, and its entry on the heap.
  unfoldable pub buffer_event :
      ℕ → StreamState → NormalizedLobEvent → MultiBookSimulator → MultiBookSimulator
  buffer_event index ss ev m = push_entry (stream_entry index ev) (
      put_stream index
        (record ss { last_ts = some ev.ts_received; buffered = some ev; seq = next_u64 ss.seq }) m)

  abbrev pub emit_non_monotonic :
      StreamState → NormalizedLobEvent → MultiBookSimulator → MultiBookSimulator
  emit_non_monotonic ss ev m =
      emit_diagnostic ss.book_key non_monotonic_ts_received_detected_in_multi_book_simulator error
        ss.seq ev.ts_received ev.ts_exchange m

  -- `while (true)`, on as much fuel as the source can give events and one more.
  unfoldable pub fill_loop : ℕ → ℕ → StreamState → MultiBookSimulator → Run (Unit {0})
  unfolding next_normalized buffer_event
  fill_loop zero index ss m = returned tt (put_stream index ss m)
  fill_loop (suc fuel) index ss m = elim (next_normalized ss.stream) [
    | at_end st ↦ returned tt (put_stream index (record ss { stream = st; exhausted = true }) m)
    | failed st ↦ threw normalization_failed (put_stream index (record ss { stream = st }) m)
    | got ev st ↦
        let ss' = record ss { stream = st } in
        let m' = emit_non_monotonic ss ev m in
        let again = fill_loop fuel index ss' m' in
        if m.cfg.require_monotonic_ts_received && is_before ev.ts_received ss.last_ts
        then if m.cfg.fail_fast then threw non_monotonic_stream (put_stream index ss' m') else again
        else returned tt (buffer_event index ss' ev m)
  ]

  unfoldable pub fill_buffer : ℕ → MultiBookSimulator → Run (Unit {0})
  unfolding fill_loop
  fill_buffer index m = elim (get_elem? m.streams index) [
    | none ↦ returned tt m
    | some ss ↦
        if ss.exhausted
        then returned tt m
        else if is_some ss.buffered
        then returned tt m
        else fill_loop (suc (unread ss.stream)) index ss m
  ]

  -- The loop of `prime_streams`: the number of streams left, and the index.
  unfoldable pub prime_loop : ℕ → ℕ → MultiBookSimulator → Run (Unit {0})
  unfolding fill_buffer
  prime_loop zero index m = returned tt m
  prime_loop (suc left) index m =
      then_run (fill_buffer index m) (λ _ m'. prime_loop left (suc index) m')

  unfoldable pub prime_streams : MultiBookSimulator → Run (Unit {0})
  unfolding prime_loop
  prime_streams m = prime_loop (length m.streams) 0 m
