-- ===== src/MultiBook/Ready.antt =====
-- What filling does to the streams: which are ready, and how many events are left.
use lobsim.Base.{if_cases}
use lobsim.MultiBook.Filled.{EndsAs-map}
use lobsim.MultiBook.Stream.{stream_entry}
use lobsim.Types.{next_u64}
use lobsim.Base.{
  set as set_at, Bool, Bool-cases, List, Option, [], arith, inl, inr, length, none, some, ◌<◌, ◌∷◌,
  ◌≡◌, HashMap, get_elem?, get_elem?-set_ne, get_elem?-set_self, is_some, length-set, refl, suc,
  true, zero, ℕ, ◌+◌, ◌||◌, ◌≢◌, ◌≤◌, ap, if_both, ◌&&◌, ◌∙◌, Option-cases,
}
use lobsim.MultiBook.Merge.{heap_compare, HeapEntry}
use lobsim.Base.Heap.{push}
use lobsim.MultiBook.Stream.{
  fill_loop, fill_buffer, buffer_event, next_normalized, next_adapted, got, at_end, unread,
  emit_non_monotonic, is_before,
}
use lobsim.MultiBook.State.{adapted, normalized, Run, Stream, MultiBookSimulator, StreamState}
use lobsim.MultiBook.Step.{pending, unread_all}
use lobsim.MultiBook.Filled.{EndsAs, next_both, emit_diagnostic_keeps}
use lobsim.Types.{NormalizedLobEvent}

-- An event that a source has given is no longer among those that it has left.
unread_adapted :
    (fail_fast : Bool) (raws : List (Option NormalizedLobEvent)) (ev : NormalizedLobEvent)
    (st : Stream)
    → next_adapted fail_fast raws ≡ got ev st
    → unread st < length raws
unfolding next_adapted
unread_adapted fail_fast [] ev st h = absurd (ground (arith, h))
unread_adapted fail_fast (none ∷ raws) ev st h = elim (Bool-cases fail_fast) [
  | inl strict ↦ absurd (ground (arith, h, strict))
  | inr lax ↦ omega (arith, unread_adapted fail_fast raws ev st (rw (lax, next_adapted) at h))
]
unread_adapted fail_fast (some e ∷ raws) ev st h = ground (arith, h)

unread_got :
    (s : Stream) (ev : NormalizedLobEvent) (st : Stream)
    → next_normalized s ≡ got ev st
    → unread st < unread s
unfolding next_normalized
unread_got (adapted fail_fast raws) ev st h = unread_adapted fail_fast raws ev st h
unread_got (normalized []) ev st h = absurd (ground (arith, h))
unread_got (normalized (e ∷ evs)) ev st h = ground (arith, h)

unread_adapted_end :
    (fail_fast : Bool) (raws : List (Option NormalizedLobEvent)) (st : Stream)
    → next_adapted fail_fast raws ≡ at_end st
    → unread st ≡ 0
unfolding next_adapted
unread_adapted_end fail_fast [] st h = ground (arith, h)
unread_adapted_end fail_fast (none ∷ raws) st h = elim (Bool-cases fail_fast) [
  | inl strict ↦ absurd (ground (arith, h, strict))
  | inr lax ↦ unread_adapted_end fail_fast raws st (rw (lax, next_adapted) at h)
]
unread_adapted_end fail_fast (some e ∷ raws) st h = absurd (ground (arith, h))

unread_end : (s : Stream) (st : Stream) → next_normalized s ≡ at_end st → unread st ≡ 0
unfolding next_normalized
unread_end (adapted fail_fast raws) st h = unread_adapted_end fail_fast raws st h
unread_end (normalized []) st h = ground (arith, h)
unread_end (normalized (e ∷ evs)) st h = absurd (ground (arith, h))

pub unread_all-set :
    (streams : List StreamState) (i : ℕ) (old ss : StreamState)
    → get_elem? streams i ≡ some old
    → unread_all (set_at streams i ss) + unread old.stream ≡ unread_all streams + unread ss.stream
unread_all-set [] i old ss h = absurd (ground (arith, h))
unread_all-set (x ∷ streams) zero old ss h = ground (arith, h)
unread_all-set (x ∷ streams) (suc i) old ss h = omega (arith, unread_all-set streams i old ss h)

length-push_entry :
    (e : HeapEntry) (h : List HeapEntry) → length (push heap_compare e h) ≡ suc (length h)
length-push_entry e [] = refl
length-push_entry e (x ∷ h) = ground (arith, length-push_entry e h)

-- A stream that needs no filling.
abbrev pub is_ready : Option StreamState → Bool
is_ready none = true
is_ready (some ss) = ss.exhausted || is_some ss.buffered

module _ ⦃H : HashMap⦄ where
  -- What filling one stream does: it is ready, the others stay, and of the events that the stream had
  -- left at most as many wait as there were.
  pub record Fills (index left : ℕ) (m m' : MultiBookSimulator) : Type 0 where
    pub ready : is_ready (get_elem? m'.streams index) ≡ true
    pub others : (j : ℕ) → index ≢ j → get_elem? m'.streams j ≡ get_elem? m.streams j
    pub cost : pending m' ≤ length m.heap + left
    pub size : length m'.streams ≡ length m.streams

  -- A diagnostic in between.
  Fills-emit :
      (index left : ℕ) (m m' : MultiBookSimulator)
      → (m'.streams ≡ m.streams) × (m'.heap ≡ m.heap)
      → (x : MultiBookSimulator) → Fills index left m' x
      → Fills index left m x
  Fills-emit index left m m' (same, same_heap) x f = record {
    ready = f.ready;
    others = λ j ne. f.others j ne ∙ ap (λ (s : List StreamState). get_elem? s j) same;
    cost = omega (arith, f.cost, ap (λ (h : List HeapEntry). length h) same_heap);
    size = f.size ∙ ap (λ (s : List StreamState). length s) same;
  }

  Fills-buffer :
      (index left : ℕ) (ss old : StreamState) (ev : NormalizedLobEvent) (m : MultiBookSimulator)
      → get_elem? m.streams index ≡ some old
      → suc (unread_all m.streams + unread ss.stream) ≤ left + unread old.stream
      → Fills index left m (buffer_event index ss ev m)
  unfolding buffer_event
  Fills-buffer index left ss old ev m found sum =
      let ss' : StreamState = record ss {
        last_ts = some ev.ts_received;
        buffered = some ev;
        seq = next_u64 ss.seq;
      } in
      record {
        ready = rw (get_elem?-set_self m.streams index ss' old found, is_ready) (ground arith);
        others = λ j ne. get_elem?-set_ne m.streams index j ss' ne;
        cost = omega (
          arith,
          unread_all-set m.streams index old ss' found,
          sum,
          length-push_entry (stream_entry index ev) m.heap,
        );
        size = length-set m.streams index ss';
      }

  Fills-fill_loop :
      (fuel index : ℕ) (ss old : StreamState) (m : MultiBookSimulator)
      → get_elem? m.streams index ≡ some old
      → unread ss.stream < fuel
      → (left : ℕ) → unread_all m.streams + unread ss.stream ≤ left + unread old.stream
      → EndsAs (λ _. Fills index left m) (λ _. Unit) (fill_loop fuel index ss m)
  unfolding fill_loop
  Fills-fill_loop zero index ss old m found enough left sum = absurd (omega arith)
  Fills-fill_loop (suc fuel) index ss old m found enough left sum =
      next_both (EndsAs (λ _. Fills index left m) (λ _. Unit)) (next_normalized ss.stream) _ _ _
        (λ ev st e.
          let m' : MultiBookSimulator = emit_non_monotonic ss ev m in
          let ss' : StreamState = record ss { stream = st } in
          let same : (m'.streams ≡ m.streams) × (m'.heap ≡ m.heap) =
            emit_diagnostic_keeps (λ x. (x.streams ≡ m.streams) × (x.heap ≡ m.heap)) (λ x o g. g) _
              _ _ _ _ _ m (refl, refl) in
          let fewer = unread_got ss.stream ev st e in
          if_both (EndsAs (λ _. Fills index left m) (λ _. Unit))
            (m.cfg.require_monotonic_ts_received && is_before ev.ts_received ss.last_ts) _ _
            (if_both (EndsAs (λ _. Fills index left m) (λ _. Unit)) m.cfg.fail_fast _ _
              ((λ x. cc), tt)
              (EndsAs-map (λ _. Fills index left m') (λ _. Fills index left m) (λ _. Unit)
                (λ _. Unit) _ (λ _. Fills-emit index left m m' same) (λ _ u. u)
                (Fills-fill_loop fuel index ss' old m'
                  (ap (λ (s : List StreamState). get_elem? s index) same.0 ∙ found)
                  (omega (arith, fewer)) left
                  (omega (arith, fewer, sum, ap (λ (s : List StreamState). unread_all s) same.0)))))
            (Fills-buffer index left ss' old ev m found (omega (arith, fewer, sum))))
        (λ st e.
          let ss' : StreamState = record ss { stream = st; exhausted = true } in
          record {
            ready = rw (get_elem?-set_self m.streams index ss' old found, is_ready) refl;
            others = λ j ne. get_elem?-set_ne m.streams index j ss' ne;
            cost = omega (
              arith,
              unread_all-set m.streams index old ss' found,
              unread_end ss.stream st e,
              sum,
            );
            size = length-set m.streams index ss';
          })
        (λ st e. ((λ x. cc), tt))

  pub Fills-fill_buffer :
      (index : ℕ) (m : MultiBookSimulator)
      → EndsAs (λ _. Fills index (unread_all m.streams) m) (λ _. Unit) (fill_buffer index m)
  unfolding fill_buffer
  Fills-fill_buffer index m =
      let Goal : Run (Unit {0}) → Type 0 =
        EndsAs (λ _. Fills index (unread_all m.streams) m) (λ _. Unit) in
      let as_it_is : is_ready (get_elem? m.streams index) ≡ true
          → Fills index (unread_all m.streams) m m =
        λ r. record { ready = r; others = λ j ne. refl; cost = omega arith; size = refl } in
      elim (Option-cases (get_elem? m.streams index)) [
        | inl missing ↦ rw (missing, fill_buffer) (as_it_is (rw missing refl))
        | inr (ss, found) ↦
            rw (found, fill_buffer)
              (if_cases Goal ss.exhausted _ _
                (λ over. as_it_is (rw (found, is_ready) (ground (arith, over))))
                (λ _.
                  if_cases Goal (is_some ss.buffered) _ _
                    (λ full. as_it_is (rw (found, is_ready) (ground (arith, full))))
                    (λ _.
                      Fills-fill_loop (suc (unread ss.stream)) index ss ss m found (omega arith)
                        (unread_all m.streams) (omega arith))))
      ]
