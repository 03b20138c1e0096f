-- ===== src/MultiBook/Changes.antt =====
-- The heap against the buffers after a stream or an event of the strategy is added, and after an entry
-- is taken from the heap.
use lobsim.MultiBook.Step.{strategy_entry}
use lobsim.Base.{
  set as set_at, List, Option, [], arith, get_elem?, is_some, none, refl, some, ℕ, ◌∷◌, ◌≡◌, length,
  subst, ◌++◌, ◌∙◌, get_elem?-append_left, get_elem?-append_length, suc, sym, zero,
}
use lobsim.Base.Heap.{push}
use lobsim.Base.HeapOrder.{push-IsSorted, Every-push, Every-map}
use lobsim.MultiBook.Merge.{HeapEntry, heap_compare, stream, strategy, EntryKind}
use lobsim.MultiBook.Order.{heap_compare-IsStrictOrder}
use lobsim.MultiBook.State.{StreamState, StrategyItem}
use lobsim.Engine.State.{heap}
use lobsim.Types.{NormalizedLobEvent}
use lobsim.MultiBook.Valid.{
  held, own, entries_of, entries_of-push, StandsAs, Stands, Merges-idle, Merges,
}

StandsAs-append :
    (k : EntryKind) (streams : List StreamState) (items : List StrategyItem) (item : StrategyItem)
    (e : HeapEntry)
    → StandsAs k streams items e
    → StandsAs k streams (items ++ item ∷ []) e
StandsAs-append stream streams items item e h = h
StandsAs-append strategy streams items item e h =
    (h.0, get_elem?-append_left items (item ∷ []) e.strategy_index h.0 h.1, h.2, h.3)

-- A new event of the strategy.
pub Merges-strategy :
    (streams : List StreamState) (items : List StrategyItem) (heap : List HeapEntry)
    (item : StrategyItem)
    → Merges streams items heap
    → Merges streams
        (items ++ item ∷ [])
        (push heap_compare (strategy_entry item (length items)) heap)
Merges-strategy streams items heap item m = record {
  counts =
      λ j. entries_of-push j (strategy_entry item (length items)) heap ∙ omega (arith, m.counts j);
  stands =
      Every-push heap_compare (Stands streams (items ++ item ∷ []))
        (strategy_entry item (length items)) heap
        (item, get_elem?-append_length items item, refl, refl)
        (Every-map (Stands streams items) (Stands streams (items ++ item ∷ []))
          (λ e. StandsAs-append e.kind streams items item e) heap m.stands);
  sorted =
      push-IsSorted heap_compare heap_compare-IsStrictOrder.0 heap_compare-IsStrictOrder.1
        (strategy_entry item (length items)) heap m.sorted;
}

-- A new stream.
held-append :
    (streams : List StreamState) (ss : StreamState) (j : ℕ)
    → ss.buffered ≡ none
    → held (get_elem? (streams ++ ss ∷ []) j) ≡ held (get_elem? streams j)
held-append [] ss zero idle = ground (arith, idle)
held-append [] ss (suc j) idle = refl
held-append (x ∷ streams) ss zero idle = refl
held-append (x ∷ streams) ss (suc j) idle = held-append streams ss j idle

StandsAs-stream :
    (k : EntryKind) (streams : List StreamState) (items : List StrategyItem) (ss : StreamState)
    (e : HeapEntry)
    → StandsAs k streams items e
    → StandsAs k (streams ++ ss ∷ []) items e
StandsAs-stream stream streams items ss e h =
    (h.0, h.1, get_elem?-append_left streams (ss ∷ []) e.stream_index h.0 h.2, h.3, h.4, h.5)
StandsAs-stream strategy streams items ss e h = h

pub Merges-stream :
    (streams : List StreamState) (items : List StrategyItem) (heap : List HeapEntry)
    (ss : StreamState)
    → ss.buffered ≡ none
    → Merges streams items heap
    → Merges (streams ++ ss ∷ []) items heap
Merges-stream streams items heap ss idle m = record {
  counts = λ j. m.counts j ∙ sym (held-append streams ss j idle);
  stands =
      Every-map (Stands streams items) (Stands (streams ++ ss ∷ []) items)
        (λ e. StandsAs-stream e.kind streams items ss e) heap m.stands;
  sorted = m.sorted;
}

-- The entry on top is taken off.
pub Merges-pop_strategy :
    (streams : List StreamState) (items : List StrategyItem) (entry : HeapEntry)
    (rest : List HeapEntry)
    → entry.kind ≡ strategy
    → Merges streams items (entry ∷ rest)
    → StandsAs strategy streams items entry × Merges streams items rest
Merges-pop_strategy streams items entry rest kind m = (
  subst (λ (k : EntryKind). StandsAs k streams items entry) kind m.stands.0,
  record {
    counts = λ j. ground (arith, m.counts j, kind);
    stands = m.stands.1;
    sorted = m.sorted.1;
  },
)

own_self : (entry : HeapEntry) → entry.kind ≡ stream → own entry.stream_index entry ≡ 1
own_self entry kind = ground (arith, kind)

held_full :
    (o : Option StreamState) (ss : StreamState) (ev : NormalizedLobEvent)
    → o ≡ some ss
    → ss.buffered ≡ some ev
    → held o ≡ 1
held_full o ss ev found full = rw (found, held) (rw (full, is_some) refl)

pub Merges-pop_stream :
    (streams : List StreamState) (items : List StrategyItem) (entry : HeapEntry)
    (rest : List HeapEntry)
    → entry.kind ≡ stream
    → Merges streams items (entry ∷ rest)
    → (ss : StreamState) × (ev : NormalizedLobEvent) × (get_elem? streams entry.stream_index
        ≡ some ss)
      × (ss.buffered ≡ some ev)
      × (entry.ts_received ≡ ev.ts_received)
      × Merges (set_at streams entry.stream_index (record ss { buffered = none })) items rest
Merges-pop_stream streams items entry rest kind m =
    let (ss, ev, found, full, received, exchange) =
      subst (λ (k : EntryKind). StandsAs k streams items entry) kind m.stands.0 in
    let i = entry.stream_index in
    let one : held (get_elem? streams i) ≡ 1 = held_full (get_elem? streams i) ss ev found full in
    let free : entries_of i rest ≡ 0 = omega (arith, m.counts i, own_self entry kind, one) in
    (
      ss,
      ev,
      found,
      full,
      received,
      Merges-idle streams items rest i ss (record ss { buffered = none }) found free refl
          (λ j ne. ground (arith, m.counts j, kind, ne)) m.stands.1 m.sorted.1,
    )
