-- ===== src/MultiBook/Valid.antt =====
-- The heap against the buffers of the streams and the events of the strategy.
use lobsim.MultiBook.Stream.{stream_entry}
use lobsim.Base.{
  set as set_at, Bool-cases, List, Option, [], arith, get_elem?, if◌then◌else◌, inl, inr, is_some,
  none, refl, some, ℕ, ◌+◌, ◌==ℕ◌, ◌∷◌, ◌≡◌, ==ℕ_iff, ap, get_elem?-set_ne, get_elem?-set_self,
  subst, ◌∙◌, ◌≢◌,
}
use lobsim.Base.Heap.{push}
use lobsim.Base.HeapOrder.{Every, IsSorted, push-IsSorted, Every-push}
use lobsim.MultiBook.Merge.{HeapEntry, heap_compare, stream, strategy, EntryKind}
use lobsim.MultiBook.Order.{heap_compare-IsStrictOrder}
use lobsim.MultiBook.State.{StreamState, StrategyItem}
use lobsim.Engine.State.{heap}
use lobsim.Types.{NormalizedLobEvent}
use lobsim.MultiBook.Stream.{stream_entry}

-- Whether a stream has an event in its buffer, as a number.
abbrev pub held : Option StreamState → ℕ
held none = 0
held (some ss) = if is_some ss.buffered then 1 else 0

-- The entries of a stream.
abbrev own_as : EntryKind → ℕ → HeapEntry → ℕ
own_as strategy i e = 0
own_as stream i e = if e.stream_index ==ℕ i then 1 else 0

abbrev pub own : ℕ → HeapEntry → ℕ
own i e = own_as e.kind i e

abbrev pub entries_of : ℕ → List HeapEntry → ℕ
entries_of i [] = 0
entries_of i (e ∷ h) = own i e + entries_of i h

pub entries_of-push :
    (i : ℕ) (e : HeapEntry) (h : List HeapEntry)
    → entries_of i (push heap_compare e h) ≡ own i e + entries_of i h
entries_of-push i e [] = refl
entries_of-push i e (x ∷ h) = elim (Bool-cases (heap_compare x e)) [
  | inl first ↦ rw first refl
  | inr later ↦ rw later (omega (arith, entries_of-push i e h))
]

-- What an entry stands for: the event in the buffer of its stream, or an event of the strategy.
abbrev pub StandsAs : EntryKind → List StreamState → List StrategyItem → HeapEntry → Type 0
StandsAs stream streams items e =
    (ss : StreamState) × (ev : NormalizedLobEvent) × (get_elem? streams e.stream_index ≡ some ss)
    × (ss.buffered ≡ some ev)
    × (e.ts_received ≡ ev.ts_received)
    × (e.ts_exchange ≡ ev.ts_exchange)
StandsAs strategy streams items e =
    (item : StrategyItem) × (get_elem? items e.strategy_index ≡ some item)
    × (e.ts_received ≡ item.ev.ts_received)
    × (e.ts_exchange ≡ item.ev.ts_exchange)

abbrev pub Stands : List StreamState → List StrategyItem → HeapEntry → Type 0
Stands streams items e = StandsAs e.kind streams items e

-- Each buffered event has one entry on the heap, each entry stands for an event, and the heap is in
-- order.
pub record Merges (streams : List StreamState) (items : List StrategyItem) (heap : List HeapEntry)
    : Type 0 where
  pub counts : (i : ℕ) → entries_of i heap ≡ held (get_elem? streams i)
  pub stands : Every (Stands streams items) heap
  pub sorted : IsSorted heap_compare heap

-- The entries of the other streams when one stream changes.
Stands-set :
    (k : EntryKind) (streams : List StreamState) (items : List StrategyItem) (i : ℕ)
    (ss : StreamState) (e : HeapEntry)
    → own_as k i e ≡ 0
    → StandsAs k streams items e
    → StandsAs k (set_at streams i ss) items e
Stands-set stream streams items i ss e other h =
    let ne : i ≢ e.stream_index = λ p. ground (arith, other, p) in
    (h.0, h.1, get_elem?-set_ne streams i e.stream_index ss ne ∙ h.2, h.3, h.4, h.5)
Stands-set strategy streams items i ss e other h = h

Every-Stands-set :
    (streams : List StreamState) (items : List StrategyItem) (i : ℕ) (ss : StreamState)
    (heap : List HeapEntry)
    → entries_of i heap ≡ 0
    → Every (Stands streams items) heap
    → Every (Stands (set_at streams i ss) items) heap
Every-Stands-set streams items i ss [] free h = tt
Every-Stands-set streams items i ss (e ∷ heap) free h = (
  Stands-set e.kind streams items i ss e (omega (arith, free)) h.0,
  Every-Stands-set streams items i ss heap (omega (arith, free)) h.1,
)

held-set :
    (streams : List StreamState) (i j : ℕ) (old ss : StreamState)
    → get_elem? streams i ≡ some old
    → held (get_elem? (set_at streams i ss) j)
      ≡ (if i ==ℕ j then held (some ss) else held (get_elem? streams j))
held-set streams i j old ss found = elim (Bool-cases (i ==ℕ j)) [
  | inl same ↦
      let e : i ≡ j = (==ℕ_iff i j).0 same in
      rw same (
        ap held (
          subst (λ (x : ℕ). get_elem? (set_at streams i ss) x ≡ some ss) e
            (get_elem?-set_self streams i ss old found)))
  | inr other ↦ rw other (ap held (get_elem?-set_ne streams i j ss (λ p. ground (arith, other, p))))
]

-- A stream that is changed while it has no entry, before and after.
pub Merges-idle :
    (streams : List StreamState) (items : List StrategyItem) (heap : List HeapEntry) (i : ℕ)
    (old ss : StreamState)
    → get_elem? streams i ≡ some old
    → entries_of i heap ≡ 0
    → ss.buffered ≡ none
    → ((j : ℕ) → i ≢ j → entries_of j heap ≡ held (get_elem? streams j))
    → Every (Stands streams items) heap
    → IsSorted heap_compare heap
    → Merges (set_at streams i ss) items heap
Merges-idle streams items heap i old ss found free idle counts stands sorted = record {
  counts = λ j. elim (Bool-cases (i ==ℕ j)) [
    | inl same ↦ ground (arith, held-set streams i j old ss found, same, free, idle, ==ℕ_iff i j)
    | inr other ↦
        ground (
          arith,
          held-set streams i j old ss found,
          other,
          counts j (λ p. ground (arith, other, p)),
        )
  ];
  stands = Every-Stands-set streams items i ss heap free stands;
  sorted = sorted;
}

-- A stream whose buffer is filled, with an entry for the event.
pub Merges-buffer :
    (streams : List StreamState) (items : List StrategyItem) (heap : List HeapEntry) (i : ℕ)
    (old ss : StreamState) (ev : NormalizedLobEvent)
    → get_elem? streams i ≡ some old
    → old.buffered ≡ none
    → ss.buffered ≡ some ev
    → Merges streams items heap
    → Merges (set_at streams i ss) items (push heap_compare (stream_entry i ev) heap)
Merges-buffer streams items heap i old ss ev found idle full m =
    let free : entries_of i heap ≡ 0 = m.counts i ∙ ground (arith, found, idle) in
    record {
      counts = λ j. ground (
        arith,
        held-set streams i j old ss found,
        entries_of-push j (stream_entry i ev) heap,
        m.counts j,
        full,
        free,
        idle,
        found,
        ==ℕ_iff i j,
      );
      stands =
          Every-push heap_compare (Stands (set_at streams i ss) items) (stream_entry i ev) heap
            (ss, ev, get_elem?-set_self streams i ss old found, full, refl, refl)
            (Every-Stands-set streams items i ss heap free m.stands);
      sorted =
          push-IsSorted heap_compare heap_compare-IsStrictOrder.0 heap_compare-IsStrictOrder.1
            (stream_entry i ev) heap m.sorted;
    }
