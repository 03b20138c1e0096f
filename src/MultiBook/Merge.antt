-- ===== src/MultiBook/Merge.antt =====
-- The entries of the heap that merges the streams and the strategy's events, and their comparator.
use lobsim.Base.{ℕ, ℤ, ltb, ltb_ℤ, ◌==ℤ◌, Bool, true, false, not, if◌then◌else◌}

pub data EntryKind : Type 0 where
  stream strategy : EntryKind

pub record HeapEntry : Type 0 where
  pub ts_received : ℤ
  pub ts_exchange : ℤ
  pub stream_index : ℕ
  pub kind : EntryKind
  pub strategy_index : ℕ

-- `a.kind != b.kind`, and `static_cast<int>(a.kind) > static_cast<int>(b.kind)`.
abbrev pub kind_gt : EntryKind → EntryKind → Bool
kind_gt strategy stream = true
kind_gt strategy strategy = false
kind_gt stream k = false

abbrev pub kind_eq : EntryKind → EntryKind → Bool
kind_eq stream stream = true
kind_eq stream strategy = false
kind_eq strategy stream = false
kind_eq strategy strategy = true

abbrev pub index_gt : HeapEntry → HeapEntry → Bool
index_gt a b = elim a.kind [
  | stream ↦ ltb b.stream_index a.stream_index
  | strategy ↦ ltb b.strategy_index a.strategy_index
]

-- `HeapCompare`: `a` comes after `b`.
unfoldable pub heap_compare : HeapEntry → HeapEntry → Bool
heap_compare a b =
    if not (a.ts_received ==ℤ b.ts_received)
    then ltb_ℤ b.ts_received a.ts_received
    else if not (kind_eq a.kind b.kind)
    then kind_gt a.kind b.kind
    else if not (a.ts_exchange ==ℤ b.ts_exchange)
    then ltb_ℤ b.ts_exchange a.ts_exchange
    else index_gt a b
