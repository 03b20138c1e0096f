-- ===== src/MultiBook/Order.antt =====
-- The comparator of the heap as an order of the events.
use lobsim.MultiBook.Merge.{strategy, stream}
use lobsim.MultiBook.Merge.{heap_compare, HeapEntry, EntryKind, index_gt, kind_eq, kind_gt, stream}
use lobsim.Base.{arith, false, refl, true, ◌≡◌, Bool, if◌then◌else◌, ltb_ℤ, not, ℤ, ◌==ℤ◌}

heap_compare_irrefl : (a : HeapEntry) → heap_compare a a ≡ false
unfolding heap_compare
heap_compare_irrefl a = ground arith

-- One key of a lexicographic comparison of three: which are equal, and which come after.
record IsKey (eab ebc eac gab gbc gac : Bool) : Type 0 where
  both : eab ≡ true → ebc ≡ true → eac ≡ true
  left : eab ≡ true → ebc ≡ false → gbc ≡ true → (eac ≡ false) × (gac ≡ true)
  right : eab ≡ false → gab ≡ true → ebc ≡ true → (eac ≡ false) × (gac ≡ true)
  twice : eab ≡ false → gab ≡ true → ebc ≡ false → gbc ≡ true → (eac ≡ false) × (gac ≡ true)

lex_trans :
    (eab ebc eac gab gbc gac rab rbc rac : Bool)
    → IsKey eab ebc eac gab gbc gac
    → (eab ≡ true → ebc ≡ true → rab ≡ true → rbc ≡ true → rac ≡ true)
    → (if not eab then gab else rab) ≡ true
    → (if not ebc then gbc else rbc) ≡ true
    → (if not eac then gac else rac) ≡ true
lex_trans true true eac gab gbc gac rab rbc rac k r p q = rw (k.both refl refl) (r refl refl p q)
lex_trans true false eac gab gbc gac rab rbc rac k r p q =
    let (ne, gt) = k.left refl refl q in rw ne gt
lex_trans false true eac gab gbc gac rab rbc rac k r p q =
    let (ne, gt) = k.right refl p refl in rw ne gt
lex_trans false false eac gab gbc gac rab rbc rac k r p q =
    let (ne, gt) = k.twice refl p refl q in rw ne gt

IsKey-int : (a b c : ℤ) → IsKey (a ==ℤ b) (b ==ℤ c) (a ==ℤ c) (ltb_ℤ b a) (ltb_ℤ c b) (ltb_ℤ c a)
IsKey-int a b c = record {
  both = λ p q. ground (arith, p, q);
  left = λ p q r. (ground (arith, p, q, r), ground (arith, p, q, r));
  right = λ p q r. (ground (arith, p, q, r), ground (arith, p, q, r));
  twice = λ p q r s. (ground (arith, p, q, r, s), ground (arith, p, q, r, s));
}

IsKey-kind :
    (a b c : EntryKind)
    → IsKey (kind_eq a b) (kind_eq b c) (kind_eq a c) (kind_gt a b) (kind_gt b c) (kind_gt a c)
IsKey-kind a b c = record {
  both = λ p q. ground (arith, p, q);
  left = λ p q r. (ground (arith, p, q, r), ground (arith, p, q, r));
  right = λ p q r. (ground (arith, p, q, r), ground (arith, p, q, r));
  twice = λ p q r s. (ground (arith, p, q, r, s), ground (arith, p, q, r, s));
}

-- The index that is compared is that of the kind; here all three are of one kind.
index_gt_trans :
    (a b c : HeapEntry)
    → a.kind ≡ b.kind
    → b.kind ≡ c.kind
    → index_gt a b ≡ true
    → index_gt b c ≡ true
    → index_gt a c ≡ true
index_gt_trans a b c h k p q = ground arith

kind_of_eq : (k l : EntryKind) → kind_eq k l ≡ true → k ≡ l
kind_of_eq k l h = ground (arith, h)

heap_compare_trans :
    (a b c : HeapEntry)
    → heap_compare a b ≡ true
    → heap_compare b c ≡ true
    → heap_compare a c ≡ true
unfolding heap_compare
heap_compare_trans a b c =
    lex_trans _ _ _ _ _ _ _ _ _ (IsKey-int a.ts_received b.ts_received c.ts_received) (λ _ _.
      lex_trans _ _ _ _ _ _ _ _ _ (IsKey-kind a.kind b.kind c.kind) (λ same same'.
        lex_trans _ _ _ _ _ _ _ _ _ (IsKey-int a.ts_exchange b.ts_exchange c.ts_exchange) (λ _ _.
          index_gt_trans a b c (kind_of_eq a.kind b.kind same) (kind_of_eq b.kind c.kind same'))))

-- Two entries of which neither comes after the other are alike in all that is compared.
abbrev IsTie : HeapEntry → HeapEntry → Type 0
IsTie a b =
    (a.ts_received ≡ b.ts_received)
    × (a.kind ≡ b.kind)
    × (a.ts_exchange ≡ b.ts_exchange)
    × (a.kind ≡ stream → a.stream_index ≡ b.stream_index)
    × (a.kind ≡ strategy → a.strategy_index ≡ b.strategy_index)

heap_compare_total :
    (a b : HeapEntry) → heap_compare a b ≡ false → heap_compare b a ≡ false → IsTie a b
unfolding heap_compare
heap_compare_total a b p q = (
  ground (arith, p, q),
  ground (arith, p, q),
  ground (arith, p, q),
  λ k. ground (arith, p, q, k),
  λ k. ground (arith, p, q, k),
)

-- The comparator of the heap is a strict order: no entry comes after itself; what comes after an entry
-- comes after those that this one comes after; and two entries of which neither comes after the other
-- have the same times, the same kind and the same index of that kind.
pub heap_compare-IsStrictOrder :
    ((a : HeapEntry) → heap_compare a a ≡ false)
    × ((a b c : HeapEntry)
        → heap_compare a b ≡ true
        → heap_compare b c ≡ true
        → heap_compare a c ≡ true)
    × ((a b : HeapEntry) → heap_compare a b ≡ false → heap_compare b a ≡ false → IsTie a b)
heap_compare-IsStrictOrder = (heap_compare_irrefl, heap_compare_trans, heap_compare_total)
