-- ===== src/MultiSink/Index.antt =====
-- The indices of the logs: the records of a book after a record has been logged, and what a fill on
-- a ledger leaves alone.
use lobsim.MultiSink.{apply_strategy_fill, InMemoryMultiLogSink, fill_in_ledger}
use lobsim.Base.{
  ℕ, String, string_eq, ◌==◌, Option-cases, some, List, [], ◌∷◌, ◌++◌, length, get_elem?, HashMap,
  get_elem?-append_left, get_elem?-append_length, ◌≡◌, arith, inl, inr, if◌then◌else◌, Bool-cases,
  false, if_both, not, option_both, ℤ, ◌==ℤ◌,
}
use lobsim.MultiSink.{records_at, records_for, push_index, found_or}
use lobsim.Ledger.{PaperOrderFillRole, PaperOrderLedgerEntry}
use lobsim.Types.{FillRecord, UpdateSource, is_strategy, unknown_order_id_sentinel}

module _ {R : Type 0} where
  -- Reading the indices of a log that has grown.
  records_at-append :
      (rs : List R) (x : R) (is : List ℕ) (out : List R)
      → records_at rs is ≡ some out
      → records_at (rs ++ x ∷ []) is ≡ some out
  unfolding records_at
  records_at-append rs x [] out h = h
  records_at-append rs x (i ∷ is) out h = elim (Option-cases (get_elem? rs i)) [
    | inl missing ↦ absurd (ground (arith, h, missing))
    | inr (r, found) ↦ elim (Option-cases (records_at rs is)) [
      | inl missing ↦ absurd (ground (arith, h, found, missing))
      | inr (rest, more) ↦ ground (
        arith,
        h,
        found,
        more,
        get_elem?-append_left rs (x ∷ []) i r found,
        records_at-append rs x is rest more,
      )
    ]
  ]

  records_at-push :
      (rs : List R) (x : R) (is : List ℕ) (out : List R)
      → records_at (rs ++ x ∷ []) is ≡ some out
      → records_at (rs ++ x ∷ []) (is ++ length rs ∷ []) ≡ some (out ++ x ∷ [])
  unfolding records_at
  records_at-push rs x [] out h = ground (arith, h, get_elem?-append_length rs x)
  records_at-push rs x (i ∷ is) out h = elim (Option-cases (get_elem? (rs ++ x ∷ []) i)) [
    | inl missing ↦ absurd (ground (arith, h, missing))
    | inr (r, found) ↦ elim (Option-cases (records_at (rs ++ x ∷ []) is)) [
      | inl missing ↦ absurd (ground (arith, h, found, missing))
      | inr (rest, more) ↦ ground (arith, found, h, more, records_at-push rs x is rest more)
    ]
  ]

  module _ ⦃H : HashMap⦄ where
    -- At the book whose index grows.
    records_for-push_self :
        (k : String) (rs : List R) (x : R) (index : H.Map String (List ℕ)) (out : List R)
        → records_for rs index k ≡ some out
        → records_for (rs ++ x ∷ []) (push_index k (length rs) index) k ≡ some (out ++ x ∷ [])
    unfolding records_for push_index
    records_for-push_self k rs x index out h =
        let is : List ℕ = found_or [] k index in
        let old : records_at rs is ≡ some out = elim (Option-cases (H.find k index)) [
          | inl missing ↦ ground (arith, h, missing)
          | inr (js, found) ↦ ground (arith, h, found)
        ] in
        ground (
          arith,
          H.find-assign k k (is ++ length rs ∷ []) index,
          string_eq.beq_iff k k,
          records_at-push rs x is out (records_at-append rs x is out old),
        )

    -- At another book.
    records_for-push_ne :
        (key k : String) (rs : List R) (x : R) (index : H.Map String (List ℕ)) (out : List R)
        → (key == k) ≡ false
        → records_for rs index k ≡ some out
        → records_for (rs ++ x ∷ []) (push_index key (length rs) index) k ≡ some out
    unfolding records_for push_index
    records_for-push_ne key k rs x index out ne h =
        let same = H.find-assign k key (found_or [] key index ++ length rs ∷ []) index in
        elim (Option-cases (H.find k index)) [
          | inl missing ↦ ground (arith, h, missing, same, ne)
          | inr (is, found) ↦ ground (
            arith,
            same,
            ne,
            found,
            h,
            records_at-append rs x is out (rw (found, records_for) at h),
          )
        ]

    pub records_for-push :
        (key k : String) (rs : List R) (x : R) (index : H.Map String (List ℕ)) (out : List R)
        → records_for rs index k ≡ some out
        → records_for (rs ++ x ∷ []) (push_index key (length rs) index) k
          ≡ some (if key == k then out ++ x ∷ [] else out)
    records_for-push key k rs x index out h = elim (Bool-cases (key == k)) [
      | inl same ↦
          rw same (rw ((string_eq.beq_iff key k).0 same) (records_for-push_self k rs x index out h))
      | inr ne ↦ rw ne (records_for-push_ne key k rs x index out ne h)
    ]

    pub records_for-empty : (k : String) → records_for {R = R} [] H.empty k ≡ some []
    unfolding records_for
    records_for-empty k = ground (arith, H.find-empty {V = List ℕ} k)

module _ ⦃H : HashMap⦄ where
  -- A fill on a ledger changes no other field.
  pub apply_strategy_fill_keeps :
      (P : InMemoryMultiLogSink → Type 0)
      → ((m : InMemoryMultiLogSink) (l : H.Map String (H.Map ℤ PaperOrderLedgerEntry))
          → P m
          → P (record m { paper_ledger = l }))
      → (key : String) (id : ℤ) (source : UpdateSource) (role : PaperOrderFillRole) (r : FillRecord)
        (m : InMemoryMultiLogSink)
      → P m
      → P (apply_strategy_fill key id source role r m)
  unfolding apply_strategy_fill
  apply_strategy_fill_keeps P keep key id source role r m h =
      if_both P (not (is_strategy source)) _ _ h (
        if_both P (id ==ℤ unknown_order_id_sentinel) _ _ h (
          option_both P (H.find key m.paper_ledger) m _ h (λ ledger.
            option_both P (fill_in_ledger id role r ledger) m _ h (λ ledger'. keep m _ h))))
