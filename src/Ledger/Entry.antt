-- ===== src/Ledger/Entry.antt =====
-- What a sound entry of the ledger is, and each change of an entry.
use lobsim.Ledger.{
  open_order, partially_filled, cancelled, rejected, PaperOrderFillRole, fill_entry, is_withdrawn,
}
use lobsim.Base.{
  int_eq, List, [], arith, false, if◌then◌else◌, int_laws, leb_ℤ, ltb_ℤ, pos, refl, true, ℤ, ◌++◌,
  ◌+ℤ◌, ◌<ℤ◌, ◌∷◌, ◌≡◌, ◌≤ℤ◌, Bool-cases, inl, inr, max_ℤ, min_ℤ, ◌-ℤ◌, ◌==ℤ◌, if_both, some, ◌∙◌,
  Bool, Option, ap, none, subst, sym,
}
use lobsim.Types.{EventApplyRecord, FillRecord}
use lobsim.Ledger.{
  filled, PaperOrderFill, PaperOrderLedgerEntry, PaperOrderLedgerStatus, PaperOrderState,
  count_fill, delete_state, opened, set_state, subtract_state, is_closed,
}

-- The positive quantities of the fills.
abbrev filled_lots : List PaperOrderFill → ℤ
filled_lots [] = pos 0
filled_lots (f ∷ fs) = (if ltb_ℤ (pos 0) f.qty_lots then f.qty_lots else pos 0) +ℤ filled_lots fs

-- What a status says of the quantity that is left and the quantity that is filled.
abbrev Fits : PaperOrderLedgerStatus → ℤ → ℤ → Type 0
Fits open_order left done = (pos 0 <ℤ left) × (done ≡ pos 0)
Fits partially_filled left done = (pos 0 <ℤ left) × (pos 0 <ℤ done)
Fits filled left done = (left ≡ pos 0) × (pos 0 <ℤ done)
Fits cancelled left done = (left ≡ pos 0) × (pos 0 ≤ℤ done)
Fits rejected left done = false ≡ true

-- An entry is kept under its own id, its filled quantity is that of its fills, and its status fits.
pub record IsSound (id : ℤ) (entry : PaperOrderLedgerEntry) : Type 0 where
  own_id : entry.state.order_id ≡ id
  counted : entry.state.filled_qty ≡ filled_lots entry.fills
  pub fits : Fits entry.state.status entry.state.remaining_qty entry.state.filled_qty

add_nothing : (a : ℤ) → a +ℤ pos 0 ≡ a
add_nothing a = grind int_laws

filled_lots-append :
    (fs : List PaperOrderFill) (f : PaperOrderFill)
    → filled_lots (fs ++ f ∷ [])
      ≡ filled_lots fs +ℤ (if ltb_ℤ (pos 0) f.qty_lots then f.qty_lots else pos 0)
filled_lots-append [] f = grind int_laws
filled_lots-append (g ∷ fs) f = grind (int_laws, filled_lots-append fs f)

abbrev StateFits : PaperOrderState → Type 0
StateFits state = Fits state.status state.remaining_qty state.filled_qty

-- The status after a quantity has changed.
Fits-after_fill :
    (left done qty : ℤ)
    → pos 0 ≤ℤ done
    → ltb_ℤ (pos 0) qty ≡ true
    → let left' = max_ℤ (left -ℤ qty) (pos 0) in
      Fits (if left' ==ℤ pos 0 then filled else partially_filled) left' (done +ℤ qty)
unfolding max_ℤ ◌+ℤ◌ ◌-ℤ◌
Fits-after_fill left done qty h q = ground arith

Fits-done : (st : PaperOrderLedgerStatus) (left done : ℤ) → Fits st left done → pos 0 ≤ℤ done
Fits-done open_order left done f = ground (arith, f.1)
Fits-done partially_filled left done f = omega (arith, f.1)
Fits-done filled left done f = omega (arith, f.1)
Fits-done cancelled left done f = f.1
Fits-done rejected left done f = absurd (ground (arith, f))

Fits-count_fill :
    (r : FillRecord) (state : PaperOrderState) → StateFits state → StateFits (count_fill r state)
Fits-count_fill r state f = elim (Bool-cases (ltb_ℤ (pos 0) r.qty_lots)) [
  | inl more ↦ rw more (
      Fits-after_fill state.remaining_qty state.filled_qty r.qty_lots
        (Fits-done state.status state.remaining_qty state.filled_qty f) more)
  | inr none_filled ↦ rw none_filled f
]

pub opened-IsSound :
    (r : EventApplyRecord) → leb_ℤ r.qty_lots (pos 0) ≡ false → IsSound r.order_id (opened r)
opened-IsSound r h = record { own_id = refl; counted = refl; fits = (ground (arith, h), refl) }

Fits-after_cut :
    (st : PaperOrderLedgerStatus) (left done qty : ℤ)
    → is_closed st ≡ false
    → pos 0 <ℤ qty
    → Fits st left done
    → let left' = left -ℤ min_ℤ left qty in
      Fits (if left' ==ℤ pos 0 then cancelled else st) left' done
unfolding min_ℤ ◌-ℤ◌
Fits-after_cut open_order left done qty h q f = ground (arith, f.0, f.1)
Fits-after_cut partially_filled left done qty h q f = ground (arith, f.0, f.1)
Fits-after_cut filled left done qty h q f = absurd (ground (arith, h))
Fits-after_cut cancelled left done qty h q f = absurd (ground (arith, h))
Fits-after_cut rejected left done qty h q f = absurd (ground (arith, h))

Fits-subtract_state :
    (r : EventApplyRecord) (state : PaperOrderState)
    → ltb_ℤ r.qty_lots (pos 0) ≡ false
    → StateFits state
    → StateFits (subtract_state r state)
unfolding subtract_state
Fits-subtract_state r state h f = elim (Bool-cases (is_closed state.status)) [
  | inl closed ↦ rw closed f
  | inr live ↦ rw live (elim (Bool-cases (r.qty_lots ==ℤ pos 0)) [
    | inl zero_lots ↦ rw zero_lots f
    | inr more ↦ rw more (
        Fits-after_cut state.status state.remaining_qty state.filled_qty r.qty_lots live
          (ground (arith, h, more)) f)
  ])
]

Fits-after_set :
    (left done : ℤ)
    → pos 0 ≤ℤ left
    → pos 0 ≤ℤ done
    → Fits
        (if left ==ℤ pos 0
          then cancelled
          else if ltb_ℤ (pos 0) done
          then partially_filled
          else open_order)
        left
        done
Fits-after_set left done p q = ground arith

Fits-set_state :
    (r : EventApplyRecord) (state : PaperOrderState)
    → StateFits state
    → StateFits (set_state r state)
unfolding set_state
Fits-set_state r state f = elim (Bool-cases (is_closed state.status)) [
  | inl closed ↦ rw closed f
  | inr live ↦ rw live (
      Fits-after_set (if ltb_ℤ r.qty_lots (pos 0) then pos 0 else r.qty_lots) state.filled_qty
        (ground arith) (Fits-done state.status state.remaining_qty state.filled_qty f))
]

Fits-delete_at :
    (r : EventApplyRecord) (state : PaperOrderState) (st : PaperOrderLedgerStatus)
    → state.status ≡ st
    → Fits st state.remaining_qty state.filled_qty
    → StateFits (delete_state r state)
unfolding delete_state
Fits-delete_at r state filled e f = rw e f
Fits-delete_at r state open_order e f = rw e (refl, Fits-done open_order _ _ f)
Fits-delete_at r state partially_filled e f = rw e (refl, Fits-done partially_filled _ _ f)
Fits-delete_at r state cancelled e f = rw e (refl, Fits-done cancelled _ _ f)
Fits-delete_at r state rejected e f = absurd (ground (arith, f))

abbrev pub fill_of : FillRecord → PaperOrderFillRole → PaperOrderFill
fill_of r role = record {
  seq = r.seq;
  ts_exchange = r.ts_exchange;
  ts_received = r.ts_received;
  price_ticks = r.price_ticks;
  qty_lots = r.qty_lots;
  role = role;
}

counted_fill :
    (r : FillRecord) (role : PaperOrderFillRole) (entry : PaperOrderLedgerEntry)
    → entry.state.filled_qty ≡ filled_lots entry.fills
    → (count_fill r entry.state).filled_qty ≡ filled_lots (entry.fills ++ fill_of r role ∷ [])
counted_fill r role entry h =
    let total = filled_lots-append entry.fills (fill_of r role) in
    elim (Bool-cases (ltb_ℤ (pos 0) r.qty_lots)) [
      | inl more ↦ rw more (ap (λ (x : ℤ). x +ℤ r.qty_lots) h ∙ sym (rw more at total))
      | inr none_filled ↦ rw none_filled (h ∙ sym (rw none_filled at total ∙ add_nothing _))
    ]

pub fill_entry-IsSound :
    (id : ℤ) (role : PaperOrderFillRole) (r : FillRecord) (entry : PaperOrderLedgerEntry)
    → IsSound id entry
    → IsSound id (fill_entry role r entry)
unfolding fill_entry
fill_entry-IsSound id role r entry h = elim (Bool-cases (is_withdrawn entry.state.status)) [
  | inl gone ↦ rw gone h
  | inr live ↦ rw live (record {
    own_id =
        if_both (λ (x : PaperOrderState). x.order_id ≡ id) (ltb_ℤ (pos 0) r.qty_lots) _ _ h.own_id
          h.own_id;
    counted = counted_fill r role entry h.counted;
    fits = Fits-count_fill r entry.state h.fits;
  })
]

-- What a change of the quantities keeps.
abbrev Keeps : (PaperOrderState → PaperOrderState) → Type 0
Keeps f =
    (state : PaperOrderState)
    → (f state).order_id ≡ state.order_id
      × ((f state).filled_qty ≡ state.filled_qty)
      × (StateFits state → StateFits (f state))

pub Keeps-IsSound :
    (id : ℤ) (f : PaperOrderState → PaperOrderState)
    → Keeps f
    → (entry : PaperOrderLedgerEntry) → IsSound id entry
    → IsSound id (record entry { state = f entry.state })
Keeps-IsSound id f k entry h = record {
  own_id = (k entry.state).0 ∙ h.own_id;
  counted = (k entry.state).1 ∙ h.counted;
  fits = (k entry.state).2 h.fits;
}

pub subtract_state-Keeps :
    (r : EventApplyRecord) → ltb_ℤ r.qty_lots (pos 0) ≡ false → Keeps (subtract_state r)
unfolding subtract_state
subtract_state-Keeps r h state = (ground arith, ground arith, Fits-subtract_state r state h)

pub set_state-Keeps : (r : EventApplyRecord) → Keeps (set_state r)
unfolding set_state
set_state-Keeps r state = (ground arith, ground arith, Fits-set_state r state)

pub delete_state-Keeps : (r : EventApplyRecord) → Keeps (delete_state r)
unfolding delete_state
delete_state-Keeps r state = (ground arith, ground arith, Fits-delete_at r state state.status refl)

pub assigned :
    (id j : ℤ) (entry e : PaperOrderLedgerEntry) (b : Bool) (o : Option PaperOrderLedgerEntry)
    → (b ≡ true → id ≡ j)
    → IsSound id entry
    → (o ≡ some e → IsSound j e)
    → (if b then some entry else o) ≡ some e
    → IsSound j e
assigned id j entry e true o q h k p =
    subst (λ x. IsSound x e) (q refl)
      (subst (λ (x : Option PaperOrderLedgerEntry). elim x [ none ↦ Unit | some y ↦ IsSound id y ])
        p h)
assigned id j entry e false o q h k p = k p
