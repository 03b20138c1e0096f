-- ===== src/Session/Summary.antt =====
-- The summary of a run: its counts and its range of times.
use lobsim.Session.{count_event, RunSummary, count_update, empty_summary}
use lobsim.Base.{
  List, [], arith, false, inl, length, refl, true, ℤ, ◌%◌, ◌+◌, ◌<◌, ◌^◌, ◌∷◌, ◌≡◌, ◌≤ℤ◌, ◌⊎◌,
  Bool-cases, inr, ltb_ℤ, sym, ◌∙◌,
}
use lobsim.Types.{NormalizedLobEvent}

-- The summary after events that were all taken.
abbrev pub counted : List NormalizedLobEvent → RunSummary → RunSummary
counted [] summary = summary
counted (ev ∷ evs) summary = counted evs (count_update (count_event ev summary))

abbrev HasTime : ℤ → List NormalizedLobEvent → Type 0
HasTime t [] = false ≡ true
HasTime t (ev ∷ evs) = (ev.ts_received ≡ t) ⊎ HasTime t evs

abbrev AllWithin : ℤ → ℤ → List NormalizedLobEvent → Type 0
AllWithin lo hi [] = Unit
AllWithin lo hi (ev ∷ evs) = (lo ≤ℤ ev.ts_received) × (ev.ts_received ≤ℤ hi) × AllWithin lo hi evs

-- The range is the least and the greatest time; there is none without events.
abbrev pub IsRange : List NormalizedLobEvent → RunSummary → Type 0
IsRange [] summary = summary.has_ts_range ≡ false
IsRange (ev ∷ evs) summary =
    (summary.has_ts_range ≡ true)
    × AllWithin summary.first_ts_received summary.last_ts_received (ev ∷ evs)
    × HasTime summary.first_ts_received (ev ∷ evs)
    × HasTime summary.last_ts_received (ev ∷ evs)

pub counted-num :
    (evs : List NormalizedLobEvent) (summary : RunSummary)
    → summary.num_engine_updates < 2 ^ 64
    → summary.num_normalized_events < 2 ^ 64
    → let after = counted evs summary in
      (after.num_engine_updates ≡ (summary.num_engine_updates + length evs) % 2 ^ 64)
      × (after.num_normalized_events ≡ (summary.num_normalized_events + length evs) % 2 ^ 64)
unfolding count_event
counted-num [] summary h k = (omega arith, omega arith)
counted-num (ev ∷ evs) summary h k =
    let ih =
      counted-num evs (count_update (count_event ev summary)) (ground arith) (ground arith) in
    (ground (arith, ih.0), ground (arith, ih.1))

-- The range grows with the events.
record Grown (evs : List NormalizedLobEvent) (old new : RunSummary) : Type 0 where
  found : new.has_ts_range ≡ true
  below : new.first_ts_received ≤ℤ old.first_ts_received
  above : old.last_ts_received ≤ℤ new.last_ts_received
  within : AllWithin new.first_ts_received new.last_ts_received evs
  least : (new.first_ts_received ≡ old.first_ts_received) ⊎ HasTime new.first_ts_received evs
  greatest : (new.last_ts_received ≡ old.last_ts_received) ⊎ HasTime new.last_ts_received evs

-- One event.
record Widened (ev : NormalizedLobEvent) (old new : RunSummary) : Type 0 where
  set : new.has_ts_range ≡ true
  below : new.first_ts_received ≤ℤ old.first_ts_received
  above : old.last_ts_received ≤ℤ new.last_ts_received
  from_first : new.first_ts_received ≤ℤ ev.ts_received
  to_last : ev.ts_received ≤ℤ new.last_ts_received
  least : (new.first_ts_received ≡ old.first_ts_received) ⊎ (ev.ts_received ≡ new.first_ts_received)
  greatest : (new.last_ts_received ≡ old.last_ts_received) ⊎ (ev.ts_received ≡ new.last_ts_received)

Widened-count_event :
    (ev : NormalizedLobEvent) (summary : RunSummary)
    → summary.has_ts_range ≡ true
    → Widened ev summary (count_update (count_event ev summary))
unfolding count_event
Widened-count_event ev summary h = rw h (record {
  set = refl;
  below = ground arith;
  above = ground arith;
  from_first = ground arith;
  to_last = ground arith;
  least = elim (Bool-cases (ltb_ℤ ev.ts_received summary.first_ts_received)) [
    | inl less ↦ inr (ground (arith, less))
    | inr more ↦ inl (ground (arith, more))
  ];
  greatest = elim (Bool-cases (ltb_ℤ summary.last_ts_received ev.ts_received)) [
    | inl less ↦ inr (ground (arith, less))
    | inr more ↦ inl (ground (arith, more))
  ];
})

-- A time that was there before or comes from the event, and one that later events have.
later_time :
    (t u v : ℤ) (ev : NormalizedLobEvent) (evs : List NormalizedLobEvent)
    → (t ≡ u) ⊎ HasTime t evs
    → (u ≡ v) ⊎ (ev.ts_received ≡ u)
    → (t ≡ v) ⊎ HasTime t (ev ∷ evs)
later_time t u v ev evs (inl p) (inl q) = inl (p ∙ q)
later_time t u v ev evs (inl p) (inr q) = inr (inl (q ∙ sym p))
later_time t u v ev evs (inr p) q = inr (inr p)

Grown-counted :
    (evs : List NormalizedLobEvent) (summary : RunSummary)
    → summary.has_ts_range ≡ true
    → Grown evs summary (counted evs summary)
Grown-counted [] summary h = record {
  found = h;
  below = ground arith;
  above = ground arith;
  within = tt;
  least = inl refl;
  greatest = inl refl;
}
Grown-counted (ev ∷ evs) summary h =
    let next : RunSummary = count_update (count_event ev summary) in
    let one = Widened-count_event ev summary h in
    let rest = Grown-counted evs next one.set in
    let end : RunSummary = counted evs next in
    record {
      found = rest.found;
      below = ground (arith, one.below, rest.below);
      above = ground (arith, one.above, rest.above);
      within = (
        ground (arith, one.from_first, rest.below),
        ground (arith, one.to_last, rest.above),
        rest.within,
      );
      least =
          later_time end.first_ts_received next.first_ts_received summary.first_ts_received ev evs
            rest.least one.least;
      greatest =
          later_time end.last_ts_received next.last_ts_received summary.last_ts_received ev evs
            rest.greatest one.greatest;
    }

first_time :
    (t : ℤ) (ev : NormalizedLobEvent) (evs : List NormalizedLobEvent)
    → (t ≡ ev.ts_received) ⊎ HasTime t evs
    → HasTime t (ev ∷ evs)
first_time t ev evs (inl p) = inl (sym p)
first_time t ev evs (inr p) = inr p

pub counted-IsRange : (evs : List NormalizedLobEvent) → IsRange evs (counted evs empty_summary)
unfolding count_event
counted-IsRange [] = refl
counted-IsRange (ev ∷ evs) =
    let next : RunSummary = count_update (count_event ev empty_summary) in
    let end : RunSummary = counted evs next in
    let rest = Grown-counted evs next refl in
    (
      rest.found,
      (ground (arith, rest.below), ground (arith, rest.above), rest.within),
      first_time end.first_ts_received ev evs rest.least,
      first_time end.last_ts_received ev evs rest.greatest,
    )
