-- ===== src/MultiSink/Scoped.antt =====
-- The sinks of the engines, `BookScopedSink`, on top of the sink of several books.
use lobsim.MultiSink.{pass_on}
use lobsim.Base.{
  string_eq, Bool-cases, HashMap, List, Option-cases, String, [], arith, if◌then◌else◌, inl, inr,
  is_blank, none, some, true, ◌==◌, ◌||◌, ◌∷◌, ◌≡◌, ◌∙◌,
}
use lobsim.Ledger.{receive_all, empty_sink}
use lobsim.MultiSink.{scoped, send_all, empty_multi_sink, tagged}
use lobsim.Types.{
  on_fill as fill_call, on_event_apply as event_call, on_diagnostic as diagnostic_call,
  reset as reset_call, SinkCall,
}
use lobsim.MultiSink.Agrees.{
  Agrees, Agrees-empty, is_about, Agrees-receive_other, Agrees-receive_self,
}

-- A record comes with no key or with that of the book.
abbrev HasKey : String → String → Type 0
HasKey key own = (is_blank own || (own == key)) ≡ true

abbrev IsFrom : String → SinkCall → Type 0
IsFrom key (fill_call r) = HasKey key r.book_key
IsFrom key (event_call r) = HasKey key r.book_key
IsFrom key (diagnostic_call r) = HasKey key r.book_key
IsFrom key reset_call = Unit

abbrev AllFrom : List (String × SinkCall) → Type 0
AllFrom [] = Unit
AllFrom ((key, c) ∷ cs) = IsFrom key c × AllFrom cs

-- The calls of the engine of a book, as its `BookScopedSink` passes them on.
abbrev pub own_calls : String → List (String × SinkCall) → List SinkCall
own_calls k [] = []
own_calls k ((key, c) ∷ cs) =
    let rest = own_calls k cs in
    if key == k then elim (scoped key c) [ none ↦ rest | some c' ↦ c' ∷ rest ] else rest

tagged_key : (key own : String) → HasKey key own → tagged key own ≡ key
tagged_key key own h = ground (arith, h, string_eq.beq_iff own key)

-- What is passed on is about the book of the engine.
is_about-scoped :
    (k key : String) (c c' : SinkCall)
    → IsFrom key c
    → scoped key c ≡ some c'
    → is_about k c' ≡ (key == k)
unfolding scoped
is_about-scoped k key (fill_call r) c' h e = ground (arith, e, tagged_key key r.book_key h)
is_about-scoped k key (event_call r) c' h e = ground (arith, e, tagged_key key r.book_key h)
is_about-scoped k key (diagnostic_call r) c' h e = ground (arith, e, tagged_key key r.book_key h)
is_about-scoped k key reset_call c' h e = absurd (ground (arith, e))

module _ ⦃H : HashMap⦄ where
  -- Where each engine logs through the scoped sink of its book, and its records come with no key or
  -- with that of its book: for each book key, the sink of several books shows what an
  -- `InMemoryLogSink` shows that was given only what the scoped sink of that book passed on.
  pub send_all-Agrees :
      (cs : List (String × SinkCall)) (k : String)
      → AllFrom cs
      → Agrees k (send_all cs empty_multi_sink) (receive_all (own_calls k cs) empty_sink)
  unfolding send_all receive_all
  send_all-Agrees [] k h = Agrees-empty k
  send_all-Agrees ((key, c) ∷ cs) k h =
      let ih : Agrees k (send_all cs empty_multi_sink) (receive_all (own_calls k cs) empty_sink) =
        send_all-Agrees cs k h.1 in
      elim (Option-cases (scoped key c)) [
        | inl dropped ↦ elim (Bool-cases (key == k)) [
          | inl own ↦ rw (dropped, own, pass_on) ih
          | inr other ↦ rw (dropped, other, pass_on) ih
        ]
        | inr (c', passed) ↦ elim (Bool-cases (key == k)) [
          | inl own ↦
              rw (passed, own, pass_on)
                (Agrees-receive_self c' k _ _ (is_about-scoped k key c c' h.0 passed ∙ own) ih)
          | inr other ↦
              rw (passed, other, pass_on)
                (Agrees-receive_other c' k _ _ (is_about-scoped k key c c' h.0 passed ∙ other) ih)
        ]
      ]
