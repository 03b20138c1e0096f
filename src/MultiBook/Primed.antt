-- ===== src/MultiBook/Primed.antt =====
-- What `prime_streams` leaves: every stream has an event in its buffer or is exhausted.
use lobsim.MultiBook.Step.{step}
use lobsim.MultiBook.Filled.{EndsAs-map}
use lobsim.Base.{
  Bool-cases, arith, inl, inr, length, ◌<◌, ◌≡◌, HashMap, get_elem?, refl, suc, true, zero, ℕ, ◌+◌,
  ◌≤◌, ◌∙◌, ==ℕ_iff, get_elem?-of_length_le, ltb, subst, ◌==ℕ◌, Option-cases, if_cases, is_some,
}
use lobsim.MultiBook.Stream.{fill_buffer, prime_loop, prime_streams}
use lobsim.MultiBook.State.{MultiBookSimulator, Run, returned}
use lobsim.MultiBook.Step.{pending, unread_all, step_heap}
use lobsim.MultiBook.Filled.{EndsAs, EndsAs-then_run}
use lobsim.MultiBook.Ready.{is_ready, Fills-fill_buffer, Fills}

module _ ⦃H : HashMap⦄ where
  -- What priming the first streams does.
  pub record Primes (n : ℕ) (m m' : MultiBookSimulator) : Type 0 where
    pub ready : (j : ℕ) → j < n → is_ready (get_elem? m'.streams j) ≡ true
    pub cost : pending m' ≤ pending m
    pub size : length m'.streams ≡ length m.streams

  Primes-fill :
      (index : ℕ) (m m' m'' : MultiBookSimulator)
      → Primes index m m'
      → Fills index (unread_all m'.streams) m' m''
      → Primes (suc index) m m''
  Primes-fill index m m' m'' p f = record {
    ready = λ j lt. elim (Bool-cases (index ==ℕ j)) [
      | inl same ↦
          subst (λ (x : ℕ). is_ready (get_elem? m''.streams x) ≡ true) ((==ℕ_iff index j).0 same)
            f.ready
      | inr other ↦
          rw (f.others j (λ e. ground (arith, other, e))) (p.ready j (ground (arith, other, lt)))
    ];
    cost = omega (arith, p.cost, f.cost);
    size = f.size ∙ p.size;
  }

  Primes-prime_loop :
      (left index : ℕ) (m m' : MultiBookSimulator)
      → Primes index m m'
      → EndsAs (λ _. Primes (index + left) m) (λ _. Unit) (prime_loop left index m')
  unfolding prime_loop
  Primes-prime_loop zero index m m' p = record {
    ready = λ j lt. p.ready j (omega arith);
    cost = p.cost;
    size = p.size;
  }
  Primes-prime_loop (suc left) index m m' p =
      EndsAs-then_run (λ _. Fills index (unread_all m'.streams) m')
        (λ _. Primes (index + suc left) m) (λ _. Unit) (fill_buffer index m')
        (λ _ x. prime_loop left (suc index) x) (Fills-fill_buffer index m')
        (λ _ x f.
          EndsAs-map (λ _. Primes (suc index + left) m) (λ _. Primes (index + suc left) m)
            (λ _. Unit) (λ _. Unit) _
            (λ _ y q. record {
              ready = λ j lt. q.ready j (omega arith);
              cost = q.cost;
              size = q.size;
            })
            (λ _ u. u) (Primes-prime_loop left (suc index) m x (Primes-fill index m m' x p f)))

  -- What `prime_streams` does: every stream is ready, and no more events wait than before.
  pub record PrimesAll (m m' : MultiBookSimulator) : Type 0 where
    pub ready : (j : ℕ) → is_ready (get_elem? m'.streams j) ≡ true
    pub cost : pending m' ≤ pending m

  PrimesAll-of : (m m' : MultiBookSimulator) → Primes (0 + length m.streams) m m' → PrimesAll m m'
  PrimesAll-of m m' p = record {
    ready = λ j. elim (Bool-cases (ltb j (length m'.streams))) [
      | inl inside ↦ p.ready j (ground (arith, inside, p.size))
      | inr outside ↦
          rw (get_elem?-of_length_le m'.streams j (ground (arith, outside)), is_ready) refl
    ];
    cost = p.cost;
  }

  pub PrimesAll-prime_streams :
      (m : MultiBookSimulator) → EndsAs (λ _. PrimesAll m) (λ _. Unit) (prime_streams m)
  unfolding prime_streams
  PrimesAll-prime_streams m =
      EndsAs-map (λ _. Primes (0 + length m.streams) m) (λ _. PrimesAll m) (λ _. Unit) (λ _. Unit) _
        (λ _ x. PrimesAll-of m x) (λ _ u. u)
        (Primes-prime_loop (length m.streams) 0 m m
          (record { ready = λ j lt. absurd (omega (arith, lt)); cost = omega arith; size = refl }))

  -- Every stream has an event in its buffer or is exhausted: then priming does nothing.
  abbrev pub AllReady : MultiBookSimulator → Type 0
  AllReady m = (j : ℕ) → is_ready (get_elem? m.streams j) ≡ true

  -- A stream that is ready is left alone.
  fill_buffer_ready :
      (index : ℕ) (m : MultiBookSimulator)
      → is_ready (get_elem? m.streams index) ≡ true
      → fill_buffer index m ≡ returned tt m
  unfolding fill_buffer
  fill_buffer_ready index m ready = elim (Option-cases (get_elem? m.streams index)) [
    | inl missing ↦ rw (missing, fill_buffer) refl
    | inr (ss, found) ↦
        rw (found, fill_buffer)
          (if_cases (λ (r : Run (Unit {0})). r ≡ returned tt m) ss.exhausted _ _ (λ _. refl)
            (λ idle.
              if_cases (λ (r : Run (Unit {0})). r ≡ returned tt m) (is_some ss.buffered) _ _
                (λ _. refl)
                (λ empty_buffer. absurd (ground (arith, ready, found, idle, empty_buffer)))))
  ]

  prime_loop_ready :
      (left index : ℕ) (m : MultiBookSimulator)
      → AllReady m
      → prime_loop left index m ≡ returned tt m
  unfolding prime_loop
  prime_loop_ready zero index m ready = refl
  prime_loop_ready (suc left) index m ready =
      rw (fill_buffer_ready index m (ready index), prime_loop)
        (prime_loop_ready left (suc index) m ready)

  pub step_ready : (m : MultiBookSimulator) → AllReady m → step m ≡ step_heap m
  unfolding step prime_streams
  step_ready m ready = rw (prime_loop_ready (length m.streams) 0 m ready, step) refl
