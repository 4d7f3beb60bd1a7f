-- ===== src/Retry/Attempts.antt =====
-- withRetry tries at most three times, and only goes on after a transient failure.
use gosmo.Base.{
  sym, subst, ◌∙◌, ◌==◌, ==_iff, ℕ, zero, suc, ◌+◌, ◌≤◌, ◌<◌, ◌≡◌, refl, true, false, not, ◌||◌,
  Option, none, some, Result, ok, err, arith, leb, Bool-cases, Option-cases, Result-cases, inl, inr,
  ◌⊎◌,
}
use gosmo.Retry.{read_retry_attempts, GoError, is_transient, Tried, with_retry_from, with_retry}

module _ {A : Type 0} (fn : ℕ → Result GoError A) (done : ℕ → Option GoError) where
  -- The nth call failed with a transient error.
  abbrev pub Failed : ℕ → Type 0
  Failed n = (e : GoError) × (fn n ≡ err e) × (is_transient e ≡ true)

  -- The call is not tried again: it succeeded, or its failure is not transient.
  abbrev pub Settles : ℕ → Type 0
  Settles n =
      ((v : A) × (fn n ≡ ok v)) ⊎ ((e : GoError) × (fn n ≡ err e) × (is_transient e ≡ false))

  pub record IsTried (first : ℕ) (r : Tried A) : Type 0 where
    pub at_least : first ≤ r.attempts
    pub at_most : r.attempts ≤ 3
    pub before : (n : ℕ) → first ≤ n → n < r.attempts → Failed n × (done n ≡ none)
    pub last :
        ((r.result ≡ fn r.attempts) × ((r.attempts ≡ 3) ⊎ Settles r.attempts))
        ⊎ ((c : GoError) × (done r.attempts ≡ some c) × (r.result ≡ err c) × Failed r.attempts)

  last_try :
      (a : ℕ) (r : Result GoError A)
      → a ≤ 3
      → r ≡ fn a
      → (a ≡ 3) ⊎ Settles a
      → IsTried a (record { result = r; attempts = a })
  last_try a r le q s = record {
    at_least = omega arith;
    at_most = le;
    before = λ n l h. absurd (omega arith);
    last = inl (q, s);
  }

  cut_short :
      (a : ℕ) (c : GoError)
      → a ≤ 3
      → done a ≡ some c
      → Failed a
      → IsTried a (record { result = err c; attempts = a })
  cut_short a c le q f = record {
    at_least = omega arith;
    at_most = le;
    before = λ n l h. absurd (omega arith);
    last = inr (c, q, refl, f);
  }

  tried_again : (a : ℕ) (r : Tried A) → Failed a → done a ≡ none → IsTried (suc a) r → IsTried a r
  tried_again a r f d t = record {
    at_least = omega (arith, t.at_least);
    at_most = t.at_most;
    before = λ n l h. elim (Bool-cases (n == a)) [
      | inl e ↦
          let q : n ≡ a = (==_iff n a).0 e in subst (λ x. Failed x × (done x ≡ none)) (sym q) (f, d)
      | inr e ↦ t.before n (ground (arith, e, l)) h
    ];
    last = t.last;
  }

  with_retry_from_again :
      (f a : ℕ) (w : GoError)
      → fn a ≡ err w
      → (leb read_retry_attempts a || not (is_transient w)) ≡ false
      → done a ≡ none
      → with_retry_from fn done (suc f) a ≡ with_retry_from fn done f (suc a)
  unfolding with_retry_from
  with_retry_from_again f a w e q z = rw (e, q, z, with_retry_from) refl

  with_retry_from-Tried :
      (f a : ℕ)
      → f + a ≡ 4
      → 1 ≤ f
      → (r : Tried A) × (with_retry_from fn done f a ≡ some r) × IsTried a r
  with_retry_from-Tried zero a h p = absurd (omega arith)
  with_retry_from-Tried (suc f) a h p = elim (Result-cases (fn a)) [
    | inr (v, e) ↦ (
      record { result = ok v; attempts = a },
      unfold with_retry_from in rw (e, with_retry_from) refl,
      last_try a (ok v) (omega arith) (sym e) (inr (inl (v, e))),
    )
    | inl (w, e) ↦ elim (Bool-cases (leb read_retry_attempts a || not (is_transient w))) [
      | inl q ↦ (
        record { result = err w; attempts = a },
        unfold with_retry_from in rw (e, q, with_retry_from) refl,
        last_try a (err w) (omega arith) (sym e) (stops a w (omega arith) e q),
      )
      | inr q ↦
          let t : is_transient w ≡ true = ground (arith, q) in
          let more : a < 3 = ground (arith, q) in
          elim (Option-cases (done a)) [
            | inr (c, z) ↦ (
              record { result = err c; attempts = a },
              unfold with_retry_from in rw (e, q, z, with_retry_from) refl,
              cut_short a c (omega arith) z (w, e, t),
            )
            | inl z ↦
                let rest = with_retry_from-Tried f (suc a) (omega arith) (omega arith) in
                (
                  rest.0,
                  with_retry_from_again f a w e q z ∙ rest.1,
                  tried_again a rest.0 (w, e, t) z rest.2,
                )
          ]
    ]
  ]
    where
      stops :
          (a : ℕ) (w : GoError)
          → a ≤ 3
          → fn a ≡ err w
          → (leb read_retry_attempts a || not (is_transient w)) ≡ true
          → (a ≡ 3) ⊎ Settles a
      stops a w le e q = elim (Bool-cases (is_transient w)) [
        | inl t ↦ inl (ground (arith, le, q, t))
        | inr t ↦ inr (inr (w, e, t))
      ]

-- withRetry ends after one to three calls. Every call before the last failed with a transient error
-- while the context was alive; the last was the third, or succeeded, or failed for good, and its
-- outcome is returned, or the context ended in the wait behind it and its error is.
pub with_retry-IsTried :
    {A : Type 0} (fn : ℕ → Result GoError A) (done : ℕ → Option GoError)
    → (r : Tried A) × (with_retry fn done ≡ some r) × IsTried fn done 1 r
unfolding with_retry
with_retry-IsTried fn done = with_retry_from-Tried fn done 3 1 (omega arith) (omega arith)
