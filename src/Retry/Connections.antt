-- ===== src/Retry/Connections.antt =====
-- AcquireConn keeps no connection but the one that it returns.
use gosmo.Base.{
  ℕ, zero, suc, ◌+◌, ◌≤◌, ◌≡◌, refl, ap, Bool, false, not, ◌||◌, Option, none, some, List, [], ◌∷◌,
  ◌++◌, Result, ok, err, arith, leb, length, Bool-cases, Option-cases, Result-cases, inl, inr,
}
use gosmo.Retry.{
  read_retry_attempts, GoError, is_transient, Acquired, opened_and_closed, acquire_conn_from,
  acquire_conn,
}

-- Every connection that was taken is closed but for the one that is returned, and at most `most`
-- were taken.
pub record IsBalanced {C : Type 0} (most : ℕ) (a : Acquired C) : Type 0 where
  pub few : length a.opened ≤ most
  pub kept : (c : C) → a.result ≡ ok c → a.opened ≡ a.closed ++ c ∷ []
  pub none_kept : (e : GoError) → a.result ≡ err e → a.opened ≡ a.closed

module _ {C : Type 0} (conn : ℕ → Result GoError C) (prologue : ℕ → Option GoError)
    (ended : ℕ → Bool) (done : ℕ → Option GoError) where
  IsBalanced-err :
      (most : ℕ) (e : GoError) (cs : List C)
      → length cs ≤ most
      → IsBalanced most (record { result = err e; opened = cs; closed = cs })
  IsBalanced-err most e cs le = record {
    few = le;
    kept = λ c q. absurd (cc (q));
    none_kept = λ w q. refl;
  }

  opened_and_closed-IsBalanced :
      (most : ℕ) (c : C) (a : Acquired C)
      → IsBalanced most a
      → IsBalanced (suc most) (opened_and_closed c a)
  unfolding opened_and_closed
  opened_and_closed-IsBalanced most c a b = record {
    few = omega (arith, b.few);
    kept = λ x q. ap (λ cs. c ∷ cs) (b.kept x q);
    none_kept = λ e q. ap (λ cs. c ∷ cs) (b.none_kept e q);
  }

  acquire_conn_again :
      (f n : ℕ) (c : C) (w : GoError) (a : Acquired C)
      → conn n ≡ ok c
      → prologue n ≡ some w
      → (ended n || leb read_retry_attempts n || not (is_transient w)) ≡ false
      → done n ≡ none
      → acquire_conn_from conn prologue ended done f (suc n) ≡ some a
      → acquire_conn_from conn prologue ended done (suc f) n ≡ some (opened_and_closed c a)
  unfolding acquire_conn_from
  acquire_conn_again f n c w a e q t z r = rw (e, q, t, z, r, acquire_conn_from) refl

  acquire_conn_from-IsBalanced :
      (f n : ℕ)
      → f + n ≡ 4
      → 1 ≤ f
      → (a : Acquired C) × (acquire_conn_from conn prologue ended done f n ≡ some a)
        × IsBalanced f a
  acquire_conn_from-IsBalanced zero n h p = absurd (omega arith)
  acquire_conn_from-IsBalanced (suc f) n h p = elim (Result-cases (conn n)) [
    | inl (w, e) ↦ (
      record { result = err w; opened = []; closed = [] },
      unfold acquire_conn_from in rw (e, acquire_conn_from) refl,
      IsBalanced-err (suc f) w [] (omega arith),
    )
    | inr (c, e) ↦ elim (Option-cases (prologue n)) [
      | inl q ↦ (
        record { result = ok c; opened = c ∷ []; closed = [] },
        unfold acquire_conn_from in rw (e, q, acquire_conn_from) refl,
        record {
          few = omega arith;
          kept = λ x r. ap (λ y. y ∷ []) (let s : c ≡ x = cc (r) in s);
          none_kept = λ w r. absurd (cc (r));
        },
      )
      | inr (w, q) ↦
          elim (Bool-cases (ended n || leb read_retry_attempts n || not (is_transient w))) [
            | inl t ↦ (
              record { result = err w; opened = c ∷ []; closed = c ∷ [] },
              unfold acquire_conn_from in rw (e, q, t, acquire_conn_from) refl,
              IsBalanced-err (suc f) w (c ∷ []) (omega arith),
            )
            | inr t ↦ elim (Option-cases (done n)) [
              | inr (x, z) ↦ (
                record { result = err x; opened = c ∷ []; closed = c ∷ [] },
                unfold acquire_conn_from in rw (e, q, t, z, acquire_conn_from) refl,
                IsBalanced-err (suc f) x (c ∷ []) (omega arith),
              )
              | inl z ↦
                  let early : suc n ≤ 3 = ground (arith, t) in
                  let rest = acquire_conn_from-IsBalanced f (suc n) (omega arith) (omega arith) in
                  (
                    opened_and_closed c rest.0,
                    acquire_conn_again f n c w rest.0 e q t z rest.1,
                    opened_and_closed-IsBalanced f c rest.0 rest.2,
                  )
            ]
          ]
    ]
  ]

-- AcquireConn ends after taking at most three connections from the pool, and has closed all of them
-- but for the one that it returns, which is the last.
pub acquire_conn-IsBalanced :
    {C : Type 0} (conn : ℕ → Result GoError C) (prologue : ℕ → Option GoError) (ended : ℕ → Bool)
    (done : ℕ → Option GoError)
    → (a : Acquired C) × (acquire_conn conn prologue ended done ≡ some a) × IsBalanced 3 a
unfolding acquire_conn
acquire_conn-IsBalanced conn prologue ended done =
    acquire_conn_from-IsBalanced conn prologue ended done 3 1 (omega arith) (omega arith)
