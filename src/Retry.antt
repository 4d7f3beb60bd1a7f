-- ===== src/Retry.antt =====
-- retry.go: which failures are transient, and the two loops that try again.
pub mod Attempts
pub mod Connections
use gosmo.Base.{
  ℕ, zero, suc, ◌+◌, ◌*◌, ◌≡◌, refl, Bool, true, false, not, ◌&&◌, ◌||◌, Option, none, some, List,
  [], ◌∷◌, ◌++◌, Result, ok, err, leb, ◌==◌, if◌then◌else◌, contains_func,
}

-- What errors.Is and errors.AsType find in an error's chain, and the numbers of the messages that
-- AsSQLError reads from it, [] if it carries none.
pub record GoError : Type 0 where
  pub canceled : Bool
  pub deadline_exceeded : Bool
  pub retryable_error : Bool
  pub bad_conn : Bool
  pub eof : Bool
  pub stream_error : Bool
  pub server_error : Bool
  pub net_error : Bool
  pub numbers : List ℕ

abbrev pub read_retry_attempts : ℕ
read_retry_attempts = 3

unfoldable pub is_retryable : GoError → Bool
is_retryable e =
    if e.canceled || e.deadline_exceeded
    then false
    else (e.retryable_error
        || (e.bad_conn || e.eof)
        || e.stream_error
        || e.server_error
        || e.net_error)

abbrev pub transient_server_error_numbers : List ℕ
transient_server_error_numbers =
    1205 ∷ 4221 ∷ 10928 ∷ 10929 ∷ 40197 ∷ 40501 ∷ 40613 ∷ 49918 ∷ 49919 ∷ 49920 ∷ []

unfoldable pub is_transient_server_error : GoError → Bool
is_transient_server_error e =
    contains_func (λ n. contains_func (λ m. m == n) transient_server_error_numbers) e.numbers

unfoldable pub is_transient : GoError → Bool
unfolding is_retryable is_transient_server_error
is_transient e = is_retryable e || is_transient_server_error e

-- What a loop returned, and how often it tried.
pub record Tried (A : Type 0) : Type 0 where
  pub result : Result GoError A
  pub attempts : ℕ

module _ {A : Type 0} (fn : ℕ → Result GoError A) (done : ℕ → Option GoError) where
  -- withRetry: `fn n` is what its nth call returns, and `done n` the context's error if the context
  -- ends in the wait behind that call. On fuel; `none` means that it ran out.
  unfoldable pub with_retry_from : ℕ → ℕ → Option (Tried A)
  with_retry_from zero attempt = none
  with_retry_from (suc f) attempt =
      let rest = with_retry_from f (suc attempt) in
      elim (fn attempt) [
        | ok v ↦ some (record { result = ok v; attempts = attempt })
        | err e ↦
            if leb read_retry_attempts attempt || not (is_transient e)
            then some (record { result = err e; attempts = attempt })
            else elim (done attempt) [
              | some c ↦ some (record { result = err c; attempts = attempt })
              | none ↦ rest
            ]
      ]

  unfoldable pub with_retry : Option (Tried A)
  with_retry = with_retry_from read_retry_attempts 1

-- The connections that AcquireConn took from the pool and those that it closed, in order, and what
-- it returned.
pub record Acquired (C : Type 0) : Type 0 where
  pub result : Result GoError C
  pub opened : List C
  pub closed : List C

unfoldable pub opened_and_closed : {C : Type 0} → C → Acquired C → Acquired C
opened_and_closed c a = record a { opened = c ∷ a.opened; closed = c ∷ a.closed }

module _ {C : Type 0} (conn : ℕ → Result GoError C) (prologue : ℕ → Option GoError)
    (ended : ℕ → Bool) (done : ℕ → Option GoError) where
  -- AcquireConn: `conn n` is what the pool hands back at the nth try, `prologue n` the error of the
  -- USE or SELECT 1 on it, `ended n` whether the context is over then, and `done n` its error if it
  -- ends in the wait.
  unfoldable pub acquire_conn_from : ℕ → ℕ → Option (Acquired C)
  unfolding opened_and_closed
  acquire_conn_from zero attempt = none
  acquire_conn_from (suc f) attempt =
      let rest = acquire_conn_from f (suc attempt) in
      elim (conn attempt) [
        | err e ↦ some (record { result = err e; opened = []; closed = [] })
        | ok c ↦ elim (prologue attempt) [
          | none ↦ some (record { result = ok c; opened = c ∷ []; closed = [] })
          | some e ↦
              if ended attempt || leb read_retry_attempts attempt || not (is_transient e)
              then some (record { result = err e; opened = c ∷ []; closed = c ∷ [] })
              else elim (done attempt) [
                | some w ↦ some (record { result = err w; opened = c ∷ []; closed = c ∷ [] })
                | none ↦ elim rest [ none ↦ none | some a ↦ some (opened_and_closed c a) ]
              ]
        ]
      ]

  unfoldable pub acquire_conn : Option (Acquired C)
  acquire_conn = acquire_conn_from read_retry_attempts 1
