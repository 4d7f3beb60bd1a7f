-- ===== src/Examples/Retries.antt =====
-- Calls that fail with a deadlock before they succeed.
use gosmo.Base.{
  ℕ, ◌≡◌, refl, false, Option, none, some, [], ◌∷◌, Result, ok, err, ltb, if◌then◌else◌,
}
use gosmo.Retry.{
  GoError, Tried, Acquired, with_retry, with_retry_from, acquire_conn, acquire_conn_from,
  is_transient,
}
use gosmo.Retry.Attempts.{IsTried, with_retry-IsTried}
use gosmo.Retry.Connections.{IsBalanced, acquire_conn-IsBalanced}

abbrev deadlock : GoError
deadlock = record {
  canceled = false;
  deadline_exceeded = false;
  retryable_error = false;
  bad_conn = false;
  eof = false;
  stream_error = false;
  server_error = false;
  net_error = false;
  numbers = 1205 ∷ [];
}

abbrev calls : ℕ → Result GoError ℕ
calls n = if ltb n 3 then err deadlock else ok n

abbrev prologue : ℕ → Option GoError
prologue n = if ltb n 2 then some deadlock else none

abbrev in_time : ℕ → Option GoError
in_time n = none

third_call : with_retry calls in_time ≡ some (record { result = ok 3; attempts = 3 })
unfolding with_retry with_retry_from is_transient
third_call = refl

with_retry-IsTried_example :
    (r : Tried ℕ) × (with_retry calls in_time ≡ some r) × IsTried calls in_time 1 r
with_retry-IsTried_example = with_retry-IsTried calls in_time

second_connection :
    acquire_conn (λ n. ok n) prologue (λ n. false) in_time
    ≡ some (record { result = ok 2; opened = 1 ∷ 2 ∷ []; closed = 1 ∷ [] })
unfolding acquire_conn acquire_conn_from is_transient
second_connection = refl

acquire_conn-IsBalanced_example :
    (a : Acquired ℕ) × (acquire_conn (λ n. ok n) prologue (λ n. false) in_time ≡ some a)
    × IsBalanced 3 a
acquire_conn-IsBalanced_example = acquire_conn-IsBalanced (λ n. ok n) prologue (λ n. false) in_time
