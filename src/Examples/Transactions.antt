-- ===== src/Examples/Transactions.antt =====
-- A server whose sessions are the database that they are in, and transactions on it.
use gosmo.Base.{
  ◌≡◌, ◌≢◌, ◌∙◌, ap, refl, subst, sym, true, false, none, some, List, [], ◌∷◌, ok, Bytes, codes,
  All, drop, str_eq, has_prefix, if◌then◌else◌,
}
use gosmo.Tsql.Quote.{unquote_name, unquote_inner}
use gosmo.Tsql.Quote.RoundTrip.{unquote_name-quote_name}
use gosmo.Transaction.Driver.{Reply, SqlTx, IsLawful, use_text}
use gosmo.Transaction.{
  Call, Outcome, in_transaction, begin, run_calls, finish, refuse_or_commit, commit_tx, go_home,
  switch_to,
}
use gosmo.Transaction.Located.{IsLocated, in_transaction-IsLocated}
use gosmo.Transaction.Heard.{first_failure, heard, errors_of}
use gosmo.Transaction.Commit.{IsSettled, in_transaction-IsSettled}

abbrev switched : Bytes → Bytes → Reply Bytes
switched [] s = record { session = s; error = some (codes "no database") }
switched (c ∷ db) s = record { session = c ∷ db; error = none }

-- A statement BAD fails, and so does the USE of an empty name.
abbrev run_sql : Bytes → Bytes → Reply Bytes
run_sql sql s = elim (has_prefix (codes "USE ") sql) [
  | true ↦ switched (unquote_name (drop 4 sql)) s
  | false ↦
      if str_eq sql (codes "BAD")
      then record { session = s; error = some (codes "bad") }
      else record { session = s; error = none }
]

abbrev name_of : Bytes → Bytes
name_of [] = codes "master"
name_of (c ∷ s) = c ∷ s

abbrev example_tx : SqlTx Bytes
example_tx = record { exec_context = run_sql; db_name = λ s. ok (name_of s); commit = λ s. none }

run_sql-use : (db s : Bytes) → run_sql (use_text db) s ≡ switched db s
unfolding use_text has_prefix
run_sql-use db s = ap (λ x. switched x s) (unquote_name-quote_name db)

switched_lem : (db s : Bytes) → (switched db s).error ≡ none → name_of (switched db s).session ≡ db
switched_lem [] s h = absurd (cc (h))
switched_lem (c ∷ db) s h = refl

name_of-ne-nil : (s : Bytes) → name_of s ≢ []
name_of-ne-nil [] = λ e. cc (e)
name_of-ne-nil (c ∷ s) = λ e. cc (e)

example_tx-IsLawful : IsLawful example_tx name_of
example_tx-IsLawful = record {
  use_switches = λ db s h.
      subst (λ r. name_of r.session ≡ db) (sym (run_sql-use db s))
        (switched_lem db s (subst (λ r. r.error ≡ none) (run_sql-use db s) h));
  db_name_lem = λ s e. let q : name_of s ≡ _ = cc (e) in (q, λ n. name_of-ne-nil s (q ∙ n));
}

abbrev three_calls : List Call
three_calls =
    record {
      scope = codes "db";
      sql = codes "A";
      shown = codes "A";
      atomic = false;
      observer = some 1;
    }
    ∷ record {
      scope = [];
      sql = codes "BAD";
      shown = codes "BAD";
      atomic = false;
      observer = some 1;
    }
    ∷ record {
      scope = codes "db";
      sql = codes "C";
      shown = codes "C";
      atomic = true;
      observer = none;
    }
    ∷ []

abbrev outcome : Outcome example_tx (codes "s")
outcome = finish example_tx (codes "s") none (
    run_calls example_tx (codes "s") three_calls
      (begin example_tx (codes "s") (codes "home") (codes "home")))

outcome_lem : in_transaction example_tx (codes "s") three_calls none (codes "home") ≡ ok outcome
unfolding in_transaction
outcome_lem = refl

in_transaction-IsLocated_example : All (IsLocated name_of (codes "home")) outcome.state.sent
unfolding has_prefix str_eq
in_transaction-IsLocated_example =
    in_transaction-IsLocated example_tx (codes "s") name_of example_tx-IsLawful three_calls
      (λ s h. refl, (λ s h. refl, (λ s h. refl, tt))) none (codes "home") outcome_lem

in_transaction-IsSettled_example :
    (let errors =
        errors_of example_tx
          (codes "s")
          three_calls
          (begin example_tx (codes "s") (codes "home") (codes "home")) in
      IsSettled example_tx
        (codes "s")
        none
        (run_calls example_tx
          (codes "s")
          three_calls
          (begin example_tx (codes "s") (codes "home") (codes "home")))
        (first_failure three_calls errors)
        (heard (codes "s") three_calls errors)
        outcome)
in_transaction-IsSettled_example =
    in_transaction-IsSettled example_tx (codes "s") three_calls none (codes "home") refl outcome_lem

outcome_commits : outcome.committed ≡ true
unfolding finish run_calls refuse_or_commit commit_tx go_home use_text begin switch_to unquote_name
    unquote_inner
outcome_commits = refl
