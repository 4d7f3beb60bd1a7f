-- ===== src/Transaction.antt =====
-- transaction.go, and the calls of server and database scope that run inside InTransaction.
pub mod Driver
pub mod Calls
pub mod Located
pub mod Heard
pub mod Commit
use gosmo.Base.{
  ℕ, ◌≡◌, refl, Bool, true, false, not, ◌&&◌, ◌||◌, Option, none, some, List, [], ◌∷◌, ◌++◌, Result,
  ok, err, Bytes, codes, if◌then◌else◌, str_eq,
}
use gosmo.Script.{ScriptEntry}
use gosmo.Transaction.Driver.{Error, Reply, SqlTx, use_text}

-- heldReport; an observer is named by a number.
pub record HeldReport : Type 0 where
  pub fn : ℕ
  pub e : ScriptEntry

-- serverTx, less its server, its lock and the driver's transaction
pub record ServerTx : Type 0 where
  pub home : Bytes
  pub current : Bytes
  pub pending : List HeldReport
  pub failed : Option Error

-- serverTx.in
unfoldable pub in_database : Bytes → ServerTx → Bool
unfolding str_eq
in_database db t = not (str_eq t.current []) && str_eq t.current db

unfoldable pub at : Bytes → ServerTx → ServerTx
at db t = record t { current = db }

unfoldable pub lost : ServerTx → ServerTx
unfolding at
lost t = at [] t

-- the first error is kept
unfoldable pub first_of : Option Error → Error → Option Error
first_of none e = some e
first_of (some w) e = some w

unfoldable pub fail : Option Error → ServerTx → ServerTx
fail none t = t
fail (some e) t = record t { failed = first_of t.failed e }

unfoldable pub hold : Option ℕ → ScriptEntry → ServerTx → ServerTx
hold none e t = t
hold (some fn) e t = record t { pending = t.pending ++ record { fn = fn; e = e } ∷ [] }

-- A statement that was sent: the database that its method is of, [] for a server's, its text, and
-- the session as it was then.
pub record Sent (S : Type 0) : Type 0 where
  pub scope : Bytes
  pub sql : Bytes
  pub session : S

-- The transaction, its one session, and what was sent on it so far but for the USEs, newest first.
pub record TxState (S : Type 0) : Type 0 where
  pub tx : ServerTx
  pub session : S
  pub sent : List (Sent S)

pub record Step (S : Type 0) : Type 0 where
  pub state : TxState S
  pub error : Option Error

-- A write through exec (or execAtomic, if `atomic`) of a database, or of the server where the scope
-- is [], whose context has this observer. `shown` is what an observer is told: the text that the
-- source calls shown, with the arguments that bindScriptArgs puts into it.
pub record Call : Type 0 where
  pub scope : Bytes
  pub sql : Bytes
  pub shown : Bytes
  pub atomic : Bool
  pub observer : Option ℕ

module _ {S : Type 0} (d : SqlTx S) (server : Bytes) where
  -- A USE whose success and failure are recorded.
  unfoldable pub switch_to : Bytes → TxState S → Step S
  unfolding at lost
  switch_to db st =
      let r = d.exec_context (use_text db) st.session in
      elim r.error [
        | none ↦ record {
          state = record st { tx = at db st.tx; session = r.session };
          error = none;
        }
        | some e ↦ record {
          state = record st { tx = lost st.tx; session = r.session };
          error = some e;
        }
      ]

  -- The switch of Database.withConn.
  unfoldable pub enter : Bytes → TxState S → Step S
  unfolding in_database
  enter db st =
      if in_database db st.tx then record { state = st; error = none } else switch_to db st

  unfoldable pub server_conn : TxState S → Step S
  unfolding in_database
  server_conn st =
      if not (str_eq st.tx.home []) && not (in_database st.tx.home st.tx)
      then switch_to st.tx.home st
      else record { state = st; error = none }

  unfoldable pub go_home : TxState S → TxState S
  unfolding in_database at
  go_home st =
      let r = d.exec_context (use_text st.tx.home) st.session in
      if str_eq st.tx.home [] || in_database st.tx.home st.tx then st else elim r.error [
        | none ↦ record st { tx = at st.tx.home st.tx; session = r.session }
        | some e ↦ record st { session = r.session }
      ]

  unfoldable pub send : Bytes → Bytes → TxState S → Step S
  send scope sql st =
      let r = d.exec_context sql st.session in
      record {
        state = record st {
          session = r.session;
          sent = record { scope = scope; sql = sql; session = st.session } ∷ st.sent;
        };
        error = r.error;
      }

  -- observe, inside the transaction
  unfoldable pub observe : Call → TxState S → TxState S
  unfolding hold
  observe c st = record st {
    tx = hold c.observer (record { server = server; database = c.scope; sql = c.shown }) st.tx;
  }

  -- Server.execShown
  unfoldable pub server_exec : Call → TxState S → Step S
  unfolding server_conn send observe
  server_exec c st =
      let s = server_conn st in
      elim s.error [
        | some e ↦ s
        | none ↦
            let r = send c.scope c.sql s.state in
            elim r.error [
              | some e ↦ record { state = r.state; error = some e }
              | none ↦ record { state = observe c r.state; error = none }
            ]
      ]

  -- Database.execShown with withConn
  unfoldable pub database_exec : Call → TxState S → Step S
  unfolding enter send observe lost
  database_exec c st =
      let s = enter c.scope st in
      elim s.error [
        | some e ↦ s
        | none ↦
            let r = send c.scope c.sql s.state in
            elim r.error [
              | some e ↦ record { state = record r.state { tx = lost r.state.tx }; error = some e }
              | none ↦ record { state = observe c r.state; error = none }
            ]
      ]

  unfoldable pub exec : Call → TxState S → Step S
  unfolding server_exec database_exec
  exec c st = if str_eq c.scope [] then server_exec c st else database_exec c st

  -- exec, or execAtomic
  unfoldable pub run_call : Call → TxState S → Step S
  unfolding exec fail
  run_call c st =
      let r = exec c st in
      if c.atomic
      then record { state = record r.state { tx = fail r.error r.state.tx }; error = r.error }
      else r

  -- The calls of InTransaction's fn, whatever it makes of their errors.
  unfoldable pub run_calls : List Call → TxState S → TxState S
  unfolding run_call
  run_calls [] st = st
  run_calls (c ∷ cs) st = run_calls cs (run_call c st).state

  -- What InTransaction returns and does: its error, what observers hear, and the session that it
  -- hands back.
  pub record Outcome : Type 0 where
    pub error : Option Error
    pub committed : Bool
    pub observed : List HeldReport
    pub state : TxState S

  unfoldable pub roll_back : Error → TxState S → Outcome
  unfolding go_home
  roll_back e st = record { error = some e; committed = false; observed = []; state = go_home st }

  -- COMMIT, from home
  unfoldable pub commit_tx : TxState S → Outcome
  unfolding roll_back go_home
  commit_tx st =
      let h = go_home st in
      elim (d.commit h.session) [
        | some e ↦ roll_back e h
        | none ↦ record { error = none; committed = true; observed = h.tx.pending; state = h }
      ]

  -- The refusal where an atomic write failed, and else COMMIT.
  unfoldable pub refuse_or_commit : Option Error → TxState S → Outcome
  refuse_or_commit (some e) st = roll_back e st
  refuse_or_commit none st = commit_tx st

  -- InTransaction behind fn
  unfoldable pub finish : Option Error → TxState S → Outcome
  finish (some e) st = roll_back e st
  finish none st = refuse_or_commit st.tx.failed st

  unfoldable pub begin : Bytes → S → TxState S
  begin home s = record {
    tx = record { home = home; current = home; pending = []; failed = none };
    session = s;
    sent = [];
  }

  -- InTransaction with an fn that makes these calls and returns this error, from the session that
  -- BeginTx gives.
  unfoldable pub in_transaction : List Call → Option Error → S → Result Error Outcome
  unfolding run_calls finish begin
  in_transaction calls fn_error s = elim (d.db_name s) [
    | err e ↦ err e
    | ok home ↦ ok (finish fn_error (run_calls calls (begin home s)))
  ]
