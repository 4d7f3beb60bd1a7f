-- ===== src/Transaction/Calls.antt =====
-- The branches of a call inside a transaction: its switch fails, the statement fails, or both pass.
use gosmo.Base.{◌≡◌, refl, none, some, Bytes}
use gosmo.Transaction.Driver.{Error, SqlTx}
use gosmo.Transaction.{
  TxState, Call, enter, server_conn, send, observe, lost, server_exec, database_exec,
}

module _ {S : Type 0} (d : SqlTx S) (server : Bytes) (c : Call) (st : TxState S) where
  pub server_exec_refused :
      (w : Error)
      → (server_conn d server st).error ≡ some w
      → server_exec d server c st ≡ server_conn d server st
  unfolding server_exec
  server_exec_refused w e = rw (e, server_exec) refl

  pub server_exec_failed :
      (w : Error)
      → (server_conn d server st).error ≡ none
      → (d.exec_context c.sql (server_conn d server st).state.session).error ≡ some w
      → server_exec d server c st ≡ record {
        state = (send d server c.scope c.sql (server_conn d server st).state).state;
        error = some w;
      }
  unfolding server_exec send
  server_exec_failed w e f = rw (e, f, server_exec) refl

  pub server_exec_sent :
      (server_conn d server st).error ≡ none
      → (d.exec_context c.sql (server_conn d server st).state.session).error ≡ none
      → server_exec d server c st ≡ record {
        state =
            observe d server c (send d server c.scope c.sql (server_conn d server st).state).state;
        error = none;
      }
  unfolding server_exec send
  server_exec_sent e f = rw (e, f, server_exec) refl

  pub database_exec_refused :
      (w : Error)
      → (enter d server c.scope st).error ≡ some w
      → database_exec d server c st ≡ enter d server c.scope st
  unfolding database_exec
  database_exec_refused w e = rw (e, database_exec) refl

  pub database_exec_failed :
      (w : Error)
      → (enter d server c.scope st).error ≡ none
      → (d.exec_context c.sql (enter d server c.scope st).state.session).error ≡ some w
      → database_exec d server c st ≡ (
          let r = (send d server c.scope c.sql (enter d server c.scope st).state).state in
          record { state = record r { tx = lost r.tx }; error = some w })
  unfolding database_exec send
  database_exec_failed w e f = rw (e, f, database_exec) refl

  pub database_exec_sent :
      (enter d server c.scope st).error ≡ none
      → (d.exec_context c.sql (enter d server c.scope st).state.session).error ≡ none
      → database_exec d server c st ≡ record {
        state =
            observe d server c
              (send d server c.scope c.sql (enter d server c.scope st).state).state;
        error = none;
      }
  unfolding database_exec send
  database_exec_sent e f = rw (e, f, database_exec) refl
