-- ===== src/Transaction/Driver.antt =====
-- What transaction.go uses of database/sql and the server, and what it relies on.
use gosmo.Base.{◌≡◌, ◌≢◌, Option, none, [], ◌++◌, Result, ok, Bytes, codes}
use gosmo.Tsql.Quote.{quote_name}

-- an error, by its text
abbrev pub Error : Type 0
Error = Bytes

pub record Reply (S : Type 0) : Type 0 where
  pub session : S
  pub error : Option Error

-- The driver's transaction, over sessions S: a statement, SELECT DB_NAME() and COMMIT.
pub record SqlTx (S : Type 0) : Type 0 where
  pub exec_context : Bytes → S → Reply S
  pub db_name : S → Result Error Bytes
  pub commit : S → Option Error

-- "USE " + quoteIdent(db)
unfoldable pub use_text : Bytes → Bytes
unfolding quote_name
use_text db = codes "USE " ++ quote_name db

-- A USE that succeeds switches the session, and DB_NAME() is the database that it is in.
pub record IsLawful {S : Type 0} (d : SqlTx S) (db_of : S → Bytes) : Type 0 where
  pub use_switches :
      (db : Bytes) (s : S)
      → (d.exec_context (use_text db) s).error ≡ none
      → db_of (d.exec_context (use_text db) s).session ≡ db
  pub db_name_lem : (s : S) {db : Bytes} → d.db_name s ≡ ok db → (db_of s ≡ db) × (db ≢ [])
