-- ===== src/Lib.antt =====
-- Verification of gosmo, SQL Server management objects for Go.
--
-- gosmo sends T-SQL text to a server. What it sends is built from names and values that it quotes,
-- and what a write would send can be captured as a script. The parts modelled are those that build
-- and read such text, the planning of a restore, the session of a transaction and the retry loops:
--
-- Base: what the modules share: Boolean tests, lists over the native numbers, Go strings as
--   lists of bytes with the functions of packages strings and utf8 that the code calls, and a result
--   type.
-- Tsql.Scan: tsql/scan.go. `spans` is Spans, `scan_delimited` is scanDelimited, `unescape` is
--   Span.Unescape. The index of the source's loop is the suffix of the text that starts there; the
--   walk yields pieces (texts with their kinds) and `locate` gives them Start and End. The walk
--   runs on fuel, one more than the length of the text; each round takes at least one byte, and
--   Tsql.Scan.Fuel shows that more fuel changes nothing.
-- Tsql.Quote: tsql/quote.go, function by function (`quote_name` is QuoteName, and so on).
-- Tsql.Comment: tsql/comment.go. The source walks the runes of a name and writes them again;
--   Base.Utf8 has both, so bytes that are no rune become U+FFFD as they do there.
-- Names: quoting.go. `split_name` is SplitName, whose loop over the parts is `split_parts`, on
--   fuel of one more than the length of the text; each round but the last takes a dot.
-- Restore.Lsn and Restore.Plan: restore_plan.go. `compare_lsn` is CompareLSN and `plan_restore` is
--   PlanRestore; its closures and the bodies of its loops are definitions of their own. The chain
--   loop `follow` runs on fuel of one more than the number of logs, since each round but the last
--   moves the chain's end past another log. The records are those of types.go, with the fields that
--   a plan reads. Restore.Kinds is the kinds of backup sets of types.go, and BackupSetAt.
-- Script: script.go. The collector and String; `chunks` is what String writes, piece by piece, and
--   `to_string` is the text. Script.Redact is redactSecrets: `redact_from` is its loop, with out and
--   last, over the spans of the lexer. `from_master` is fromMaster of server.go.
-- Transaction: transaction.go with the writes that run inside it (exec and execAtomic of Server
--   and Database, and Database.withConn, in script.go and database.go). `SqlTx` is what the code uses
--   of the driver, over any type of sessions, and `IsLawful` what it relies on: a USE that succeeds
--   switches the session, and DB_NAME() is the session's database. `in_transaction` is InTransaction;
--   its fn is any sequence of writes, each with or without an observer, and the error that it returns.
--   What an observer is told of a write, the text shown with its arguments bound, is given with the write.
--   The sessions in which statements were sent are kept in `sent`, newest first, for the theorems.
-- Retry: retry.go. `with_retry` is withRetry and `acquire_conn` is AcquireConn, over the outcomes of
--   their calls in order; the fuel is readRetryAttempts, and both loops end within it.
-- Paths: server_path.go, function by function (`join_server_path` is JoinServerPath, and so on).
-- Collation: collation.go (`same_name` is SameName, `name_key` is NameKey) with unicode.SimpleFold as
--   a parameter, and NeedsFileList of restore_plan.go. The loop over the orbit of a rune, `least_of_orbit`,
--   runs on fuel of 4, the most runes that an orbit of the Unicode tables has. `IsSimpleFold` of
--   Collation.Orbits is what the code relies on.
-- Search: likeEscape of helpers.go, and the pattern that object_filter.go builds by it.
-- Bulk: bulkvalue.go. Each check is a function from a value to a value or a reason; `Value` is what a
--   driver.Value holds, over a type F for float64, whose arithmetic is the record FloatOps, and a type X
--   for what the checks pass on. `convert` is a bulkConv, `column_check` the switch of
--   BulkColumn.converter. `parse_int` and `format_int` are strconv's, the first with its overflow tests
--   in 64 bits, the second on fuel of 20, more digits than 64 bits have.
-- Order: scripter_database_objects_order.go. `order_objects` is orderObjects; `order_from` is its main
--   loop, on the number of nodes that are still to come, and each round, `next_node`, emits one.
-- Agent: the date codes of agent_job_history.go and agent_schedule.go (`parse_sql_agent_date` is
--   parseSQLAgentDate, and so on), over a type of times with the fields that package time gives them,
--   `Calendar`; `IsCalendar` is what the code relies on.
-- Examples: the theorems at concrete inputs.
--
-- How they interact: Script and Names use the quoting of Tsql; the theorems on quoting and on
-- comments are about how the lexer of Tsql reads what was quoted. A transaction's observers hear of
-- entries of the type that a collector holds.
--
-- Abstractions. A string is the list of its bytes (in Search of its code points). ToUpper and
-- TrimSpace are over ASCII. The text of an error is a constructor. A time is its instant and the
-- wall clock that it shows, both as numbers. slices.SortStableFunc is a stable insertion, and
-- slices.MaxFunc keeps the first of the greatest. A database is named by its exact bytes, as the
-- code compares it; its name is not empty.
--
-- Not modelled: the statements and catalog reads of the many object kinds, the scripters, the
-- connection and its authentication, and what rests on the driver; these are text generation and
-- I/O. Of restore_plan.go the file moves, of script.go the binding of
-- arguments. Of bulkvalue.go the checks of floats, times, GUIDs and characters, whose encodings are
-- third-party. Of transactions the scripted and nested calls, the reads, panics and the deadlines
-- of contexts.
pub mod Agent
pub mod Base
pub mod Bulk
pub mod Collation
pub mod Examples
pub mod Names
pub mod Order
pub mod Paths
pub mod Restore
pub mod Retry
pub mod Script
pub mod Search
pub mod Transaction
pub mod Tsql
