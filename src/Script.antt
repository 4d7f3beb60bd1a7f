-- ===== src/Script.antt =====
-- script.go: captured statements and the script that they are rendered as.
pub mod Replay
pub mod Redact
use gosmo.Base.{
  ℕ, ◌≡◌, refl, Bool, true, false, not, ◌&&◌, ◌||◌, Option, none, some, List, [], ◌∷◌, ◌++◌, map,
  Bytes, codes, if◌then◌else◌, str_eq, has_prefix, contains_func,
}
use gosmo.Tsql.Quote.{quote_name}
use gosmo.Tsql.Comment.{comment_safe}

pub record ScriptEntry : Type 0 where
  pub server : Bytes
  pub database : Bytes
  pub sql : Bytes

-- ScriptCollector: the entries, in capture order. Its lock makes each append one step.
pub record ScriptCollector : Type 0 where
  pub entries : List ScriptEntry

unfoldable pub append : ScriptCollector → ScriptEntry → ScriptCollector
append c e = record c { entries = c.entries ++ e ∷ [] }

unfoldable pub add : ScriptCollector → List ScriptEntry → ScriptCollector
unfolding append
add c [] = c
add c (e ∷ es) = add (append c e) es

-- scriptUse
unfoldable pub script_use : Bytes → Bytes
unfolding quote_name
script_use db = codes "USE " ++ quote_name db ++ codes ";\nGO\n"

-- server.go: fromMaster
unfoldable pub from_master : Bytes → Bytes
from_master stmt = codes "USE [master];\n" ++ stmt

unfoldable pub statements : ScriptCollector → List Bytes
unfolding script_use str_eq
statements c =
    map (λ e. if str_eq e.database [] then e.sql else script_use e.database ++ e.sql) c.entries

-- What String writes at one place: the line break between entries, the line that names an
-- instance, the batch that switches the database, and an entry's statement with its GO.
pub data Chunk : Type 0 where
  line_break : Chunk
  on_server : Bytes → Chunk
  use_database : Bytes → Chunk
  batch : Bytes → Chunk

unfoldable pub chunk_text : Chunk → Bytes
unfolding script_use str_eq comment_safe
chunk_text line_break = codes "\n"
chunk_text (on_server name) =
    codes "-- on "
    ++ comment_safe (if str_eq name [] then codes "(unknown instance)" else name)
    ++ codes "\n"
chunk_text (use_database db) = script_use db
chunk_text (batch sql) = sql ++ codes "\nGO\n"

-- slices.ContainsFunc(entries, …) against the first entry's server
unfoldable pub spans_servers : List ScriptEntry → Bool
unfolding str_eq
spans_servers [] = false
spans_servers (e ∷ es) = contains_func (λ x. not (str_eq x.server e.server)) (e ∷ es)

-- multi && (i == 0 || e.Server != entries[i-1].Server)
unfoldable pub opens_run : Bool → Option ScriptEntry → ScriptEntry → Bool
unfolding str_eq
opens_run multi none e = multi
opens_run multi (some before) e = multi && not (str_eq e.server before.server)

-- The switch on the entry's database and `cur`: the database that it writes a USE of, and the new
-- `cur`.
pub record Switch : Type 0 where
  pub written : Option Bytes
  pub cur : Bytes

unfoldable pub switch_database : Bytes → ScriptEntry → Switch
switch_database cur e =
    if not (str_eq e.database []) && not (str_eq e.database cur)
    then record { written = some e.database; cur = e.database }
    else if str_eq e.database [] && not (str_eq cur [])
    then record {
      written = if has_prefix (from_master []) e.sql then none else some (codes "master");
      cur = [];
    }
    else record { written = none; cur = cur }

-- The loop of String. `prev` is the entry before this one.
unfoldable pub write_from : Bool → Option ScriptEntry → Bytes → List ScriptEntry → List Chunk
unfolding opens_run
write_from multi prev cur [] = []
write_from multi prev cur (e ∷ es) =
    let opens = opens_run multi prev e in
    let s = switch_database (if opens then [] else cur) e in
    elim prev [ none ↦ [] | some _ ↦ line_break ∷ [] ]
    ++ ((if opens then on_server e.server ∷ [] else [])
        ++ (elim s.written [ none ↦ [] | some db ↦ use_database db ∷ [] ]
            ++ (batch e.sql ∷ write_from multi (some e) s.cur es)))

unfoldable pub chunks : ScriptCollector → List Chunk
unfolding write_from spans_servers
chunks c = write_from (spans_servers c.entries) none [] c.entries

abbrev concat : List Bytes → Bytes
concat [] = []
concat (s ∷ ss) = s ++ concat ss

-- ScriptCollector.String
unfoldable pub to_string : ScriptCollector → Bytes
unfolding chunks chunk_text
to_string c = concat (map chunk_text (chunks c))

abbrev two_entries : ScriptCollector
two_entries = record {
  entries =
      record { server = codes "s"; database = codes "db"; sql = codes "A" }
      ∷ record { server = codes "s"; database = []; sql = codes "B" }
      ∷ [];
}

to_string_test : to_string two_entries ≡ codes "USE [db];\nGO\nA\nGO\n\nUSE [master];\nGO\nB\nGO\n"
unfolding to_string switch_database script_use from_master str_eq has_prefix quote_name
to_string_test = refl
