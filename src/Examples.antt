-- ===== src/Examples.antt =====
-- The theorems at concrete texts, names, scripts and backup histories.
mod Folding
mod AgentTimes
mod BulkValues
mod Objects
mod Patterns
mod Redaction
mod Retries
mod ServerPaths
mod Transactions
use gosmo.Base.{
  ℕ, ap, ◌≡◌, ◌⊎◌, ◌↔◌, ◌++◌, ◌≤◌, refl, true, false, none, some, List, [], ◌∷◌, ok, err, Bytes,
  codes, arith, map, length, Result, has_prefix,
}
use gosmo.Tsql.Scan.{
  n_literal, bracket_ident, line_comment, block_comment, spans, pieces, locate, text_of, last_byte,
  unescape, apostrophe, newline,
}
use gosmo.Tsql.Scan.Tiling.{Tiles, spans-Tiles}
use gosmo.Tsql.Scan.Fuel.{pieces_after}
use gosmo.Tsql.Quote.{quote_name, quote_literal, unquote_name}
use gosmo.Tsql.Quote.RoundTrip.{double_quoted, unquote_name-quote_name, unquote_name_sound}
use gosmo.Tsql.Quote.Lexed.{front, spans-quote_literal, spans-quote_name}
use gosmo.Tsql.Comment.{comment_safe, block_comment_safe}
use gosmo.Tsql.Comment.Lexed.{pieces_after-comment_safe, pieces_after-block_comment_safe}
use gosmo.Names.{SplitError, split_name, quote_name_if_needed, first_empty, last_empty, is_empty}
use gosmo.Names.Split.{dotted, split_name-dotted, split_name_sound, split_name-quote_name_if_needed}
use gosmo.Restore.Lsn.{compare_lsn, trim_zeros, compare_text}
use gosmo.Restore.Lsn.Order.{value, compare_lsn-value}
use gosmo.Restore.Plan.{
  BackupSetType, database, log, BackupInfo, RestorePlanOptions, RestorePlan, PlanError,
  no_full_backup, plan_restore, follow, fulls_of, logs_of, diffs_of, sort_logs, plan_from,
  finish_plan, max_newest, newest_of,
}
use gosmo.Restore.Plan.Ends.{plan_restore_total}
use gosmo.Restore.Plan.Meaning.{IsPlan, IsFull, plan_restore-IsPlan, plan_restore-no_full_backup}
use gosmo.Restore.Plan.Sound.{Elem}
use gosmo.Restore.Kinds.{backup_action_database, places_files, restore_verb}
use gosmo.Restore.Kinds.Placed.{FollowsFull, plan_restore-places_files}
use gosmo.Script.{ScriptCollector, chunks, from_master}
use gosmo.Script.Replay.{AllRanAs, IsOnlyServer, replay, chunks-RanAs}
use Prim.Native.Nat.{compare}

abbrev quoted_text : Bytes
quoted_text = codes "it's [x]] -- /*"

abbrev after_text : Bytes
after_text = codes ", N'b'"

spans-quote_literal_example :
    (spans (quote_literal quoted_text ++ after_text)
      ≡ front n_literal (quote_literal quoted_text)
        ∷ locate (length (quote_literal quoted_text)) (pieces_after (some apostrophe) after_text))
    × (unescape
          (front n_literal (quote_literal quoted_text))
          (quote_literal quoted_text ++ after_text)
        ≡ quoted_text)
spans-quote_literal_example = spans-quote_literal quoted_text after_text refl

spans-quote_name_example :
    (spans (quote_name quoted_text ++ after_text)
      ≡ front bracket_ident (quote_name quoted_text)
        ∷ locate (length (quote_name quoted_text)) (pieces_after (some b']') after_text))
    × (unescape
          (front bracket_ident (quote_name quoted_text))
          (quote_name quoted_text ++ after_text)
        ≡ quoted_text)
spans-quote_name_example = spans-quote_name quoted_text after_text refl

spans-Tiles_example : Tiles 0 (spans quoted_text) (length quoted_text)
spans-Tiles_example = spans-Tiles quoted_text

unquote_name-quote_name_example : unquote_name (quote_name quoted_text) ≡ quoted_text
unquote_name-quote_name_example = unquote_name-quote_name quoted_text

unquote_name_sound_example :
    (unquote_name (codes "[a]]b]") ≡ codes "[a]]b]")
    ⊎ ((quote_name (unquote_name (codes "[a]]b]")) ≡ codes "[a]]b]")
        ⊎ (double_quoted (unquote_name (codes "[a]]b]")) ≡ codes "[a]]b]"))
unquote_name_sound_example = unquote_name_sound (codes "[a]]b]")

abbrev broken_name : Bytes
broken_name = newline ∷ codes "*/*"

pieces_after-comment_safe_example :
    pieces_after none (codes "-- " ++ (comment_safe broken_name ++ (newline ∷ after_text)))
    ≡ record { kind = line_comment; text = codes "-- " ++ comment_safe broken_name; closed = true }
      ∷ pieces_after
          (last_byte none (codes "-- " ++ comment_safe broken_name))
          (newline ∷ after_text)
pieces_after-comment_safe_example = pieces_after-comment_safe none broken_name after_text

pieces_after-block_comment_safe_example :
    pieces_after none
      (codes "/* " ++ (block_comment_safe broken_name ++ (codes " */" ++ after_text)))
    ≡ record {
      kind = block_comment;
      text = codes "/* " ++ (block_comment_safe broken_name ++ codes " */");
      closed = true;
    }
      ∷ pieces_after
          (last_byte none (codes "/* " ++ (block_comment_safe broken_name ++ codes " */")))
          after_text
pieces_after-block_comment_safe_example =
    pieces_after-block_comment_safe none broken_name after_text

abbrev three_parts : List Bytes
three_parts = codes "my.db" ∷ [] ∷ codes "a]b" ∷ []

split_name-dotted_example : split_name (dotted three_parts) ≡ some (ok three_parts)
unfolding first_empty last_empty
split_name-dotted_example = split_name-dotted three_parts (omega arith) refl refl

split_name_sound_example :
    (r : Result SplitError (List Bytes)) × (split_name (codes "a.[b].c") ≡ some r)
    × ((ps : List Bytes)
        → r ≡ ok ps
        → (1 ≤ length ps) × (length ps ≤ 4) × (first_empty ps ≡ false) × (last_empty ps ≡ false))
split_name_sound_example = split_name_sound (codes "a.[b].c")

split_name-quote_name_if_needed_example :
    split_name (quote_name_if_needed (codes "user")) ≡ some (ok (codes "user" ∷ []))
unfolding is_empty
split_name-quote_name_if_needed_example = split_name-quote_name_if_needed (codes "user") refl

compare_lsn-value_example :
    compare_lsn (codes "007") (codes "12") ≡ compare (value (codes "007")) (value (codes "12"))
compare_lsn-value_example =
    compare_lsn-value (codes "007") (codes "12")
      ((omega arith, omega arith), ((omega arith, omega arith), ((omega arith, omega arith), tt)))
      ((omega arith, omega arith), ((omega arith, omega arith), tt))

abbrev backup : BackupSetType → ℕ → ℕ → Bytes → Bytes → BackupInfo
backup kind id finish from to = record {
  set_type = kind;
  is_copy_only = false;
  backup_finish = record { instant = finish; wall_clock = finish };
  device_name = codes "d";
  position = 1;
  backup_set_id = id;
  first_lsn = from;
  last_lsn = to;
  backup_set_guid = [];
  differential_base_guid = [];
}

abbrev full_one : BackupInfo
full_one = backup database 1 10 (codes "1") (codes "5")

abbrev log_one : BackupInfo
log_one = backup log 2 20 (codes "4") (codes "9")

abbrev log_two : BackupInfo
log_two = backup log 3 30 (codes "9") (codes "12")

abbrev history : List BackupInfo
history = log_two ∷ full_one ∷ log_one ∷ []

abbrev to_25 : RestorePlanOptions
to_25 = record { stop_at = some (record { instant = 25; wall_clock = 25 }); tail_log = false }

abbrev to_3 : RestorePlanOptions
to_3 = record { stop_at = some (record { instant = 3; wall_clock = 3 }); tail_log = false }

abbrev three_sets : RestorePlan
three_sets = record { sets = full_one ∷ log_one ∷ log_two ∷ []; tail_log = false }

plan_restore_test : plan_restore history to_25 ≡ some (ok three_sets)
unfolding plan_restore plan_from fulls_of diffs_of logs_of sort_logs follow finish_plan max_newest
    newest_of compare_lsn trim_zeros compare_text
plan_restore_test = refl

plan_restore-IsPlan_example : IsPlan history to_25 three_sets
plan_restore-IsPlan_example = plan_restore-IsPlan history to_25 three_sets plan_restore_test

plan_restore_total_example :
    (r : Result PlanError RestorePlan) × (plan_restore history to_3 ≡ some r)
plan_restore_total_example = plan_restore_total history to_3

plan_restore-no_full_backup_example :
    (plan_restore history to_3 ≡ some (err no_full_backup))
    ↔ ((b : BackupInfo) → ¬ (IsFull to_3 history b))
plan_restore-no_full_backup_example = plan_restore-no_full_backup history to_3

plan_restore-places_files_example :
    (full : BackupInfo) × (rest : List BackupInfo) × (three_sets.sets ≡ full ∷ rest)
    × (places_files full.set_type ≡ true)
    × (restore_verb full.set_type ≡ backup_action_database)
    × ((b : BackupInfo) → Elem b rest → FollowsFull b)
plan_restore-places_files_example =
    plan_restore-places_files history to_25 three_sets plan_restore_test

abbrev two_servers : ScriptCollector
two_servers = record {
  entries =
      record { server = codes "s"; database = codes "db"; sql = codes "A" }
      ∷ record { server = codes "s"; database = []; sql = codes "B" }
      ∷ record { server = codes "t"; database = codes "db"; sql = codes "C" }
      ∷ [];
}

-- They have several instances, so any is the only one of them.
first_byte : Bytes → ℕ
first_byte [] = 0
first_byte (c ∷ s) = c

two_servers-IsOnlyServer : IsOnlyServer (codes "u") two_servers.entries
unfolding first_byte
two_servers-IsOnlyServer h = let z : 116 ≡ 115 = ap first_byte (h.1.0) in absurd (omega (arith, z))

chunks-RanAs_example : AllRanAs two_servers.entries (replay (codes "u") [] (chunks two_servers))
unfolding from_master has_prefix
chunks-RanAs_example =
    chunks-RanAs two_servers (codes "u") two_servers-IsOnlyServer
      ((λ _. refl), ((λ _. refl), ((λ _. refl), tt)))
