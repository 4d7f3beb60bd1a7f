-- ===== src/Restore/Plan.antt =====
-- PlanRestore: the backup sets that restore a database to a point in time.
pub mod Ends
pub mod Sound
pub mod Newest
pub mod Choice
pub mod Meaning
use Prim.Native.Nat.{compare, Ordering}
use gosmo.Base.{
  ℕ, zero, suc, ◌≡◌, refl, Bool, true, false, not, ◌&&◌, ◌||◌, Option, none, some, List, [], ◌∷◌,
  ◌++◌, Result, ok, err, Bytes, codes, leb, ltb, ◌==◌, if◌then◌else◌, length, str_eq, contains_func,
}
use gosmo.Restore.Lsn.{then_by, compare_lsn}

-- types.go: BackupSetType; `unread` is the zero value.
pub data BackupSetType : Type 0 where
  unread database log file differential differential_file partial differential_partial :
      BackupSetType

-- A time.Time: its instant, 0 for the zero time, and the wall clock fields it shows, as `wallClock`
-- reads them.
pub record Time : Type 0 where
  pub instant : ℕ
  pub wall_clock : ℕ

-- types.go: the fields of BackupInfo that a plan reads.
pub record BackupInfo : Type 0 where
  pub set_type : BackupSetType
  pub is_copy_only : Bool
  pub backup_finish : Time
  pub device_name : Bytes
  pub position : ℕ
  pub backup_set_id : ℕ
  pub first_lsn : Bytes
  pub last_lsn : Bytes
  pub backup_set_guid : Bytes
  pub differential_base_guid : Bytes

pub record RestorePlanOptions : Type 0 where
  pub stop_at : Option Time
  pub tail_log : Bool

pub record RestorePlan : Type 0 where
  pub sets : List BackupInfo
  pub tail_log : Bool

-- ErrNotFound, and the two refusals of ErrInvalidRequest.
pub data PlanError : Type 0 where
  no_full_backup chain_breaks : PlanError
  past_chain : Bool → PlanError

unfoldable pub set_number : ℕ → ℕ
set_number position = if ltb 1 position then position else 0

-- strings.TrimSpace(s) == "", over ASCII white space
unfoldable pub is_blank : Bytes → Bool
is_blank [] = true
is_blank (c ∷ s) = (c == b' ' || (leb 9 c && leb c 13)) && is_blank s

unfoldable pub restorable : BackupInfo → Bool
unfolding is_blank
restorable b = not (is_blank b.device_name)

-- t.IsZero()
unfoldable pub is_zero : Time → Bool
is_zero t = t.instant == 0

-- wallClock(t).After(stop)
unfoldable pub after : Time → Time → Bool
after t stop = ltb stop.wall_clock t.wall_clock

-- the closure `by`
unfoldable pub finished_by : Option Time → Time → Bool
unfolding after
finished_by none t = true
finished_by (some stop) t = not (after t stop)

-- the closure `newest`
unfoldable pub newest : BackupInfo → BackupInfo → Ordering
newest a b =
    then_by (compare a.backup_finish.instant b.backup_finish.instant)
      (compare a.backup_set_id b.backup_set_id)

abbrev pub is_empty : Bytes → Bool
is_empty [] = true
is_empty (c ∷ s) = false

-- The first test of the loop over the history.
unfoldable pub usable : BackupInfo → Bool
unfolding restorable is_zero
usable b = restorable b && not (is_zero b.backup_finish)

-- Whether the switch appends the set to fulls, to diffs or to logs.
unfoldable pub is_full : Option Time → BackupSetType → BackupInfo → Bool
unfolding finished_by
is_full stop database b = finished_by stop b.backup_finish
is_full stop _ b = false

unfoldable pub is_diff : Option Time → BackupSetType → BackupInfo → Bool
unfolding finished_by
is_diff stop differential b = finished_by stop b.backup_finish
is_diff stop _ b = false

unfoldable pub is_log : BackupSetType → BackupInfo → Bool
is_log log b = not b.is_copy_only && not (is_empty b.first_lsn) && not (is_empty b.last_lsn)
is_log _ b = false

abbrev pub filter {ℓ} : {A : Type ℓ} → (A → Bool) → List A → List A
filter p [] = []
filter p (x ∷ xs) = elim (p x) [ true ↦ x ∷ filter p xs | false ↦ filter p xs ]

unfoldable pub fulls_of : Option Time → List BackupInfo → List BackupInfo
unfolding usable is_full
fulls_of stop = filter (λ b. usable b && is_full stop b.set_type b)

unfoldable pub diffs_of : Option Time → List BackupInfo → List BackupInfo
unfolding usable is_diff
diffs_of stop = filter (λ b. usable b && is_diff stop b.set_type b)

unfoldable pub logs_of : List BackupInfo → List BackupInfo
unfolding usable is_log
logs_of = filter (λ b. usable b && is_log b.set_type b)

abbrev pub is_gt : Ordering → Bool
is_gt Ordering.gt = true
is_gt _ = false

abbrev pub is_lt : Ordering → Bool
is_lt Ordering.lt = true
is_lt _ = false

-- slices.MaxFunc(x ∷ xs, newest): the first of the greatest.
unfoldable pub max_newest : BackupInfo → List BackupInfo → BackupInfo
unfolding newest
max_newest m [] = m
max_newest m (x ∷ xs) = max_newest (if is_gt (newest x m) then x else m) xs

-- What slices.DeleteFunc leaves of diffs.
unfoldable pub against : BackupInfo → BackupInfo → Bool
against full d = not (
    full.is_copy_only
    || is_empty full.backup_set_guid
    || not (str_eq d.differential_base_guid full.backup_set_guid))

-- slices.SortStableFunc by first LSN, then newest: a stable insertion.
unfoldable pub log_order : BackupInfo → BackupInfo → Ordering
unfolding newest
log_order a b = then_by (compare_lsn a.first_lsn b.first_lsn) (newest a b)

unfoldable pub insert_log : BackupInfo → List BackupInfo → List BackupInfo
unfolding log_order
insert_log l [] = l ∷ []
insert_log l (m ∷ ms) = elim (is_gt (log_order l m)) [
  | true ↦ m ∷ insert_log l ms
  | false ↦ l ∷ m ∷ ms
]

unfoldable pub sort_logs : List BackupInfo → List BackupInfo
unfolding insert_log
sort_logs [] = []
sort_logs (l ∷ ls) = insert_log l (sort_logs ls)

-- The log holds the LSN `end`: CompareLSN(l.FirstLSN, end) <= 0 && CompareLSN(end, l.LastLSN) < 0.
unfoldable pub continues : Bytes → BackupInfo → Bool
continues end l = not (is_gt (compare_lsn l.first_lsn end)) && is_lt (compare_lsn end l.last_lsn)

-- logs[slices.IndexFunc(logs, …)]
unfoldable pub find_next : Bytes → List BackupInfo → Option BackupInfo
unfolding continues
find_next end [] = none
find_next end (l ∷ ls) = elim (continues end l) [ true ↦ some l | false ↦ find_next end ls ]

unfoldable pub reaches : Option Time → BackupInfo → Bool
unfolding after
reaches none l = false
reaches (some stop) l = after l.backup_finish stop

-- The logs that the chain loop appends, its `end` and its `reached`.
pub record Chain : Type 0 where
  pub appended : List BackupInfo
  pub end : Bytes
  pub reached : Bool

unfoldable pub add_log : BackupInfo → Chain → Chain
add_log l c = record c { appended = l ∷ c.appended }

-- The loop, on fuel: each round but the last moves `end` past another log.
unfoldable pub follow : ℕ → Option Time → List BackupInfo → Bytes → Option Chain
unfolding find_next reaches add_log
follow zero stop logs end = none
follow (suc f) stop logs end = elim (is_empty end) [
  | true ↦ some (record { appended = []; end = end; reached = false })
  | false ↦ elim (find_next end logs) [
    | none ↦ some (record { appended = []; end = end; reached = false })
    | some l ↦ elim (reaches stop l) [
      | true ↦ some (record { appended = l ∷ []; end = l.last_lsn; reached = true })
      | false ↦ elim (follow f stop logs l.last_lsn) [ none ↦ none | some c ↦ some (add_log l c) ]
    ]
  ]
]

-- No log goes past the chain's end.
unfoldable pub at_end : List BackupInfo → Bytes → Bool
at_end logs end = not (contains_func (λ l. is_gt (compare_lsn l.last_lsn end)) logs)

-- The differential, if one is left.
unfoldable pub newest_of : List BackupInfo → List BackupInfo
unfolding max_newest
newest_of [] = []
newest_of (d ∷ ds) = max_newest d ds ∷ []

abbrev pub last_of : BackupInfo → List BackupInfo → BackupInfo
last_of b [] = b
last_of b (c ∷ cs) = last_of c cs

-- What PlanRestore returns from the end of the chain on.
unfoldable pub finish_plan :
    RestorePlanOptions → List BackupInfo → List BackupInfo → Chain → Result PlanError RestorePlan
unfolding at_end
finish_plan opts logs front c =
    let plan : RestorePlan = record { sets = front ++ c.appended; tail_log = false } in
    if c.reached
    then ok plan
    else if opts.tail_log
    then (if at_end logs c.end
        then ok (record { sets = front ++ c.appended; tail_log = true })
        else err chain_breaks)
    else elim opts.stop_at [ some t ↦ err (past_chain (at_end logs c.end)) | none ↦ ok plan ]

-- From the chosen full backup on.
unfoldable pub plan_from :
    RestorePlanOptions → List BackupInfo → BackupInfo → Option (Result PlanError RestorePlan)
plan_from opts history full =
    let diff = newest_of (filter (against full) (diffs_of opts.stop_at history)) in
    let logs = sort_logs (logs_of history) in
    let base = last_of full diff in
    elim (follow (suc (length logs)) opts.stop_at logs base.last_lsn) [
      | none ↦ none
      | some c ↦ some (finish_plan opts logs (full ∷ diff) c)
    ]

unfoldable pub plan_restore :
    List BackupInfo → RestorePlanOptions → Option (Result PlanError RestorePlan)
plan_restore history opts = elim (fulls_of opts.stop_at history) [
  | [] ↦ some (err no_full_backup)
  | b ∷ bs ↦ plan_from opts history (max_newest b bs)
]
