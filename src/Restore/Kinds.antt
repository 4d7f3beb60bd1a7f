-- ===== src/Restore/Kinds.antt =====
-- types.go: what kind of backup set a header or msdb records, and how a set of a kind is restored.
pub mod Placed
use gosmo.Base.{
  ℕ, ◌≡◌, refl, Bool, true, false, Option, none, some, List, [], ◌∷◌, Bytes, codes, ◌==◌, str_eq,
  if◌then◌else◌,
}
use gosmo.Restore.Plan.{
  BackupSetType, unread, database, log, file, differential, differential_file, partial,
  differential_partial, set_number,
}

pub data BackupAction : Type 0 where
  backup_action_database backup_action_log backup_action_files backup_action_differential :
      BackupAction

-- backupSetTypeFromHeader
unfoldable pub backup_set_type_from_header : ℕ → BackupSetType
backup_set_type_from_header n =
    if n == 1
    then database
    else if n == 2
    then log
    else if n == 4
    then file
    else if n == 5
    then differential
    else if n == 6
    then differential_file
    else if n == 7
    then partial
    else if n == 8
    then differential_partial
    else unread

-- backupSetTypeFromHistory
unfoldable pub backup_set_type_from_history : Bytes → BackupSetType
unfolding str_eq
backup_set_type_from_history letter =
    if str_eq letter (codes "D")
    then database
    else if str_eq letter (codes "L")
    then log
    else if str_eq letter (codes "F")
    then file
    else if str_eq letter (codes "I")
    then differential
    else if str_eq letter (codes "G")
    then differential_file
    else if str_eq letter (codes "P")
    then partial
    else if str_eq letter (codes "Q")
    then differential_partial
    else unread

unfoldable pub is_differential : BackupSetType → Bool
is_differential differential = true
is_differential differential_file = true
is_differential differential_partial = true
is_differential _ = false

unfoldable pub restore_verb : BackupSetType → BackupAction
restore_verb log = backup_action_log
restore_verb _ = backup_action_database

unfoldable pub places_files : BackupSetType → Bool
places_files database = true
places_files partial = true
places_files unread = true
places_files _ = false

-- The fields of a BackupHeader that choosing a set reads.
pub record BackupHeader : Type 0 where
  pub position : ℕ
  pub set_type : BackupSetType

unfoldable pub backup_set_at : List BackupHeader → ℕ → Option BackupHeader
unfolding set_number
backup_set_at [] n = none
backup_set_at (h ∷ hs) n = elim (set_number h.position == n) [
  | true ↦ some h
  | false ↦ backup_set_at hs n
]

-- A device of one set, and of two.
one_set :
    backup_set_at (record { position = 1; set_type = database } ∷ []) 0
    ≡ some (record { position = 1; set_type = database })
unfolding backup_set_at
one_set = refl
