-- ===== src/Restore/Plan/Meaning.antt =====
-- What a plan of PlanRestore is, in terms of the fields of its backup sets.
use Prim.Native.Nat.{Ordering}
use gosmo.Base.{
  ◌≤◌, ◌<◌, ◌≡◌, ◌≢◌, refl, subst, true, false, Option, none, some, List, [], ◌∷◌, ◌++◌, ok, err,
  Bytes, arith, ◌⊎◌, ◌↔◌, str_eq_sound, str_eq_refl,
}
use gosmo.Restore.Lsn.{compare_lsn}
use gosmo.Restore.Plan.{
  BackupSetType, database, log, differential, Time, BackupInfo, RestorePlanOptions, RestorePlan,
  no_full_backup, is_gt, is_blank, restorable, usable, is_zero, after, finished_by, newest,
  is_empty, is_full, is_diff, is_log, against, continues, reaches, last_of, plan_restore,
}
use gosmo.Restore.Plan.Sound.{Elem, Continued, ReachedLast, end_of}
use gosmo.Restore.Plan.Newest.{NotNewer}
use gosmo.Restore.Plan.Choice.{
  FullFits, DiffFits, LogFits, DiffChosen, plan_restore-IsChosen, plan_restore-no_fulls,
}

-- A set that RESTORE can name and that is known to have finished.
abbrev pub IsUsable : BackupInfo → Type 0
IsUsable b = (is_blank b.device_name ≡ false) × (b.backup_finish.instant ≢ 0)

-- The set finished by the stop, if there is one, on the clocks' faces.
abbrev pub InTime : Option Time → BackupInfo → Type 0
InTime stop b = (t : Time) → stop ≡ some t → b.backup_finish.wall_clock ≤ t.wall_clock

abbrev pub IsFull : RestorePlanOptions → List BackupInfo → BackupInfo → Type 0
IsFull opts history b =
    Elem b history × IsUsable b × (b.set_type ≡ database) × InTime opts.stop_at b

-- A differential that was taken against the full backup.
abbrev pub IsDiff : RestorePlanOptions → List BackupInfo → BackupInfo → BackupInfo → Type 0
IsDiff opts history full b =
    Elem b history
    × IsUsable b
    × (b.set_type ≡ differential)
    × InTime opts.stop_at b
    × (full.is_copy_only ≡ false)
    × (full.backup_set_guid ≢ [])
    × (b.differential_base_guid ≡ full.backup_set_guid)

abbrev pub IsLog : List BackupInfo → BackupInfo → Type 0
IsLog history b =
    Elem b history
    × IsUsable b
    × (b.set_type ≡ log)
    × (b.is_copy_only ≡ false)
    × (b.first_lsn ≢ [])
    × (b.last_lsn ≢ [])

-- b finished later than a, or at the same instant with an id that is not smaller.
abbrev pub NotLater : BackupInfo → BackupInfo → Type 0
NotLater a b =
    (a.backup_finish.instant < b.backup_finish.instant)
    ⊎ ((a.backup_finish.instant ≡ b.backup_finish.instant) × (a.backup_set_id ≤ b.backup_set_id))

-- none where there is none to use, and otherwise the newest
abbrev pub IsDiffChoice :
    RestorePlanOptions → List BackupInfo → BackupInfo → List BackupInfo → Type 0
IsDiffChoice opts history full [] = (b : BackupInfo) → ¬ (IsDiff opts history full b)
IsDiffChoice opts history full (d ∷ ds) =
    (ds ≡ [])
    × IsDiff opts history full d
    × ((b : BackupInfo) → IsDiff opts history full b → NotLater b d)

-- Each log starts at or before the LSN where the one before it ended, and ends behind it.
abbrev pub Unbroken : Bytes → List BackupInfo → Type 0
Unbroken end [] = Unit
Unbroken end (l ∷ ls) =
    (compare_lsn l.first_lsn end ≢ Ordering.gt)
    × (compare_lsn end l.last_lsn ≡ Ordering.lt)
    × Unbroken l.last_lsn ls

-- The last log finished after the stop, and none before it did.
abbrev pub ReachesLast : Time → List BackupInfo → Type 0
ReachesLast t [] = ⊥
ReachesLast t (l ∷ []) = t.wall_clock < l.backup_finish.wall_clock
ReachesLast t (l ∷ m ∷ ls) = (l.backup_finish.wall_clock ≤ t.wall_clock) × ReachesLast t (m ∷ ls)

pub record IsPlan (history : List BackupInfo) (opts : RestorePlanOptions) (p : RestorePlan)
    : Type 0 where
  pub full : BackupInfo
  pub diff : List BackupInfo
  pub logs : List BackupInfo
  pub in_order : p.sets ≡ full ∷ diff ++ logs
  pub full_usable : IsFull opts history full
  pub full_newest : (b : BackupInfo) → IsFull opts history b → NotLater b full
  pub diff_chosen : IsDiffChoice opts history full diff
  pub logs_usable : (l : BackupInfo) → Elem l logs → IsLog history l
  pub unbroken : Unbroken (last_of full diff).last_lsn logs
  pub reaches_stop : (t : Time) → opts.stop_at ≡ some t → p.tail_log ≡ false → ReachesLast t logs
  pub tail_follows :
      p.tail_log ≡ true
      → (opts.tail_log ≡ true)
        × ((l : BackupInfo)
            → IsLog history l
            → compare_lsn l.last_lsn (end_of (last_of full diff).last_lsn logs) ≢ Ordering.gt)

usable-IsUsable : (b : BackupInfo) → (usable b ≡ true) ↔ IsUsable b
unfolding usable restorable is_zero
usable-IsUsable b = (λ h. (ground (arith, h), ground (arith, h)), λ u. ground (arith, u.0, u.1))

finished_by-InTime :
    (stop : Option Time) (b : BackupInfo)
    → (finished_by stop b.backup_finish ≡ true) ↔ InTime stop b
unfolding finished_by after
finished_by-InTime none b = (λ h t e. cc, λ h. refl)
finished_by-InTime (some s) b =
    (λ h t e. ground (arith, h, e), λ h. let le = h s refl in ground (arith, le))

is_full_iff :
    (stop : Option Time) (kind : BackupSetType) (b : BackupInfo)
    → (is_full stop kind b ≡ true) ↔ ((kind ≡ database) × (finished_by stop b.backup_finish ≡ true))
unfolding is_full
is_full_iff stop database b = (λ h. (refl, h), λ p. p.1)
is_full_iff stop _ b = (λ h. absurd (cc), λ p. absurd (cc (p.0)))

is_diff_iff :
    (stop : Option Time) (kind : BackupSetType) (b : BackupInfo)
    → (is_diff stop kind b ≡ true)
      ↔ ((kind ≡ differential) × (finished_by stop b.backup_finish ≡ true))
unfolding is_diff
is_diff_iff stop differential b = (λ h. (refl, h), λ p. p.1)
is_diff_iff stop _ b = (λ h. absurd (cc), λ p. absurd (cc (p.0)))

is_empty_iff : (s : Bytes) → (is_empty s ≡ false) ↔ (s ≢ [])
is_empty_iff [] = (λ h. cc, λ h. absurd (h refl))
is_empty_iff (c ∷ s) = (λ h e. cc, λ h. refl)

is_log_iff :
    (kind : BackupSetType) (b : BackupInfo)
    → (is_log kind b ≡ true)
      ↔ ((kind ≡ log) × (b.is_copy_only ≡ false) × (b.first_lsn ≢ []) × (b.last_lsn ≢ []))
unfolding is_log
is_log_iff log b = (
  λ h. (
    refl,
    ground (arith, h),
    (is_empty_iff b.first_lsn).0 (ground (arith, h)),
    (is_empty_iff b.last_lsn).0 (ground (arith, h)),
  ),
  λ p. rw (p.1, (is_empty_iff b.first_lsn).1 p.2, (is_empty_iff b.last_lsn).1 p.3) refl,
)
is_log_iff _ b = (λ h. absurd (cc), λ p. absurd (cc (p.0)))

against_iff :
    (full d : BackupInfo)
    → (against full d ≡ true) ↔ (
        (full.is_copy_only ≡ false)
        × (full.backup_set_guid ≢ [])
        × (d.differential_base_guid ≡ full.backup_set_guid))
unfolding against
against_iff full d = (
  λ h. (
    ground (arith, h),
    (is_empty_iff full.backup_set_guid).0 (ground (arith, h)),
    str_eq_sound d.differential_base_guid full.backup_set_guid (ground (arith, h)),
  ),
  λ p.
      rw (p.0, (is_empty_iff full.backup_set_guid).1 p.1, p.2)
        (rw (str_eq_refl full.backup_set_guid) refl),
)

NotNewer-NotLater : (a b : BackupInfo) → NotNewer a b → NotLater a b
unfolding newest
NotNewer-NotLater a b h = ground (arith, h)

continues_iff :
    (end : Bytes) (l : BackupInfo)
    → continues end l ≡ true
    → (compare_lsn l.first_lsn end ≢ Ordering.gt) × (compare_lsn end l.last_lsn ≡ Ordering.lt)
unfolding continues
continues_iff end l h = ground (arith, h)

is_gt-ne : (o : Ordering) → is_gt o ≡ false → o ≢ Ordering.gt
is_gt-ne o h e = ground (arith, h, e)

FullFits-IsFull :
    (opts : RestorePlanOptions) (history : List BackupInfo) (b : BackupInfo)
    → FullFits opts history b ↔ IsFull opts history b
FullFits-IsFull opts history b = (
  λ f.
      let k = (is_full_iff opts.stop_at b.set_type b).0 f.2 in
      (f.0, (usable-IsUsable b).0 f.1, k.0, (finished_by-InTime opts.stop_at b).0 k.1),
  λ f. (
    f.0,
    (usable-IsUsable b).1 f.1,
    (is_full_iff opts.stop_at b.set_type b).1 (f.2, (finished_by-InTime opts.stop_at b).1 f.3),
  ),
)

DiffFits-IsDiff :
    (opts : RestorePlanOptions) (history : List BackupInfo) (full b : BackupInfo)
    → DiffFits opts history full b ↔ IsDiff opts history full b
DiffFits-IsDiff opts history full b = (
  λ f.
      let k = (is_diff_iff opts.stop_at b.set_type b).0 f.2 in
      let base = (against_iff full b).0 f.3 in
      (
        f.0,
        (usable-IsUsable b).0 f.1,
        k.0,
        (finished_by-InTime opts.stop_at b).0 k.1,
        base.0,
        base.1,
        base.2,
      ),
  λ f. (
    f.0,
    (usable-IsUsable b).1 f.1,
    (is_diff_iff opts.stop_at b.set_type b).1 (f.2, (finished_by-InTime opts.stop_at b).1 f.3),
    (against_iff full b).1 (f.4, f.5, f.6),
  ),
)

LogFits-IsLog : (history : List BackupInfo) (b : BackupInfo) → LogFits history b ↔ IsLog history b
LogFits-IsLog history b = (
  λ f.
      let k = (is_log_iff b.set_type b).0 f.2 in
      (f.0, (usable-IsUsable b).0 f.1, k.0, k.1, k.2, k.3),
  λ f. (f.0, (usable-IsUsable b).1 f.1, (is_log_iff b.set_type b).1 (f.2, f.3, f.4, f.5)),
)

DiffChosen-IsDiffChoice :
    (opts : RestorePlanOptions) (history : List BackupInfo) (full : BackupInfo)
    (ds : List BackupInfo)
    → DiffChosen opts history full ds
    → IsDiffChoice opts history full ds
DiffChosen-IsDiffChoice opts history full [] h =
    λ b d. h b ((DiffFits-IsDiff opts history full b).1 d)
DiffChosen-IsDiffChoice opts history full (d ∷ ds) h = (
  h.0,
  (DiffFits-IsDiff opts history full d).0 h.1,
  λ b i. NotNewer-NotLater b d (h.2 b ((DiffFits-IsDiff opts history full b).1 i)),
)

Continued-Unbroken : (end : Bytes) (ls : List BackupInfo) → Continued end ls → Unbroken end ls
Continued-Unbroken end [] h = tt
Continued-Unbroken end (l ∷ ls) h =
    let c = continues_iff end l h.0 in (c.0, c.1, Continued-Unbroken l.last_lsn ls h.1)

ReachedLast-ReachesLast :
    (t : Time) (ls : List BackupInfo) → ReachedLast (some t) ls → ReachesLast t ls
unfolding reaches after
ReachedLast-ReachesLast t [] h = h
ReachedLast-ReachesLast t (l ∷ []) h = ground (arith, h)
ReachedLast-ReachesLast t (l ∷ m ∷ ls) h =
    (ground (arith, h.0), ReachedLast-ReachesLast t (m ∷ ls) h.1)

-- A plan that PlanRestore returns is one full backup that finished by the stop and that no other
-- such backup is newer than, the newest differential against it if there is one, and then logs of
-- the history each of which starts at or before the LSN where the one before it ended and ends
-- behind it. With a stop and no tail log the last log finished after the stop and no earlier one
-- did; a tail log is planned only if it was asked for, and then no log of the history goes past the
-- end of the plan.
pub plan_restore-IsPlan :
    (history : List BackupInfo) (opts : RestorePlanOptions) (p : RestorePlan)
    → plan_restore history opts ≡ some (ok p)
    → IsPlan history opts p
plan_restore-IsPlan history opts p h =
    let c = plan_restore-IsChosen history opts p h in
    record {
      full = c.full;
      diff = c.diff;
      logs = c.logs;
      in_order = c.in_order;
      full_usable = (FullFits-IsFull opts history c.full).0 c.full_usable;
      full_newest = λ b f.
          NotNewer-NotLater b c.full (c.full_newest b ((FullFits-IsFull opts history b).1 f));
      diff_chosen = DiffChosen-IsDiffChoice opts history c.full c.diff c.diff_chosen;
      logs_usable = λ l e. (LogFits-IsLog history l).0 (c.logs_usable l e);
      unbroken = Continued-Unbroken (last_of c.full c.diff).last_lsn c.logs c.unbroken;
      reaches_stop = λ t e q.
          ReachedLast-ReachesLast t c.logs
            (subst (λ s. ReachedLast s c.logs) e (c.reaches_stop t e q));
      tail_follows = λ q. (
        (c.tail_follows q).0,
        λ l i.
            is_gt-ne (compare_lsn l.last_lsn (end_of (last_of c.full c.diff).last_lsn c.logs))
              ((c.tail_follows q).1 l ((LogFits-IsLog history l).1 i)),
      );
    }

-- PlanRestore reports that no full backup was found exactly if no set of the history is a full
-- backup that RESTORE can name and that finished by the stop.
pub plan_restore-no_full_backup :
    (history : List BackupInfo) (opts : RestorePlanOptions)
    → (plan_restore history opts ≡ some (err no_full_backup))
      ↔ ((b : BackupInfo) → ¬ (IsFull opts history b))
plan_restore-no_full_backup history opts = (
  λ e b f. (plan_restore-no_fulls history opts).0 e b ((FullFits-IsFull opts history b).1 f),
  λ n. (plan_restore-no_fulls history opts).1 (λ b f. n b ((FullFits-IsFull opts history b).0 f)),
)
