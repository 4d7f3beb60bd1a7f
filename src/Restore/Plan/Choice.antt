-- ===== src/Restore/Plan/Choice.antt =====
-- PlanRestore returns a plan that holds what its comment says, or no full backup can start one.
use gosmo.Base.{
  subst, and_left, and_right, and_intro, suc, ◌≡◌, ◌≢◌, refl, sym, Bool, true, false, ◌&&◌, none,
  some, List, [], ◌∷◌, ◌++◌, ok, err, Bytes, arith, Option-cases, List-cases, inl, inr, length, ◌↔◌,
  contains_func,
}
use gosmo.Restore.Lsn.{compare_lsn}
use gosmo.Restore.Plan.{
  Time, BackupInfo, RestorePlanOptions, RestorePlan, no_full_backup, is_gt, follow, Chain, usable,
  is_full, is_diff, is_log, fulls_of, diffs_of, logs_of, sort_logs, newest_of, filter, against,
  last_of, finish_plan, plan_from, plan_restore, max_newest, at_end,
}
use gosmo.Restore.Plan.Newest.{NotNewer, max_newest-IsNewest}
use gosmo.Restore.Plan.Sound.{
  Elem, Elem-filter, filter-Elem, Elem-sort_logs, sort_logs-Elem, Continued, ReachedLast, end_of,
  Follows, follow-Follows,
}

-- The full backups that a plan may start from, and the differentials and logs that it may use.
abbrev pub FullFits : RestorePlanOptions → List BackupInfo → BackupInfo → Type 0
FullFits opts history b =
    Elem b history × (usable b ≡ true) × (is_full opts.stop_at b.set_type b ≡ true)

abbrev pub DiffFits : RestorePlanOptions → List BackupInfo → BackupInfo → BackupInfo → Type 0
DiffFits opts history full b =
    Elem b history
    × (usable b ≡ true)
    × (is_diff opts.stop_at b.set_type b ≡ true)
    × (against full b ≡ true)

abbrev pub LogFits : List BackupInfo → BackupInfo → Type 0
LogFits history b = Elem b history × (usable b ≡ true) × (is_log b.set_type b ≡ true)

-- The differential: none where there is none to use, and otherwise the newest.
abbrev pub DiffChosen : RestorePlanOptions → List BackupInfo → BackupInfo → List BackupInfo → Type 0
DiffChosen opts history full [] = (b : BackupInfo) → ¬ (DiffFits opts history full b)
DiffChosen opts history full (d ∷ ds) =
    (ds ≡ [])
    × DiffFits opts history full d
    × ((b : BackupInfo) → DiffFits opts history full b → NotNewer b d)

pub record IsChosen (history : List BackupInfo) (opts : RestorePlanOptions) (p : RestorePlan)
    : Type 0 where
  pub full : BackupInfo
  pub diff : List BackupInfo
  pub logs : List BackupInfo
  pub in_order : p.sets ≡ full ∷ diff ++ logs
  pub full_usable : FullFits opts history full
  pub full_newest : (b : BackupInfo) → FullFits opts history b → NotNewer b full
  pub diff_chosen : DiffChosen opts history full diff
  pub logs_usable : (l : BackupInfo) → Elem l logs → LogFits history l
  pub unbroken : Continued (last_of full diff).last_lsn logs
  pub reaches_stop :
      (t : Time) → opts.stop_at ≡ some t → p.tail_log ≡ false → ReachedLast opts.stop_at logs
  pub tail_follows :
      p.tail_log ≡ true
      → (opts.tail_log ≡ true)
        × ((l : BackupInfo)
            → LogFits history l
            → is_gt (compare_lsn l.last_lsn (end_of (last_of full diff).last_lsn logs)) ≡ false)

FullFits-fulls_of :
    (opts : RestorePlanOptions) (history : List BackupInfo) (b : BackupInfo)
    → Elem b (fulls_of opts.stop_at history) ↔ FullFits opts history b
unfolding fulls_of
FullFits-fulls_of opts history b = (
  λ e.
      let f = Elem-filter (λ b. usable b && is_full opts.stop_at b.set_type b) b history e in
      (f.0, and_left _ _ f.1, and_right _ _ f.1),
  λ h.
      filter-Elem (λ b. usable b && is_full opts.stop_at b.set_type b) b history h.0
        (and_intro _ _ h.1 h.2),
)

DiffFits-diffs_of :
    (opts : RestorePlanOptions) (history : List BackupInfo) (full b : BackupInfo)
    → Elem b (filter (against full) (diffs_of opts.stop_at history)) ↔ DiffFits opts history full b
unfolding diffs_of
DiffFits-diffs_of opts history full b = (
  λ e.
      let g = Elem-filter (against full) b (diffs_of opts.stop_at history) e in
      let f = Elem-filter (λ b. usable b && is_diff opts.stop_at b.set_type b) b history g.0 in
      (f.0, and_left _ _ f.1, and_right _ _ f.1, g.1),
  λ h.
      filter-Elem (against full) b (diffs_of opts.stop_at history)
        (filter-Elem (λ b. usable b && is_diff opts.stop_at b.set_type b) b history h.0
          (and_intro _ _ h.1 h.2))
        h.3,
)

LogFits-logs_of :
    (history : List BackupInfo) (b : BackupInfo) → Elem b (logs_of history) ↔ LogFits history b
unfolding logs_of
LogFits-logs_of history b = (
  λ e.
      let f = Elem-filter (λ b. usable b && is_log b.set_type b) b history e in
      (f.0, and_left _ _ f.1, and_right _ _ f.1),
  λ h. filter-Elem (λ b. usable b && is_log b.set_type b) b history h.0 (and_intro _ _ h.1 h.2),
)

newest_of-DiffChosen :
    (opts : RestorePlanOptions) (history : List BackupInfo) (full : BackupInfo)
    → (ds : List BackupInfo) → ds ≡ filter (against full) (diffs_of opts.stop_at history)
    → DiffChosen opts history full (newest_of ds)
newest_of-DiffChosen opts history full [] e =
    unfold newest_of in
    λ b h. subst (λ xs. Elem b xs) (sym e) ((DiffFits-diffs_of opts history full b).1 h)
newest_of-DiffChosen opts history full (d ∷ ds) e =
    let best = max_newest-IsNewest d ds in
    unfold newest_of in
    (
      refl,
      (DiffFits-diffs_of opts history full (max_newest d ds)).0
          (subst (λ xs. Elem (max_newest d ds) xs) e best.0),
      λ b h.
          best.1 b (subst (λ xs. Elem b xs) (sym e) ((DiffFits-diffs_of opts history full b).1 h)),
    )

contains_func-false :
    {A : Type 0} (p : A → Bool) (x : A) (xs : List A)
    → contains_func p xs ≡ false
    → Elem x xs
    → p x ≡ false
contains_func-false p x [] h e = absurd e
contains_func-false p x (y ∷ ys) h (inl q) = rw q (ground arith)
contains_func-false p x (y ∷ ys) h (inr r) = contains_func-false p x ys (ground arith) r

at_end-past :
    (history : List BackupInfo) (end : Bytes) (l : BackupInfo)
    → at_end (sort_logs (logs_of history)) end ≡ true
    → LogFits history l
    → is_gt (compare_lsn l.last_lsn end) ≡ false
unfolding at_end
at_end-past history end l h m =
    contains_func-false (λ l. is_gt (compare_lsn l.last_lsn end)) l (sort_logs (logs_of history))
      (ground arith) (sort_logs-Elem l (logs_of history) ((LogFits-logs_of history l).1 m))

-- What the end of PlanRestore makes of the chain.
finish_plan_sound :
    (opts : RestorePlanOptions) (logs front : List BackupInfo) (c : Chain) (p : RestorePlan)
    → finish_plan opts logs front c ≡ ok p
    → (p.sets ≡ front ++ c.appended)
      × (p.tail_log ≡ true → (opts.tail_log ≡ true) × (at_end logs c.end ≡ true))
      × ((t : Time) → opts.stop_at ≡ some t → p.tail_log ≡ false → c.reached ≡ true)
unfolding finish_plan
finish_plan_sound opts logs front c p h =
    (ground arith, λ q. (ground arith, ground arith), λ t s q. ground arith)

plan_from-IsChosen :
    (history : List BackupInfo) (opts : RestorePlanOptions) (full : BackupInfo) (p : RestorePlan)
    → FullFits opts history full
    → ((b : BackupInfo) → FullFits opts history b → NotNewer b full)
    → plan_from opts history full ≡ some (ok p)
    → IsChosen history opts p
unfolding plan_from
plan_from-IsChosen history opts full p usable_full newest_full h =
    elim (Option-cases (follow (suc (length logs)) opts.stop_at logs base.last_lsn)) [
      | inl e ↦ let bad : none ≡ some (ok p) = rw (e, plan_from) at h in cc
      | inr (c, e) ↦
          let last : finish_plan opts logs (full ∷ diff) c ≡ ok p =
            (let q : some (finish_plan opts logs (full ∷ diff) c) ≡ some (ok p) =
                rw (e, plan_from) at h in
              cc) in
          plan_of c (follow-Follows (suc (length logs)) opts.stop_at logs base.last_lsn c e)
            (finish_plan_sound opts logs (full ∷ diff) c p last)
    ]
  where
    diff : List BackupInfo
    diff = newest_of (filter (against full) (diffs_of opts.stop_at history))

    logs : List BackupInfo
    logs = sort_logs (logs_of history)

    base : BackupInfo
    base = last_of full diff

    plan_of :
        (c : Chain)
        → Follows opts.stop_at logs base.last_lsn c
        → (p.sets ≡ full ∷ diff ++ c.appended)
          × (p.tail_log ≡ true → (opts.tail_log ≡ true) × (at_end logs c.end ≡ true))
          × ((t : Time) → opts.stop_at ≡ some t → p.tail_log ≡ false → c.reached ≡ true)
        → IsChosen history opts p
    plan_of c f s = record {
      full = full;
      diff = diff;
      logs = c.appended;
      in_order = s.0;
      full_usable = usable_full;
      full_newest = newest_full;
      diff_chosen =
          newest_of-DiffChosen opts history full
            (filter (against full) (diffs_of opts.stop_at history)) refl;
      logs_usable =
          λ l m. (LogFits-logs_of history l).0 (Elem-sort_logs l (logs_of history) (f.taken l m));
      unbroken = f.unbroken;
      reaches_stop = λ t e q. f.on_reached (s.2 t e q);
      tail_follows = λ q. (
        (s.1 q).0,
        λ l m.
            subst (λ e. is_gt (compare_lsn l.last_lsn e) ≡ false) f.ended
              (at_end-past history c.end l (s.1 q).1 m),
      );
    }

-- A plan that PlanRestore returns is one full backup that finished by the stop and that no other
-- such backup is newer than, the newest differential against it if there is one, and then logs of
-- the history each of which holds the LSN where the one before it ended and goes past it. With a
-- stop and no tail log the last log finished after the stop and no earlier one did; a tail log is
-- planned only if it was asked for, and then no log of the history goes past the end of the plan.
pub plan_restore-IsChosen :
    (history : List BackupInfo) (opts : RestorePlanOptions) (p : RestorePlan)
    → plan_restore history opts ≡ some (ok p)
    → IsChosen history opts p
unfolding plan_restore
plan_restore-IsChosen history opts p h = elim (List-cases (fulls_of opts.stop_at history)) [
  | inl e ↦ let bad : some (err no_full_backup) ≡ some (ok p) = rw (e, plan_restore) at h in cc
  | inr (b, bs, e) ↦
      let best = max_newest-IsNewest b bs in
      let found : Elem (max_newest b bs) (fulls_of opts.stop_at history) =
        subst (λ xs. Elem (max_newest b bs) xs) (sym e) best.0 in
      plan_from-IsChosen history opts (max_newest b bs) p
        ((FullFits-fulls_of opts history (max_newest b bs)).0 found)
        (λ x f. best.1 x (subst (λ xs. Elem x xs) e ((FullFits-fulls_of opts history x).1 f)))
        (rw (e, plan_restore) at h)
]

finish_plan-ne-no_full_backup :
    (opts : RestorePlanOptions) (logs front : List BackupInfo) (c : Chain)
    → finish_plan opts logs front c ≢ err no_full_backup
unfolding finish_plan
finish_plan-ne-no_full_backup opts logs front c = ground arith

plan_from-ne-no_full_backup :
    (opts : RestorePlanOptions) (history : List BackupInfo) (full : BackupInfo)
    → plan_from opts history full ≢ some (err no_full_backup)
unfolding plan_from
plan_from-ne-no_full_backup opts history full h =
    let diff = newest_of (filter (against full) (diffs_of opts.stop_at history)) in
    let logs = sort_logs (logs_of history) in
    elim (Option-cases
      (follow (suc (length logs)) opts.stop_at logs (last_of full diff).last_lsn)) [
        | inl e ↦ let bad : none ≡ some (err no_full_backup) = rw (e, plan_from) at h in cc
        | inr (c, e) ↦
            let q : some (finish_plan opts logs (full ∷ diff) c) ≡ some (err no_full_backup) =
              rw (e, plan_from) at h in
            finish_plan-ne-no_full_backup opts logs (full ∷ diff) c (cc)
      ]

-- PlanRestore reports that no full backup was found exactly if no set of the history is a full
-- backup that a plan may start from.
pub plan_restore-no_fulls :
    (history : List BackupInfo) (opts : RestorePlanOptions)
    → (plan_restore history opts ≡ some (err no_full_backup))
      ↔ ((b : BackupInfo) → ¬ (FullFits opts history b))
unfolding plan_restore
plan_restore-no_fulls history opts = elim (List-cases (fulls_of opts.stop_at history)) [
  | inl e ↦ (
    λ _ b f. subst (λ xs. Elem b xs) e ((FullFits-fulls_of opts history b).1 f),
    λ _. rw (e, plan_restore) refl,
  )
  | inr (b, bs, e) ↦
      let first : FullFits opts history b =
        (FullFits-fulls_of opts history b).0 (subst (λ xs. Elem b xs) (sym e) (inl refl)) in
      (
        λ q. absurd (
            plan_from-ne-no_full_backup opts history (max_newest b bs) (rw (e, plan_restore) at q)),
        λ never. absurd (never b first),
      )
]
