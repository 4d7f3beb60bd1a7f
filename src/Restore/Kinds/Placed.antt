-- ===== src/Restore/Kinds/Placed.antt =====
-- How the sets of a plan are restored.
use gosmo.Base.{
  ◌⊎◌, ◌≡◌, refl, ap, ◌∙◌, true, false, some, List, [], ◌∷◌, ◌++◌, ok, inl, inr, subst,
}
use gosmo.Restore.Plan.{
  differential, log, BackupInfo, RestorePlanOptions, RestorePlan, plan_restore,
}
use gosmo.Restore.Plan.Sound.{Elem}
use gosmo.Restore.Plan.Meaning.{IsDiffChoice, plan_restore-IsPlan}
use gosmo.Restore.Kinds.{
  backup_action_log, backup_action_database, restore_verb, places_files, is_differential,
}

-- The set places no files; it is a log and restored with RESTORE LOG, or it is a differential and
-- restored with RESTORE DATABASE.
abbrev pub FollowsFull : BackupInfo → Type 0
FollowsFull b =
    (places_files b.set_type ≡ false)
    × (((b.set_type ≡ log)
          × (is_differential b.set_type ≡ false)
          × (restore_verb b.set_type ≡ backup_action_log))
        ⊎ ((b.set_type ≡ differential)
            × (is_differential b.set_type ≡ true)
            × (restore_verb b.set_type ≡ backup_action_database)))

Elem-append : (x : BackupInfo) (xs ys : List BackupInfo) → Elem x (xs ++ ys) → Elem x xs ⊎ Elem x ys
Elem-append x [] ys h = inr h
Elem-append x (z ∷ xs) ys h = elim h [
  | inl e ↦ inl (inl e)
  | inr t ↦ elim (Elem-append x xs ys t) [ inl a ↦ inl (inr a) | inr b ↦ inr b ]
]

IsDiffChoice-kind :
    (opts : RestorePlanOptions) (history : List BackupInfo) (full : BackupInfo)
    (ds : List BackupInfo)
    → IsDiffChoice opts history full ds
    → (b : BackupInfo) → Elem b ds
    → b.set_type ≡ differential
IsDiffChoice-kind opts history full [] c b e = absurd e
IsDiffChoice-kind opts history full (d ∷ ds) c b e = elim e [
  | inl q ↦ ap (λ x. x.set_type) q ∙ c.1.2
  | inr m ↦ absurd (subst (λ xs. Elem b xs) c.0 m)
]

-- The first set of a plan that PlanRestore returns is restored with RESTORE DATABASE and places the
-- database's files; every later one is a log and restored with RESTORE LOG, or a differential and
-- restored with RESTORE DATABASE, and places none.
pub plan_restore-places_files :
    (history : List BackupInfo) (opts : RestorePlanOptions) (p : RestorePlan)
    → plan_restore history opts ≡ some (ok p)
    → (full : BackupInfo) × (rest : List BackupInfo) × (p.sets ≡ full ∷ rest)
      × (places_files full.set_type ≡ true)
      × (restore_verb full.set_type ≡ backup_action_database)
      × ((b : BackupInfo) → Elem b rest → FollowsFull b)
unfolding places_files restore_verb is_differential
plan_restore-places_files history opts p h =
    let plan = plan_restore-IsPlan history opts p h in
    let logs : (b : BackupInfo) → Elem b plan.logs → FollowsFull b =
      λ b e. let q = (plan.logs_usable b e).2 in rw q (refl, inl (refl, refl, refl)) in
    let diffs : (b : BackupInfo) → Elem b plan.diff → FollowsFull b = λ b e.
      let q = IsDiffChoice-kind opts history plan.full plan.diff plan.diff_chosen b e in
      rw q (refl, inr (refl, refl, refl)) in
    let q = plan.full_usable.2 in
    (
      plan.full,
      plan.diff ++ plan.logs,
      plan.in_order,
      rw q refl,
      rw q refl,
      λ b e. elim (Elem-append b plan.diff plan.logs e) [ inl d ↦ diffs b d | inr l ↦ logs b l ],
    )
