-- ===== src/Restore/Plan/Ends.antt =====
-- The chain loop ends: each log that it takes moves it past at least that log.
use Prim.Native.Nat.{Ordering}
use gosmo.Base.{
  ℕ, zero, suc, ◌≤◌, ◌<◌, ◌≡◌, ◌≢◌, refl, true, false, Option, none, some, List, [], ◌∷◌, Result,
  Bytes, arith, Bool-cases, Option-cases, List-cases, inl, inr, length,
}
use gosmo.Restore.Lsn.{compare_text, trim_zeros, compare_lsn}
use gosmo.Restore.Plan.{
  Time, BackupInfo, RestorePlanOptions, RestorePlan, PlanError, is_lt, continues, find_next, follow,
  fulls_of, diffs_of, logs_of, sort_logs, newest_of, filter, against, last_of, plan_from,
  plan_restore, max_newest,
}

compare_text_lt_trans :
    (s t u : Bytes)
    → compare_text s t ≡ Ordering.lt
    → compare_text t u ≡ Ordering.lt
    → compare_text s u ≡ Ordering.lt
unfolding compare_text
compare_text_lt_trans [] [] u h k = cc
compare_text_lt_trans [] (d ∷ t) [] h k = cc
compare_text_lt_trans [] (d ∷ t) (e ∷ u) h k = refl
compare_text_lt_trans (c ∷ s) [] u h k = cc
compare_text_lt_trans (c ∷ s) (d ∷ t) [] h k = cc
compare_text_lt_trans (c ∷ s) (d ∷ t) (e ∷ u) h k = ground (arith, compare_text_lt_trans s t u)

compare_text_irrefl : (s : Bytes) → compare_text s s ≡ Ordering.eq
unfolding compare_text
compare_text_irrefl [] = refl
compare_text_irrefl (c ∷ s) = ground (arith, compare_text_irrefl s)

pub compare_lsn_refl : (a : Bytes) → compare_lsn a a ≡ Ordering.eq
unfolding compare_lsn
compare_lsn_refl a = ground (arith, compare_text_irrefl (trim_zeros a))

pub compare_lsn_lt_trans :
    (a b c : Bytes)
    → compare_lsn a b ≡ Ordering.lt
    → compare_lsn b c ≡ Ordering.lt
    → compare_lsn a c ≡ Ordering.lt
unfolding compare_lsn
compare_lsn_lt_trans a b c h k =
    ground (arith, compare_text_lt_trans (trim_zeros a) (trim_zeros b) (trim_zeros c))

-- How many logs go past an LSN.
later : Bytes → List BackupInfo → ℕ
later end [] = 0
later end (l ∷ ls) = elim (is_lt (compare_lsn end l.last_lsn)) [
  | true ↦ suc (later end ls)
  | false ↦ later end ls
]

later_mono :
    (a b : Bytes) (ls : List BackupInfo) → compare_lsn a b ≡ Ordering.lt → later b ls ≤ later a ls
unfolding later
later_mono a b [] h = omega arith
later_mono a b (l ∷ ls) h =
    ground (arith, later_mono a b ls h, compare_lsn_lt_trans a b l.last_lsn h)

continues_lt :
    (end : Bytes) (l : BackupInfo)
    → continues end l ≡ true
    → compare_lsn end l.last_lsn ≡ Ordering.lt
unfolding continues
continues_lt end l h = ground arith

pub find_next-continues :
    (end : Bytes) (ls : List BackupInfo) (l : BackupInfo)
    → find_next end ls ≡ some l
    → continues end l ≡ true
unfolding find_next
find_next-continues end [] l h = cc
find_next-continues end (m ∷ ls) l h = elim (Bool-cases (continues end m)) [
  | inl e ↦
      let first : some m ≡ some l = rw (e, find_next) at h in let same : m ≡ l = cc in rw (← same) e
  | inr e ↦ find_next-continues end ls l (rw (e, find_next) at h)
]

later-find_next :
    (end : Bytes) (ls : List BackupInfo) (l : BackupInfo)
    → find_next end ls ≡ some l
    → later l.last_lsn ls < later end ls
unfolding later find_next
later-find_next end [] l h = cc
later-find_next end (m ∷ ls) l h = elim (Bool-cases (continues end m)) [
  | inl e ↦
      let first : some m ≡ some l = rw (e, find_next) at h in
      let same : m ≡ l = cc in
      let up = continues_lt end m e in
      rw (← same) (ground (arith, compare_lsn_refl m.last_lsn, later_mono end m.last_lsn ls up, up))
  | inr e ↦
      let h' : find_next end ls ≡ some l = rw (e, find_next) at h in
      let up = continues_lt end l (find_next-continues end ls l h') in
      ground (arith, later-find_next end ls l h', compare_lsn_lt_trans end l.last_lsn m.last_lsn up)
]

later-le-length : (end : Bytes) (ls : List BackupInfo) → later end ls ≤ length ls
unfolding later
later-le-length end [] = omega arith
later-le-length end (l ∷ ls) = ground (arith, later-le-length end ls)

-- The loop ends if its fuel is more than the logs past the LSN where it stands.
follow-ne-none :
    (f : ℕ) (stop : Option Time) (logs : List BackupInfo) (end : Bytes)
    → later end logs < f
    → follow f stop logs end ≢ none
unfolding follow
follow-ne-none zero stop logs end h = absurd (omega arith)
follow-ne-none (suc f) stop logs end h = elim (Option-cases (find_next end logs)) [
  | inl e ↦ ground (arith, e)
  | inr (l, e) ↦
      let down = later-find_next end logs l e in
      ground (arith, e, follow-ne-none f stop logs l.last_lsn (omega (arith, down)))
]

plan_from-ne-none :
    (opts : RestorePlanOptions) (history : List BackupInfo) (full : BackupInfo)
    → plan_from opts history full ≢ none
unfolding plan_from
plan_from-ne-none opts history full =
    let logs = sort_logs (logs_of history) in
    let base = last_of full (newest_of (filter (against full) (diffs_of opts.stop_at history))) in
    ground (
      arith,
      follow-ne-none (suc (length logs)) opts.stop_at logs base.last_lsn
          (omega (arith, later-le-length base.last_lsn logs)),
    )

-- PlanRestore ends with a plan or an error on every history and for all options.
pub plan_restore_total :
    (history : List BackupInfo) (opts : RestorePlanOptions)
    → (r : Result PlanError RestorePlan) × (plan_restore history opts ≡ some r)
unfolding plan_restore
plan_restore_total history opts = elim (Option-cases (plan_restore history opts)) [
  | inr found ↦ found
  | inl e ↦ absurd (never e)
]
  where
    never : plan_restore history opts ≢ none
    never = elim (List-cases (fulls_of opts.stop_at history)) [
      | inl e ↦ rw (e, plan_restore) (λ x. cc)
      | inr (b, bs, e) ↦ rw (e, plan_restore) (plan_from-ne-none opts history (max_newest b bs))
    ]
