-- ===== src/Restore/Plan/Newest.antt =====
-- slices.MaxFunc with `newest`: no set is newer than the one that it picks.
use gosmo.Base.{
  subst, if◌then◌else◌, ◌≡◌, refl, sym, ap, Bool, true, false, List, [], ◌∷◌, arith, Bool-cases,
  inl, inr,
}
use gosmo.Restore.Plan.{BackupInfo, is_gt, newest, max_newest}
use gosmo.Restore.Plan.Sound.{Elem}

-- a is not newer than b
abbrev pub NotNewer : BackupInfo → BackupInfo → Type 0
NotNewer a b = is_gt (newest a b) ≡ false

NotNewer-refl : (a : BackupInfo) → NotNewer a a
unfolding newest
NotNewer-refl a = ground arith

NotNewer-trans : (a b c : BackupInfo) → NotNewer a b → NotNewer b c → NotNewer a c
unfolding newest
NotNewer-trans a b c h k = ground arith

NotNewer-of_newer : (a b : BackupInfo) → is_gt (newest a b) ≡ true → NotNewer b a
unfolding newest
NotNewer-of_newer a b h = ground arith

-- The newest is one of the sets, and none of them is newer.
abbrev pub IsNewest : BackupInfo → List BackupInfo → Type 0
IsNewest b xs = Elem b xs × ((x : BackupInfo) → Elem x xs → NotNewer x b)

max_newest_step :
    (m x : BackupInfo) (xs : List BackupInfo) (b : Bool)
    → is_gt (newest x m) ≡ b
    → max_newest m (x ∷ xs) ≡ max_newest (if b then x else m) xs
unfolding max_newest
max_newest_step m x xs b e = ap (λ c. max_newest (if c then x else m) xs) e

pub max_newest-IsNewest :
    (m : BackupInfo) (xs : List BackupInfo) → IsNewest (max_newest m xs) (m ∷ xs)
max_newest-IsNewest m [] = (
  inl (unfold max_newest in refl),
  λ x e. elim e [ inl q ↦ unfold max_newest in rw q (NotNewer-refl m) | inr n ↦ absurd n ],
)
max_newest-IsNewest m (x ∷ xs) = elim (Bool-cases (is_gt (newest x m))) [
  | inl e ↦
      let (member, above) = max_newest-IsNewest x xs in
      subst (λ b. IsNewest b (m ∷ x ∷ xs)) (sym (max_newest_step m x xs true e))
        (
          inr member,
          λ y h. elim h [
            | inl q ↦ rw q (
                NotNewer-trans m x (max_newest x xs) (NotNewer-of_newer x m e) (above x (inl refl)))
            | inr r ↦ above y r
          ],
        )
  | inr e ↦
      let (member, above) = max_newest-IsNewest m xs in
      subst (λ b. IsNewest b (m ∷ x ∷ xs)) (sym (max_newest_step m x xs false e))
        (
          elim member [ inl q ↦ inl q | inr r ↦ inr (inr r) ],
          λ y h. elim h [
            | inl q ↦ above y (inl q)
            | inr (inl q) ↦ rw q (NotNewer-trans x m (max_newest m xs) e (above m (inl refl)))
            | inr (inr r) ↦ above y (inr r)
          ],
        )
]
