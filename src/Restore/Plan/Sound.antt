-- ===== src/Restore/Plan/Sound.antt =====
-- What a plan holds: its full backup, its differential and its unbroken chain of logs.
use gosmo.Base.{
  ℕ, zero, suc, ◌≡◌, refl, Bool, true, false, Option, none, some, List, [], ◌∷◌, Bytes, Bool-cases,
  Option-cases, inl, inr, ◌⊎◌,
}
use gosmo.Restore.Plan.{
  Time, BackupInfo, is_empty, is_gt, continues, find_next, reaches, follow, add_log, Chain,
  sort_logs, insert_log, filter, log_order,
}
use gosmo.Restore.Plan.Ends.{find_next-continues}

-- x is an element
abbrev pub Elem : {A : Type 0} → A → List A → Type 0
Elem x [] = ⊥
Elem x (y ∷ ys) = (x ≡ y) ⊎ Elem x ys

pub Elem-filter :
    {A : Type 0} (p : A → Bool) (x : A) (xs : List A)
    → Elem x (filter p xs)
    → Elem x xs × (p x ≡ true)
Elem-filter p x [] h = absurd h
Elem-filter p x (y ∷ ys) h = elim (Bool-cases (p y)) [
  | inl e ↦ elim (let h' : Elem x (y ∷ filter p ys) = rw (e, filter) at h in h') [
    | inl q ↦ (inl q, rw q e)
    | inr r ↦ let ih = Elem-filter p x ys r in (inr ih.0, ih.1)
  ]
  | inr e ↦ let ih = Elem-filter p x ys (rw (e, filter) at h) in (inr ih.0, ih.1)
]

pub filter-Elem :
    {A : Type 0} (p : A → Bool) (x : A) (xs : List A)
    → Elem x xs
    → p x ≡ true
    → Elem x (filter p xs)
filter-Elem p x [] h e = absurd h
filter-Elem p x (y ∷ ys) (inl q) e = let t : p y ≡ true = rw q at e in rw (t, filter) (inl q)
filter-Elem p x (y ∷ ys) (inr r) e = elim (Bool-cases (p y)) [
  | inl t ↦ rw (t, filter) (inr (filter-Elem p x ys r e))
  | inr t ↦ rw (t, filter) (filter-Elem p x ys r e)
]

Elem-insert_log :
    (x l : BackupInfo) (ls : List BackupInfo) → Elem x (insert_log l ls) → Elem x (l ∷ ls)
unfolding insert_log
Elem-insert_log x l [] h = h
Elem-insert_log x l (m ∷ ms) h = elim (Bool-cases (is_gt (log_order l m))) [
  | inl e ↦ elim (let h' : Elem x (m ∷ insert_log l ms) = rw (e, insert_log) at h in h') [
    | inl q ↦ inr (inl q)
    | inr r ↦ elim (Elem-insert_log x l ms r) [ inl q ↦ inl q | inr s ↦ inr (inr s) ]
  ]
  | inr e ↦ rw (e, insert_log) at h
]

pub Elem-sort_logs : (x : BackupInfo) (ls : List BackupInfo) → Elem x (sort_logs ls) → Elem x ls
unfolding sort_logs
Elem-sort_logs x [] h = h
Elem-sort_logs x (l ∷ ls) h = elim (Elem-insert_log x l (sort_logs ls) h) [
  | inl q ↦ inl q
  | inr r ↦ inr (Elem-sort_logs x ls r)
]

insert_log-Elem :
    (x l : BackupInfo) (ls : List BackupInfo) → Elem x (l ∷ ls) → Elem x (insert_log l ls)
unfolding insert_log
insert_log-Elem x l [] h = h
insert_log-Elem x l (m ∷ ms) h = elim (Bool-cases (is_gt (log_order l m))) [
  | inl e ↦
      rw (e, insert_log)
        (elim h [
          | inl q ↦ inr (insert_log-Elem x l ms (inl q))
          | inr (inl q) ↦ inl q
          | inr (inr r) ↦ inr (insert_log-Elem x l ms (inr r))
        ])
  | inr e ↦ rw (e, insert_log) h
]

pub sort_logs-Elem : (x : BackupInfo) (ls : List BackupInfo) → Elem x ls → Elem x (sort_logs ls)
unfolding sort_logs
sort_logs-Elem x [] h = h
sort_logs-Elem x (l ∷ ls) (inl q) = insert_log-Elem x l (sort_logs ls) (inl q)
sort_logs-Elem x (l ∷ ls) (inr r) = insert_log-Elem x l (sort_logs ls) (inr (sort_logs-Elem x ls r))

find_next-Elem :
    (end : Bytes) (ls : List BackupInfo) (l : BackupInfo) → find_next end ls ≡ some l → Elem l ls
unfolding find_next
find_next-Elem end [] l h = cc
find_next-Elem end (m ∷ ls) l h = elim (Bool-cases (continues end m)) [
  | inl e ↦ let first : some m ≡ some l = rw (e, find_next) at h in inl (cc)
  | inr e ↦ inr (find_next-Elem end ls l (rw (e, find_next) at h))
]

-- Each log of a chain holds the LSN where the one before it ended, and goes past it.
abbrev pub Continued : Bytes → List BackupInfo → Type 0
Continued end [] = Unit
Continued end (l ∷ ls) = (continues end l ≡ true) × Continued l.last_lsn ls

-- The last log finished after the stop, and none before it did.
abbrev pub ReachedLast : Option Time → List BackupInfo → Type 0
ReachedLast stop [] = ⊥
ReachedLast stop (l ∷ []) = reaches stop l ≡ true
ReachedLast stop (l ∷ m ∷ ls) = (reaches stop l ≡ false) × ReachedLast stop (m ∷ ls)

abbrev pub end_of : Bytes → List BackupInfo → Bytes
end_of end [] = end
end_of end (l ∷ ls) = end_of l.last_lsn ls

pub record Follows (stop : Option Time) (logs : List BackupInfo) (start : Bytes) (c : Chain)
    : Type 0 where
  pub unbroken : Continued start c.appended
  pub taken : (x : BackupInfo) → Elem x c.appended → Elem x logs
  pub ended : c.end ≡ end_of start c.appended
  pub on_reached : c.reached ≡ true → ReachedLast stop c.appended
  pub on_short : c.reached ≡ false → (is_empty c.end ≡ true) ⊎ (find_next c.end logs ≡ none)

Follows-stop :
    (stop : Option Time) (logs : List BackupInfo) (end : Bytes)
    → (is_empty end ≡ true) ⊎ (find_next end logs ≡ none)
    → Follows stop logs end (record { appended = []; end = end; reached = false })
Follows-stop stop logs end h = record {
  unbroken = tt;
  taken = λ x e. absurd e;
  ended = refl;
  on_reached = λ e. cc;
  on_short = λ _. h;
}

Follows-last :
    (stop : Option Time) (logs : List BackupInfo) (end : Bytes) (l : BackupInfo)
    → find_next end logs ≡ some l
    → reaches stop l ≡ true
    → Follows stop logs end (record { appended = l ∷ []; end = l.last_lsn; reached = true })
Follows-last stop logs end l e r = record {
  unbroken = (find_next-continues end logs l e, tt);
  taken = λ x m. elim m [ inl q ↦ rw q (find_next-Elem end logs l e) | inr n ↦ absurd n ];
  ended = refl;
  on_reached = λ _. r;
  on_short = λ e. cc;
}

ReachedLast-add :
    (stop : Option Time) (l : BackupInfo) (ls : List BackupInfo)
    → reaches stop l ≡ false
    → ReachedLast stop ls
    → ReachedLast stop (l ∷ ls)
ReachedLast-add stop l [] r h = absurd h
ReachedLast-add stop l (m ∷ ls) r h = (r, h)

Follows-add :
    (stop : Option Time) (logs : List BackupInfo) (end : Bytes) (l : BackupInfo) (c : Chain)
    → find_next end logs ≡ some l
    → reaches stop l ≡ false
    → Follows stop logs l.last_lsn c
    → Follows stop logs end (add_log l c)
unfolding add_log
Follows-add stop logs end l c e r f = record {
  unbroken = (find_next-continues end logs l e, f.unbroken);
  taken = λ x m. elim m [ inl q ↦ rw q (find_next-Elem end logs l e) | inr n ↦ f.taken x n ];
  ended = f.ended;
  on_reached = λ q. ReachedLast-add stop l c.appended r (f.on_reached q);
  on_short = f.on_short;
}

settle :
    {stop : Option Time} {logs : List BackupInfo} {end : Bytes} {c d : Chain}
    → Follows stop logs end c
    → some c ≡ some d
    → Follows stop logs end d
settle {c = c} {d = d} f h = let same : c ≡ d = cc in rw (← same) f

pub follow-Follows :
    (f : ℕ) (stop : Option Time) (logs : List BackupInfo) (end : Bytes) (c : Chain)
    → follow f stop logs end ≡ some c
    → Follows stop logs end c
unfolding follow
follow-Follows zero stop logs end c h = cc
follow-Follows (suc f) stop logs end c h = elim (Bool-cases (is_empty end)) [
  | inl empty ↦ settle (Follows-stop stop logs end (inl empty)) (rw (empty, follow) at h)
  | inr more ↦ elim (Option-cases (find_next end logs)) [
    | inl e ↦ settle (Follows-stop stop logs end (inr e)) (rw (more, e, follow) at h)
    | inr (l, e) ↦ elim (Bool-cases (reaches stop l)) [
      | inl r ↦ settle (Follows-last stop logs end l e r) (rw (more, e, r, follow) at h)
      | inr r ↦ elim (Option-cases (follow f stop logs l.last_lsn)) [
        | inl none_left ↦ let bad : none ≡ some c = rw (more, e, r, none_left, follow) at h in cc
        | inr (d, ed) ↦
            settle (Follows-add stop logs end l d e r (follow-Follows f stop logs l.last_lsn d ed))
              (rw (more, e, r, ed, follow) at h)
      ]
    ]
  ]
]
