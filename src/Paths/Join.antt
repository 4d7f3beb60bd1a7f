-- ===== src/Paths/Join.antt =====
-- A path is its directory joined with its base.
use gosmo.Base.{
  ℕ, ◌≡◌, refl, true, false, none, some, [], ◌∷◌, ◌++◌, append_assoc, Bytes, All, Bool-cases, inl,
  inr, ◌⊎◌,
}
use gosmo.Paths.{
  is_separator, last_separator, server_path_base, is_root, server_path_dir, server_path_separator,
  ends_in_separator, join_server_path,
}

abbrev pub IsName : Bytes → Type 0
IsName = All (λ c. is_separator c ≡ false)

last_separator-IsName : (b : Bytes) → IsName b → last_separator b ≡ none
last_separator-IsName [] h = unfold last_separator in refl
last_separator-IsName (c ∷ b) h =
    let rest = last_separator-IsName b h.1 in last_separator_none c b rest h.0
  where
    last_separator_none :
        (c : ℕ) (b : Bytes)
        → last_separator b ≡ none
        → is_separator c ≡ false
        → last_separator (c ∷ b) ≡ none
    last_separator_none c b r h = unfold last_separator in rw (r, h, last_separator) refl

last_separator_found :
    (d b : Bytes) (c : ℕ)
    → is_separator c ≡ true
    → IsName b
    → last_separator (d ++ c ∷ b) ≡ some (record { front = d; separator = c; base = b })
unfolding last_separator
last_separator_found [] b c s n = rw (last_separator-IsName b n, s, last_separator) refl
last_separator_found (x ∷ d) b c s n = rw (last_separator_found d b c s n, last_separator) refl

ends_in_separator_snoc :
    (d : Bytes) (c : ℕ) → is_separator c ≡ true → ends_in_separator (d ++ c ∷ []) ≡ true
unfolding ends_in_separator
ends_in_separator_snoc [] c h = h
ends_in_separator_snoc (x ∷ []) c h = h
ends_in_separator_snoc (x ∷ y ∷ d) c h = ends_in_separator_snoc (y ∷ d) c h

join_server_path_kept : (d f : Bytes) → ends_in_separator d ≡ true → join_server_path d f ≡ d ++ f
unfolding join_server_path
join_server_path_kept [] f h = refl
join_server_path_kept (c ∷ d) f h = rw h refl

join_server_path_added :
    (d f : Bytes)
    → is_root d ≡ false
    → ends_in_separator d ≡ false
    → join_server_path d f ≡ d ++ (server_path_separator d ++ f)
unfolding join_server_path is_root
join_server_path_added [] f r h = absurd (cc (r))
join_server_path_added (c ∷ d) f r h = rw h refl

-- A path of a directory, a separator and a name is its directory joined with its base, if the
-- directory is a root, or if it ends in no separator and the separator is the one that it is joined
-- by.
pub join_server_path-server_path_dir :
    (d b : Bytes) (c : ℕ)
    → is_separator c ≡ true
    → IsName b
    → (is_root d ≡ true) ⊎ ((server_path_separator d ≡ c ∷ []) × (ends_in_separator d ≡ false))
    → (server_path_base (d ++ c ∷ b) ≡ b)
      × (join_server_path (server_path_dir (d ++ c ∷ b)) (server_path_base (d ++ c ∷ b))
          ≡ d ++ c ∷ b)
join_server_path-server_path_dir d b c s n h =
    let found = last_separator_found d b c s n in
    let base : server_path_base (d ++ c ∷ b) ≡ b =
      unfold server_path_base in rw (found, server_path_base) refl in
    (
      base,
      elim (Bool-cases (is_root d)) [
        | inl r ↦
            let dir : server_path_dir (d ++ c ∷ b) ≡ d ++ c ∷ [] =
              unfold server_path_dir in rw (found, r, server_path_dir) refl in
            rw (base, dir, join_server_path_kept (d ++ c ∷ []) b (ends_in_separator_snoc d c s))
              (append_assoc d (c ∷ []) b)
        | inr r ↦
            let dir : server_path_dir (d ++ c ∷ b) ≡ d =
              unfold server_path_dir in rw (found, r, server_path_dir) refl in
            elim h [
              | inl q ↦ absurd (cc (q, r))
              | inr q ↦ rw (base, dir, join_server_path_added d b r q.1, q.0) refl
            ]
      ],
    )
