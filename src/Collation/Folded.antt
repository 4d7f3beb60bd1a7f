-- ===== src/Collation/Folded.antt =====
-- When any two names are the same: by the runes that fold together.
use gosmo.Base.Utf8.{runes, text_of_runes}
use gosmo.Base.Utf8.Injective.{text_of_runes_inj}
use gosmo.Base.{
  ℕ, ◌≡◌, refl, sym, ap, ◌∙◌, Bool, true, false, not, List, [], ◌∷◌, map, Bytes, contains_func, All,
  Lacks, ◌↔◌,
}
use gosmo.Collation.{collation_ignores_case, fold_key_rune, name_key, same_name}
use gosmo.Collation.Keys.{
  join_tokens, tells_case_apart, same_keys, name_key-telling, collation_ignores_case-join_tokens,
  head_or_zero, tail_or_nil,
}
use gosmo.Collation.Orbits.{IsInOrbit, IsSimpleFold, fold_key_rune-IsInOrbit}

-- As many runes, each in the orbit of the other's.
abbrev pub AllInOrbit : (ℕ → ℕ) → List ℕ → List ℕ → Type 0
AllInOrbit simple_fold [] [] = Unit
AllInOrbit simple_fold [] (q ∷ qs) = ⊥
AllInOrbit simple_fold (r ∷ rs) [] = ⊥
AllInOrbit simple_fold (r ∷ rs) (q ∷ qs) = IsInOrbit simple_fold r q × AllInOrbit simple_fold rs qs

abbrev pub AreOneName : (ℕ → ℕ) → Bool → Bytes → Bytes → Type 0
AreOneName simple_fold true a b = a ≡ b
AreOneName simple_fold false a b = AllInOrbit simple_fold (runes a) (runes b)

module _ (simple_fold : ℕ → ℕ) (law : IsSimpleFold simple_fold) where
  folded_alike :
      (rs qs : List ℕ)
      → map (fold_key_rune simple_fold) rs ≡ map (fold_key_rune simple_fold) qs
      → AllInOrbit simple_fold rs qs
  folded_alike [] [] h = tt
  folded_alike [] (q ∷ qs) h = absurd (cc h)
  folded_alike (r ∷ rs) [] h = absurd (cc h)
  folded_alike (r ∷ rs) (q ∷ qs) h = (
    (fold_key_rune-IsInOrbit simple_fold r q law).0 (ap head_or_zero h),
    folded_alike rs qs (ap tail_or_nil h),
  )

  alike_folded :
      (rs qs : List ℕ)
      → AllInOrbit simple_fold rs qs
      → map (fold_key_rune simple_fold) rs ≡ map (fold_key_rune simple_fold) qs
  alike_folded [] [] h = refl
  alike_folded [] (q ∷ qs) h = absurd h
  alike_folded (r ∷ rs) [] h = absurd h
  alike_folded (r ∷ rs) (q ∷ qs) h =
      cc ((fold_key_rune-IsInOrbit simple_fold r q law).1 h.0, alike_folded rs qs h.1)

  name_key-runes :
      (collation s : Bytes)
      → collation_ignores_case collation ≡ true
      → name_key simple_fold collation s ≡ text_of_runes (map (fold_key_rune simple_fold) (runes s))
  unfolding name_key
  name_key-runes collation s e = rw (e, name_key) refl

  same_name-AreOneName_if :
      (collation a b : Bytes) (apart : Bool)
      → collation_ignores_case collation ≡ not apart
      → (same_name simple_fold collation a b ≡ true) ↔ AreOneName simple_fold apart a b
  same_name-AreOneName_if collation a b true e =
      let same = same_keys simple_fold collation a b in
      let key_a = name_key-telling simple_fold collation a e in
      let key_b = name_key-telling simple_fold collation b e in
      (λ h. sym key_a ∙ same.0 h ∙ key_b, λ h. same.1 (key_a ∙ h ∙ sym key_b))
  same_name-AreOneName_if collation a b false e =
      let same = same_keys simple_fold collation a b in
      let key_a = name_key-runes collation a e in
      let key_b = name_key-runes collation b e in
      (
        λ h.
            folded_alike (runes a) (runes b) (text_of_runes_inj _ _ (sym key_a ∙ same.0 h ∙ key_b)),
        λ h. same.1 (key_a ∙ ap text_of_runes (alike_folded (runes a) (runes b) h) ∙ sym key_b),
      )

-- Two names are the same exactly if they are equal, where a part of the collation's name between
-- underscores is CS, BIN or BIN2 in any case, and where none is, exactly if they have as many runes
-- and each folds together with that of the other name, which is what strings.EqualFold asks; for
-- unicode.SimpleFold as it is documented, which goes round orbits of at most four runes, so that the
-- loop of foldKeyRune has enough fuel.
pub same_name-AreOneName :
    (simple_fold : ℕ → ℕ) (t : Bytes) (ts : List Bytes) (a b : Bytes)
    → IsSimpleFold simple_fold
    → All (Lacks b'_') (t ∷ ts)
    → (same_name simple_fold (join_tokens t ts) a b ≡ true)
      ↔ AreOneName simple_fold (contains_func tells_case_apart (t ∷ ts)) a b
same_name-AreOneName simple_fold t ts a b law parts =
    same_name-AreOneName_if simple_fold law (join_tokens t ts) a b
      (contains_func tells_case_apart (t ∷ ts)) (collation_ignores_case-join_tokens t ts parts)
