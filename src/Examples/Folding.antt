-- ===== src/Examples/Folding.antt =====
-- A part of unicode.SimpleFold: the letters of ASCII, and the three runes of the Greek letter mu.
use gosmo.Base.{
  codes, [], ◌∷◌, str_eq, ℕ, zero, suc, ◌+◌, ◌-◌, ◌<◌, ◌≤◌, ◌≡◌, refl, ◌∙◌, Bool, true, false, ◌&&◌,
  ◌||◌, arith, leb, ◌==◌, if◌then◌else◌, Bool-cases, inl, inr, ◌↔◌, subst,
}
use gosmo.Names.{to_upper}
use gosmo.Collation.{fold_key_rune, same_name}
use gosmo.Collation.Keys.{join_tokens}
use gosmo.Collation.Folded.{AreOneName, same_name-AreOneName}
use gosmo.Collation.Orbits.{after_steps, IsSimpleFold}

abbrev other_case : ℕ → ℕ
other_case r =
    if leb b'A' r && leb r b'Z' then r + 32 else if leb b'a' r && leb r b'z' then r - 32 else r

-- 181 is the micro sign, 924 and 956 are the letter.
abbrev fold : ℕ → ℕ
fold r = if r == 181 then 924 else if r == 924 then 956 else if r == 956 then 181 else other_case r

abbrev upper : ℕ → ℕ
upper r = if leb b'a' r && leb r b'z' then r - 32 else r

abbrev is_mu : ℕ → Bool
is_mu r = r == 181 || r == 924 || r == 956

fold_closes_mu : (r : ℕ) → is_mu r ≡ true → fold (fold (fold r)) ≡ r
fold_closes_mu r e = ground (arith, e)

fold_closes_others : (r : ℕ) → is_mu r ≡ false → fold (fold r) ≡ r
fold_closes_others r e = ground (arith, e)

upper-fold : (r : ℕ) → r < 128 → (fold r < 128) × (upper (fold r) ≡ upper r)
upper-fold r h = (ground (arith, h), ground (arith, h))

upper-after_steps :
    (k r : ℕ) → r < 128 → (after_steps fold k r < 128) × (upper (after_steps fold k r) ≡ upper r)
upper-after_steps zero r h = (h, refl)
upper-after_steps (suc k) r h =
    let (low, same) = upper-after_steps k r h in
    let (next, kept) = upper-fold (after_steps fold k r) low in (next, kept ∙ same)

upper_least : (r : ℕ) → upper r ≤ r
upper_least r = ground arith

fold-IsSimpleFold : IsSimpleFold fold
fold-IsSimpleFold = record {
  closes = λ r. elim (Bool-cases (is_mu r)) [
    | inl e ↦ (3, omega arith, omega arith, fold_closes_mu r e)
    | inr e ↦ (2, omega arith, omega arith, fold_closes_others r e)
  ];
  ascii = λ r h. (
    elim (Bool-cases (leb b'a' r && leb r b'z')) [
      | inl e ↦ (1, ground (arith, e))
      | inr e ↦ (0, ground (arith, e))
    ],
    λ k.
        subst (λ x. x ≤ after_steps fold k r) (upper-after_steps k r h).1
          (upper_least (after_steps fold k r)),
  );
}

-- The micro sign and x, and the capital letter and X, in UTF-8.
same_name-AreOneName_example :
    (same_name fold
        (join_tokens (codes "A") (codes "CI" ∷ []))
        (194 ∷ 181 ∷ 120 ∷ [])
        (206 ∷ 156 ∷ 88 ∷ [])
      ≡ true)
    ↔ AreOneName fold false (194 ∷ 181 ∷ 120 ∷ []) (206 ∷ 156 ∷ 88 ∷ [])
unfolding str_eq to_upper
same_name-AreOneName_example =
    same_name-AreOneName fold (codes "A") (codes "CI" ∷ []) (194 ∷ 181 ∷ 120 ∷ [])
      (206 ∷ 156 ∷ 88 ∷ []) fold-IsSimpleFold
      ((omega arith, tt), ((omega arith, (omega arith, tt)), tt))

one_key_test : (fold_key_rune fold 956 ≡ 181) × (fold_key_rune fold 924 ≡ 181)
unfolding fold_key_rune
one_key_test = (refl, refl)
