-- ===== src/Collation/Orbits.antt =====
-- foldKeyRune gives two runes one key exactly if they fold together.
use gosmo.Base.{
  ℕ, zero, suc, ◌+◌, ◌-◌, ◌<◌, ◌≤◌, ◌≡◌, ◌≢◌, refl, sym, ap, ◌∙◌, true, false, ◌&&◌, arith, ltb,
  leb, ◌==◌, if◌then◌else◌, Bool-cases, inl, inr, ◌↔◌, subst,
}
use gosmo.Collation.{least_of_orbit, orbit_fuel, fold_key_rune}

module _ (simple_fold : ℕ → ℕ) where
  -- The rune that is reached from r in k steps.
  abbrev pub after_steps : ℕ → ℕ → ℕ
  after_steps zero r = r
  after_steps (suc k) r = simple_fold (after_steps k r)

  abbrev pub IsInOrbit : ℕ → ℕ → Type 0
  IsInOrbit r s = (k : ℕ) × (after_steps k r ≡ s)

  abbrev pub IsLeastOf : ℕ → ℕ → Type 0
  IsLeastOf r least = IsInOrbit r least × ((k : ℕ) → least ≤ after_steps k r)

  -- unicode.SimpleFold: it goes round the orbit of a rune, no orbit has more runes than the fuel, and of
  -- the orbit of a rune of ASCII the least is its upper case.
  pub record IsSimpleFold : Type 0 where
    pub closes : (r : ℕ) → (n : ℕ) × (1 ≤ n) × (n ≤ orbit_fuel) × (after_steps n r ≡ r)
    pub ascii : (r : ℕ) → r < 128 → IsLeastOf r (if leb b'a' r && leb r b'z' then r - 32 else r)

  after_steps_add : (j k r : ℕ) → after_steps (j + k) r ≡ after_steps j (after_steps k r)
  after_steps_add zero k r = let e : 0 + k ≡ k = omega arith in ap (λ n. after_steps n r) e
  after_steps_add (suc j) k r =
      let e : suc j + k ≡ suc (j + k) = omega arith in
      ap (λ n. after_steps n r) e ∙ ap simple_fold (after_steps_add j k r)

  -- A rune that is least of the orbit up to where it closes.
  abbrev IsLeastBelow : ℕ → ℕ → Type 0
  IsLeastBelow r least =
      IsInOrbit r least
      × ((m : ℕ) × (1 ≤ m) × (after_steps m r ≡ r) × ((i : ℕ) → i < m → least ≤ after_steps i r))

  least_of_orbit_stop :
      (fuel r least f : ℕ)
      → (f == r) ≡ true
      → least_of_orbit simple_fold (suc fuel) r least f ≡ least
  unfolding least_of_orbit
  least_of_orbit_stop fuel r least f e = rw (e, least_of_orbit) refl

  least_of_orbit_next :
      (fuel r least f : ℕ)
      → (f == r) ≡ false
      → least_of_orbit simple_fold (suc fuel) r least f
        ≡ least_of_orbit simple_fold fuel r (if ltb f least then f else least) (simple_fold f)
  unfolding least_of_orbit
  least_of_orbit_next fuel r least f e = rw (e, least_of_orbit) refl

  -- The lesser of the least so far and the rune at j.
  lesser :
      (r j least : ℕ)
      → IsInOrbit r least
      → ((i : ℕ) → i < j → least ≤ after_steps i r)
      → (let next = if ltb (after_steps j r) least then after_steps j r else least in
          IsInOrbit r next × ((i : ℕ) → i < suc j → next ≤ after_steps i r))
  lesser r j least o h = elim (Bool-cases (ltb (after_steps j r) least)) [
    | inl e ↦ rw e (
      (j, refl),
      λ i l. split (after_steps j r) i l (λ k. ground (arith, e, h i k)) (ground arith),
    )
    | inr e ↦ rw e (o, λ i l. split least i l (h i) (ground (arith, e)))
  ]
    where
      split :
          (least i : ℕ)
          → i < suc j
          → (i < j → least ≤ after_steps i r)
          → least ≤ after_steps j r
          → least ≤ after_steps i r
      split least i l below here = elim (Bool-cases (ltb i j)) [
        | inl q ↦ below (ground (arith, q))
        | inr q ↦
            let last : j ≡ i = ground (arith, q, l) in
            subst (λ k. least ≤ after_steps k r) last here
      ]

  least_of_orbit_lem :
      (fuel r least j n : ℕ)
      → IsInOrbit r least
      → ((i : ℕ) → i < j → least ≤ after_steps i r)
      → 1 ≤ j
      → j ≤ n
      → n ≤ j + fuel
      → after_steps n r ≡ r
      → IsLeastBelow r (least_of_orbit simple_fold fuel r least (after_steps j r))
  least_of_orbit_lem zero r least j n o h pos l u e =
      let at_end : n ≡ j = omega (arith, l, u) in
      unfold least_of_orbit in (o, (j, pos, ap (λ k. after_steps k r) (sym at_end) ∙ e, h))
  least_of_orbit_lem (suc fuel) r least j n o h pos l u e =
      elim (Bool-cases (after_steps j r == r)) [
        | inl q ↦
            rw (least_of_orbit_stop fuel r least (after_steps j r) q)
              (o, (j, pos, ground (arith, q), h))
        | inr q ↦
            let (o', h') = lesser r j least o h in
            let apart : after_steps j r ≢ r = λ z. absurd (ground (arith, q, z)) in
            let before : j ≢ n = λ z. apart (ap (λ k. after_steps k r) z ∙ e) in
            rw (least_of_orbit_next fuel r least (after_steps j r) q) (
              least_of_orbit_lem fuel r
                (if ltb (after_steps j r) least then after_steps j r else least) (suc j) n o' h'
                (omega arith) (omega (arith, l, before)) (omega (arith, u)) e)
      ]

  -- Below where the orbit closes, every rune of it is met.
  reached :
      (r m : ℕ)
      → 1 ≤ m
      → after_steps m r ≡ r
      → (k : ℕ) → (i : ℕ) × (i < m) × (after_steps k r ≡ after_steps i r)
  reached r m pos e zero = (0, omega (arith, pos), refl)
  reached r m pos e (suc k) =
      let (i, l, same) = reached r m pos e k in
      elim (Bool-cases (ltb (suc i) m)) [
        | inl q ↦ (suc i, ground (arith, q), ap simple_fold same)
        | inr q ↦
            let last : suc i ≡ m = ground (arith, q, l) in
            (0, omega (arith, pos), ap simple_fold same ∙ ap (λ n. after_steps n r) last ∙ e)
      ]

  least_below : (r least : ℕ) → IsLeastBelow r least → IsLeastOf r least
  least_below r least (o, (m, pos, e, h)) =
      (o, λ k. let (i, l, same) = reached r m pos e k in subst (λ s. least ≤ s) (sym same) (h i l))

  IsInOrbit-sym : IsSimpleFold → (r s : ℕ) → IsInOrbit r s → IsInOrbit s r
  IsInOrbit-sym law r s (k, e) =
      let (m, pos, _, back) = law.closes r in
      let (i, l, same) = reached r m pos back k in
      let whole : (m - i) + i ≡ m = omega (arith, l) in
      (
        m - i,
        ap (after_steps (m - i)) (sym e ∙ same)
            ∙ sym (after_steps_add (m - i) i r)
            ∙ ap (λ n. after_steps n r) whole
            ∙ back,
      )

  IsInOrbit-trans : (r s t : ℕ) → IsInOrbit r s → IsInOrbit s t → IsInOrbit r t
  IsInOrbit-trans r s t (k, e) (j, f) = (j + k, after_steps_add j k r ∙ ap (after_steps j) e ∙ f)

  fold_key_rune-IsLeastOf : IsSimpleFold → (r : ℕ) → IsLeastOf r (fold_key_rune simple_fold r)
  fold_key_rune-IsLeastOf law r = elim (Bool-cases (ltb r 128)) [
    | inl e ↦
        let low : fold_key_rune simple_fold r ≡ (if leb b'a' r && leb r b'z' then r - 32 else r) =
          unfold fold_key_rune in rw (e, fold_key_rune) refl in
        rw low (law.ascii r (ground (arith, e)))
    | inr e ↦
        let high : fold_key_rune simple_fold r
            ≡ least_of_orbit simple_fold orbit_fuel r r (after_steps 1 r) =
          unfold fold_key_rune in rw (e, fold_key_rune) refl in
        let (n, pos, few, back) = law.closes r in
        rw high (
          least_below r _ (
            least_of_orbit_lem orbit_fuel r r 1 n (0, refl)
              (λ i l.
                let z : 0 ≡ i = omega (arith, l) in
                subst (λ k. r ≤ after_steps k r) z (omega arith))
              (omega arith) pos (omega (arith, few)) back))
  ]

  least_unique :
      (r s least other : ℕ) → IsInOrbit s r → IsLeastOf s other → IsInOrbit r least → other ≤ least
  least_unique r s least other o h (k, e) =
      let (j, f) = IsInOrbit-trans s r least o (k, e) in subst (λ x. other ≤ x) f (h.1 j)

  -- Two runes have one key exactly if they fold together, the second being met on the way round from
  -- the first, which is what strings.EqualFold asks; for unicode.SimpleFold as it is documented, with
  -- orbits of at most four runes, where the loop of foldKeyRune has enough fuel.
  pub fold_key_rune-IsInOrbit :
      (r s : ℕ)
      → IsSimpleFold
      → (fold_key_rune simple_fold r ≡ fold_key_rune simple_fold s) ↔ IsInOrbit r s
  fold_key_rune-IsInOrbit r s law =
      let of_r = fold_key_rune-IsLeastOf law r in
      let of_s = fold_key_rune-IsLeastOf law s in
      (
        λ e.
            IsInOrbit-trans r (fold_key_rune simple_fold s) s (subst (λ x. IsInOrbit r x) e of_r.0)
              (IsInOrbit-sym law s (fold_key_rune simple_fold s) of_s.0),
        λ o.
            let below =
              least_unique s r (fold_key_rune simple_fold s) (fold_key_rune simple_fold r) o of_r
                of_s.0 in
            let above =
              least_unique r s (fold_key_rune simple_fold r) (fold_key_rune simple_fold s)
                (IsInOrbit-sym law r s o) of_s of_r.0 in
            omega (arith, below, above),
      )
