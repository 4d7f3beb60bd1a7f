-- ===== src/Names/Split.antt =====
-- SplitName against the text that is built by quoting each part.
use gosmo.Base.{
  List-cases, ==_iff, ℕ, zero, suc, ◌≤◌, ◌<◌, ◌≡◌, ◌≢◌, refl, ap, true, false, not, ◌&&◌, ◌||◌,
  none, some, List, [], ◌∷◌, ◌++◌, Result, ok, err, Bytes, ◌==◌, length, length-append,
  append_assoc, append-nil, arith, ◌>>=◌, Bool-cases, Option-cases, inl, inr,
}
use gosmo.Tsql.Quote.{quote_name, first_is}
use gosmo.Tsql.Quote.RoundTrip.{double, quote_name-double}
use gosmo.Names.{
  is_regular_identifier, is_reserved_keyword, is_letter, is_later, all_later, quote_name_if_needed,
  SplitError, Part, is_space, skip_space, add_front, read_quoted, read_bare, read_part, split_parts,
  check_parts, split_name, is_empty, first_empty, last_empty,
}

-- The parts of a name, each quoted, with dots between them.
pub dotted : List Bytes → Bytes
dotted [] = []
dotted (p ∷ []) = quote_name p
dotted (p ∷ q ∷ ps) = quote_name p ++ (b'.' ∷ dotted (q ∷ ps))

read_quoted_other :
    (q c : ℕ) (s : Bytes) {p : Part}
    → (c == q) ≡ false
    → read_quoted q s ≡ ok p
    → read_quoted q (c ∷ s) ≡ ok (add_front c p)
unfolding read_quoted
read_quoted_other q c [] h e = cc
read_quoted_other q c (d ∷ s) h e = rw (h, read_quoted) (rw e)

read_quoted_pair :
    (q : ℕ) (s : Bytes) {p : Part}
    → read_quoted q s ≡ ok p
    → read_quoted q (q ∷ q ∷ s) ≡ ok (add_front q p)
unfolding read_quoted
read_quoted_pair q s e = ground arith

read_quoted-double :
    (q : ℕ) (v rest : Bytes)
    → first_is q rest ≡ false
    → read_quoted q (double q v ++ (q ∷ rest)) ≡ ok (record { value = v; rest = rest })
unfolding double
read_quoted-double q [] [] h = unfold read_quoted in ground arith
read_quoted-double q [] (c ∷ rest) h = unfold read_quoted in ground arith
read_quoted-double q (c ∷ v) rest h = elim (Bool-cases (c == q)) [
  | inl e ↦
      let c_is : c ≡ q = (==_iff c q).0 e in
      rw (e, double, read_quoted_pair q (double q v ++ (q ∷ rest)) (read_quoted-double q v rest h))
        (unfold add_front in rw c_is)
  | inr e ↦
      rw
        (
          e,
          double,
          read_quoted_other q c (double q v ++ (q ∷ rest)) e (read_quoted-double q v rest h),
        )
        (unfold add_front in refl)
]

-- A dot or the end of the text.
split_round :
    (f : ℕ) (s : Bytes) (p rest : Bytes)
    → read_part (skip_space s) ≡ ok (record { value = p; rest = b'.' ∷ rest })
    → {ps : List Bytes} → split_parts f rest ≡ some (ok ps)
    → split_parts (suc f) s ≡ some (ok (p ∷ ps))
unfolding split_parts
split_round f s p rest e r = rw (e, split_parts) (rw r)

-- A quoted name is read as the name.
read_part-quote_name :
    (name rest : Bytes)
    → first_is b']' rest ≡ false
    → read_part (skip_space (quote_name name ++ rest)) ≡ ok (record { value = name; rest = rest })
unfolding skip_space read_part
read_part-quote_name name rest h =
    rw (quote_name-double name, append_assoc (double b']' name) (b']' ∷ []) rest)
      (read_quoted-double b']' name rest h)

split_parts-last :
    (f : ℕ) (s : Bytes) (p : Bytes)
    → read_part (skip_space s) ≡ ok (record { value = p; rest = [] })
    → split_parts (suc f) s ≡ some (ok (p ∷ []))
unfolding split_parts
split_parts-last f s p e = rw (e, split_parts)

split_parts-dotted :
    (f : ℕ) (p : Bytes) (ps : List Bytes)
    → length ps < f
    → split_parts f (dotted (p ∷ ps)) ≡ some (ok (p ∷ ps))
unfolding dotted
split_parts-dotted zero p ps h = absurd (omega arith)
split_parts-dotted (suc f) p [] h =
    split_parts-last f (quote_name p) p
      (rw (append-nil (quote_name p)) at (read_part-quote_name p [] refl))
split_parts-dotted (suc f) p (q ∷ ps) h =
    split_round f (quote_name p ++ (b'.' ∷ dotted (q ∷ ps))) p (dotted (q ∷ ps))
      (read_part-quote_name p (b'.' ∷ dotted (q ∷ ps)) refl)
      (split_parts-dotted f q ps (omega arith))

length-le-dotted : (p : Bytes) (ps : List Bytes) → length ps ≤ length (dotted (p ∷ ps))
unfolding dotted
length-le-dotted p [] = omega arith
length-le-dotted p (q ∷ ps) =
    omega (arith, length-le-dotted q ps, length-append (quote_name p) (b'.' ∷ dotted (q ∷ ps)))

-- A name of one to four parts, each quoted with QuoteName and joined by dots, is split into those
-- parts again, if the first and the last are not empty.
pub split_name-dotted :
    (ps : List Bytes)
    → length ps ≤ 4
    → first_empty ps ≡ false
    → last_empty ps ≡ false
    → split_name (dotted ps) ≡ some (ok ps)
unfolding split_name check_parts
split_name-dotted [] n h l = cc
split_name-dotted (p ∷ ps) n h l =
    rw
      (
        split_parts-dotted (suc (length (dotted (p ∷ ps)))) p ps
            (omega (arith, length-le-dotted p ps)),
        split_name,
      )
      (ground arith)

check_parts_sound :
    (r : Result SplitError (List Bytes)) (ps : List Bytes)
    → (r >>= check_parts) ≡ ok ps
    → (1 ≤ length ps) × (length ps ≤ 4) × (first_empty ps ≡ false) × (last_empty ps ≡ false)
unfolding check_parts
check_parts_sound (err e) ps h = cc
check_parts_sound (ok []) ps h = cc
check_parts_sound (ok (q ∷ qs)) ps h = ground arith

-- What is read is not longer than what there was.
skip_space-le : (s : Bytes) → length (skip_space s) ≤ length s
unfolding skip_space
skip_space-le [] = omega arith
skip_space-le (c ∷ s) = ground (arith, skip_space-le s)

abbrev RestLe : ℕ → Result SplitError Part → Type 0
RestLe n (ok p) = length p.rest ≤ n
RestLe n (err e) = Unit

RestLe-add_front :
    (n m c : ℕ) (r : Result SplitError Part)
    → n ≤ m
    → RestLe n r
    → RestLe m (r >>= λ p. ok (add_front c p))
unfolding add_front
RestLe-add_front n m c (ok p) le h = omega arith
RestLe-add_front n m c (err e) le h = tt

read_quoted-RestLe : (q : ℕ) (s : Bytes) → RestLe (length s) (read_quoted q s)
unfolding read_quoted
read_quoted-RestLe q [] = tt
read_quoted-RestLe q (c ∷ []) = elim (Bool-cases (c == q)) [
  | inl e ↦ rw (e, read_quoted) (omega arith)
  | inr e ↦ rw (e, read_quoted) tt
]
read_quoted-RestLe q (c ∷ d ∷ s) =
    let one =
      RestLe-add_front (length (d ∷ s)) (length (c ∷ d ∷ s)) c (read_quoted q (d ∷ s)) (omega arith)
        (read_quoted-RestLe q (d ∷ s)) in
    let two =
      RestLe-add_front (length s) (length (c ∷ d ∷ s)) q (read_quoted q s) (omega arith)
        (read_quoted-RestLe q s) in
    elim (Bool-cases (c == q)) [
      | inr e ↦ rw (e, read_quoted) one
      | inl e ↦ elim (Bool-cases (d == q)) [
        | inl e' ↦ rw (e, e', read_quoted) two
        | inr e' ↦ rw (e, e', read_quoted) (omega arith)
      ]
    ]

read_bare-RestLe : (s : Bytes) → RestLe (length s) (read_bare s)
unfolding read_bare
read_bare-RestLe [] = omega arith
read_bare-RestLe (c ∷ s) =
    let one =
      RestLe-add_front (length s) (length (c ∷ s)) c (read_bare s) (omega arith)
        (read_bare-RestLe s) in
    elim (Bool-cases (c == b'.' || is_space c)) [
      | inl e ↦ rw (e, read_bare) (omega arith)
      | inr e ↦ elim (Bool-cases (c == b'[' || c == b']' || c == b'"')) [
        | inl e' ↦ rw (e, e', read_bare) tt
        | inr e' ↦ rw (e, e', read_bare) one
      ]
    ]

RestLe-mono : (n m : ℕ) (r : Result SplitError Part) → n ≤ m → RestLe n r → RestLe m r
RestLe-mono n m (ok p) le h = omega arith
RestLe-mono n m (err e) le h = tt

read_part-RestLe : (s : Bytes) → RestLe (length s) (read_part s)
unfolding read_part
read_part-RestLe [] = read_bare-RestLe []
read_part-RestLe (c ∷ s) = elim (Bool-cases (c == b'[')) [
  | inl e ↦ rw e (RestLe-mono (length s) _ _ (omega arith) (read_quoted-RestLe b']' s))
  | inr e ↦ elim (Bool-cases (c == b'"')) [
    | inl e' ↦ rw (e, e') (RestLe-mono (length s) _ _ (omega arith) (read_quoted-RestLe b'"' s))
    | inr e' ↦ rw (e, e') (read_bare-RestLe (c ∷ s))
  ]
]

-- With more fuel than text, the loop ends.
ends_after :
    (f : ℕ) (s : Bytes) (p : Part)
    → read_part (skip_space s) ≡ ok p
    → (c : ℕ) (r : Bytes) → skip_space p.rest ≡ c ∷ r
    → split_parts f r ≢ none
    → split_parts (suc f) s ≢ none
unfolding split_parts
ends_after f s p e c r e' h = ground arith

split_parts-ne-none : (f : ℕ) (s : Bytes) → length s < f → split_parts f s ≢ none
unfolding split_parts
split_parts-ne-none zero s h = absurd (omega arith)
split_parts-ne-none (suc f) s h =
    go (split_parts-ne-none f) (read_part (skip_space s)) refl (read_part-RestLe (skip_space s))
  where
    go :
        ((r : Bytes) → length r < f → split_parts f r ≢ none)
        → (m : Result SplitError Part) → read_part (skip_space s) ≡ m
        → RestLe (length (skip_space s)) m
        → split_parts (suc f) s ≢ none
    go rec (err e) q le = rw (q, split_parts) (λ x. cc)
    go rec (ok p) q le = elim (List-cases (skip_space p.rest)) [
      | inl e ↦ rw (q, e, split_parts) (λ x. cc)
      | inr (c, r, e) ↦
          ends_after f s p q c r e
            (rec r (omega (arith, ap length e, skip_space-le s, skip_space-le p.rest)))
    ]

-- The loop gives at least one part.
split_parts-ne-nil : (f : ℕ) (s : Bytes) → split_parts f s ≢ some (ok [])
unfolding split_parts
split_parts-ne-nil zero s = cc
split_parts-ne-nil (suc f) s = ground arith

-- SplitName always ends, with an error or with one to four parts of which the first and the last
-- are not empty.
pub split_name_sound :
    (name : Bytes)
    → (r : Result SplitError (List Bytes)) × (split_name name ≡ some r)
      × ((ps : List Bytes)
          → r ≡ ok ps
          → (1 ≤ length ps) × (length ps ≤ 4) × (first_empty ps ≡ false) × (last_empty ps ≡ false))
unfolding split_name
split_name_sound name = elim (Option-cases (split_parts (suc (length name)) name)) [
  | inl e ↦ absurd (split_parts-ne-none (suc (length name)) name (omega arith) e)
  | inr (r, e) ↦ (r >>= check_parts, rw (e, split_name), check_parts_sound r)
]

-- A later byte of a regular identifier is neither white space nor special to SplitName.
later_plain :
    (c : ℕ)
    → is_later c ≡ true
    → ((c == b'.' || is_space c) ≡ false) × ((c == b'[' || c == b']' || c == b'"') ≡ false)
unfolding is_later is_letter is_space
later_plain c h = ground arith

read_bare-all_later :
    (s : Bytes) → all_later s ≡ true → read_bare s ≡ ok (record { value = s; rest = [] })
unfolding all_later read_bare
read_bare-all_later [] h = refl
read_bare-all_later (c ∷ s) h =
    let plain = later_plain c (ground arith) in
    rw (plain.0, plain.1, read_bare, read_bare-all_later s (ground arith))
      (unfold add_front in refl)

letter_plain :
    (c : ℕ)
    → is_letter c ≡ true
    → (is_space c ≡ false) × ((c == b'[') ≡ false) × ((c == b'"') ≡ false) × (is_later c ≡ true)
unfolding is_later is_letter is_space
letter_plain c h = ground arith

-- A regular identifier is read as one part.
split_name_regular :
    (name : Bytes) → is_regular_identifier name ≡ true → split_name name ≡ some (ok (name ∷ []))
unfolding is_regular_identifier split_name
split_name_regular [] h = cc
split_name_regular (c ∷ s) h =
    let first = letter_plain c (ground arith) in
    let whole : read_bare (c ∷ s) ≡ ok (record { value = c ∷ s; rest = [] }) =
      read_bare-all_later (c ∷ s) (unfold all_later in rw first.3 (ground arith)) in
    let part : read_part (skip_space (c ∷ s)) ≡ ok (record { value = c ∷ s; rest = [] }) =
      unfold skip_space read_part in rw (first.0, skip_space) (rw (first.1, first.2) whole) in
    rw (split_parts-last (length (c ∷ s)) (c ∷ s) (c ∷ s) part, split_name)
      (unfold check_parts first_empty last_empty in refl)

-- QuoteNameIfNeeded gives a text that SplitName reads as the one name, if it is not empty.
pub split_name-quote_name_if_needed :
    (name : Bytes)
    → is_empty name ≡ false
    → split_name (quote_name_if_needed name) ≡ some (ok (name ∷ []))
unfolding quote_name_if_needed first_empty is_empty last_empty quote_name dotted
split_name-quote_name_if_needed name h =
    elim (Bool-cases (is_regular_identifier name && not (is_reserved_keyword name))) [
      | inl e ↦ rw e (split_name_regular name (ground arith))
      | inr e ↦ rw e (split_name-dotted (name ∷ []) (omega arith) h h)
    ]
