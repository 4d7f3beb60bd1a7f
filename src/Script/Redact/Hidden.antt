-- ===== src/Script/Redact/Hidden.antt =====
-- The literals of the statement that redactSecrets shows.
use gosmo.Base.{
  ℕ, zero, suc, ◌<◌, ◌≡◌, refl, ap, ◌≢◌, str_eq_sound, Bool, true, false, not, ◌&&◌, List, [], ◌∷◌,
  map, Option, none, some, ◌++◌, append_assoc, arith, Bytes, Bool-cases, Option-cases, inl, inr,
  ◌⊎◌, if◌then◌else◌, length, str_eq, contains,
}
use gosmo.Tsql.Scan.{is_literal, Piece, unescape, pieces, opener, scan_as, walk, last_byte, flush}
use gosmo.Tsql.Scan.Tiling.{piece_as, walk_code, walk_span, scan_as-rest-lt}
use gosmo.Tsql.Scan.Fuel.{pieces_after, pieces_after_lem, pieces_after-nil}
use gosmo.Tsql.Scan.Stable.{IsAlike}
use gosmo.Tsql.Scan.Reread.{opener-none}
use gosmo.Tsql.Quote.{quote_literal}
use gosmo.Script.Redact.{is_secret, redact_secrets}
use gosmo.Script.Redact.Spliced.{shown, redact_piece, own_span, redact_secrets-shown}
use gosmo.Script.Redact.Lexed.{
  literals, values, own_literal, literals-values, values-flush, values-walk, values_code,
  span_again, values_quoted,
}
use gosmo.Script.Redact.Literals.{
  text_front, literal_front, literal_run, first_is-IsAlike, after_literal, map-own_literal,
}

-- What is shown of the value of a literal.
abbrev pub hide : Bytes → List Bytes → Bytes → Bytes
hide placeholder secrets v = if not (str_eq v []) && contains secrets v then placeholder else v

module _ (placeholder : Bytes) (secrets : List Bytes) where
  -- What is shown of the walk over a text.
  abbrev shown_walk : ℕ → Option ℕ → Bytes → Bytes
  shown_walk f prev s = shown placeholder secrets (walk f prev [] s)

  shown-flush :
      (p : Bytes) (ps : List Piece)
      → shown placeholder secrets (flush p ps) ≡ p ++ shown placeholder secrets ps
  unfolding flush redact_piece is_secret is_literal
  shown-flush [] ps = refl
  shown-flush (c ∷ p) ps = refl

  shown-walk :
      (f : ℕ) (prev : Option ℕ) (p s : Bytes)
      → length s < f
      → shown placeholder secrets (walk f prev p s) ≡ p ++ shown_walk f prev s
  shown-walk zero prev p s h = absurd (omega arith)
  shown-walk (suc f) prev p [] h = unfold walk in shown-flush p []
  shown-walk (suc f) prev p (c ∷ s) h = elim (Option-cases (opener prev (c ∷ s))) [
    | inl e ↦
        rw
          (
            walk_code f prev p c s e,
            walk_code f prev [] c s e,
            shown-walk f (some c) (p ++ c ∷ []) s (omega arith),
            shown-walk f (some c) (c ∷ []) s (omega arith),
          )
          (append_assoc p (c ∷ []) (shown_walk f (some c) s))
    | inr (k, e) ↦
        rw
          (
            walk_span f prev p c s k e,
            walk_span f prev [] c s k e,
            shown-flush p _,
            shown-flush [] _,
          )
          refl
  ]

  shown_code :
      (f : ℕ) (prev : Option ℕ) (c : ℕ) (s : Bytes)
      → length s < f
      → opener prev (c ∷ s) ≡ none
      → shown_walk (suc f) prev (c ∷ s) ≡ c ∷ shown_walk f (some c) s
  shown_code f prev c s h e = rw (walk_code f prev [] c s e) (shown-walk f (some c) (c ∷ []) s h)

  shown_span :
      (f : ℕ) (prev : Option ℕ) (c : ℕ) (s : Bytes) {k : _}
      → opener prev (c ∷ s) ≡ some k
      → shown_walk (suc f) prev (c ∷ s)
        ≡ redact_piece placeholder secrets (piece_as k (scan_as k (c ∷ s)))
          ++ shown_walk f (last_byte prev (scan_as k (c ∷ s)).text) (scan_as k (c ∷ s)).rest
  shown_span f prev c s {k} e = rw (walk_span f prev [] c s k e) (shown-flush [] _)

  -- A piece is shown as it is, or it is the literal of a secret.
  abbrev IsKept : Bool → Bytes → Bytes → Bytes → Type 0
  IsKept b v text r =
      (r ≡ text)
      × ((vs : List Bytes) → own_literal b (hide placeholder secrets v) vs ≡ own_literal b v vs)

  abbrev IsHidden : Bool → Bytes → Bytes → Type 0
  IsHidden b v r =
      (b ≡ true) × (r ≡ quote_literal placeholder) × (hide placeholder secrets v ≡ placeholder)

  shown_choice :
      (b : Bool) (v text : Bytes)
      → let r =
          if b && (not (str_eq v []) && contains secrets v)
          then quote_literal placeholder
          else text in
        IsKept b v text r ⊎ IsHidden b v r
  shown_choice false v text = inl (refl, λ vs. refl)
  shown_choice true v text = elim (Bool-cases (not (str_eq v []) && contains secrets v)) [
    | inl e ↦ rw e (inr (refl, refl, refl))
    | inr e ↦ rw e (inl (refl, λ vs. refl))
  ]

  abbrev own_value : Piece → Bytes
  own_value p = unescape (own_span p) p.text

  shown_piece :
      (p : Piece)
      → IsKept (is_literal p.kind) (own_value p) p.text (redact_piece placeholder secrets p)
        ⊎ IsHidden (is_literal p.kind) (own_value p) (redact_piece placeholder secrets p)
  unfolding redact_piece is_secret
  shown_piece p = shown_choice (is_literal p.kind) (own_value p) p.text

  -- The first byte of what is shown.
  shown_walk-IsAlike :
      (f : ℕ) (prev : Option ℕ) (s : Bytes) → length s < f → IsAlike s (shown_walk f prev s)
  shown_walk-IsAlike zero prev s h = absurd (omega arith)
  shown_walk-IsAlike (suc f) prev [] h = unfold walk flush in refl
  shown_walk-IsAlike (suc f) prev (c ∷ s) h = elim (Option-cases (opener prev (c ∷ s))) [
    | inl e ↦ rw (shown_code f prev c s (omega arith) e) (inl refl)
    | inr (k, e) ↦
        rw (shown_span f prev c s e) (elim (shown_piece (piece_as k (scan_as k (c ∷ s)))) [
          | inl (t, _) ↦ (let front = text_front prev k c s e in rw (t, front.1) (inl refl))
          | inr (l, t, _) ↦ rw t (literal_front prev k c s placeholder _ l e)
        ])
  ]

  -- The literals of what is shown of a walk are those of the walk, hidden.
  values-shown_walk :
      (f : ℕ) (prev : Option ℕ) (s : Bytes)
      → length s < f
      → values (pieces_after prev (shown_walk f prev s))
        ≡ map (hide placeholder secrets) (values (walk f prev [] s))
  values-shown_walk zero prev s h = absurd (omega arith)
  values-shown_walk (suc f) prev [] h = unfold walk flush in rw pieces_after-nil
  values-shown_walk (suc f) prev (c ∷ s) h = elim (Option-cases (opener prev (c ∷ s))) [
    | inl e ↦
        let rest = values-shown_walk f (some c) s (omega arith) in
        let code_again =
          opener-none prev c s (shown_walk f (some c) s) e
            (shown_walk-IsAlike f (some c) s (omega arith)) in
        rw
          (
            shown_code f prev c s (omega arith) e,
            values_code prev c (shown_walk f (some c) s) code_again,
            rest,
            walk_code f prev [] c s e,
            values-walk f (some c) (c ∷ []) [] s,
          )
          refl
    | inr (k, e) ↦
        let run = scan_as k (c ∷ s) in
        let shorter : length run.rest < f = omega (arith, scan_as-rest-lt prev k c s e) in
        let rest = values-shown_walk f (last_byte prev run.text) run.rest shorter in
        let alike = shown_walk-IsAlike f (last_byte prev run.text) run.rest shorter in
        rw (shown_span f prev c s e, walk_span f prev [] c s k e, values-flush [])
          (elim (shown_piece (piece_as k run)) [
            | inl (t, v) ↦
                rw
                  (
                    t,
                    span_again prev k c s (shown_walk f (last_byte prev run.text) run.rest) e alike,
                    rest,
                    map-own_literal (hide placeholder secrets) (is_literal k) _ _,
                    v _,
                  )
                  refl
            | inr (l, t, v) ↦
                rw
                  (
                    t,
                    values_quoted prev placeholder (shown_walk f (last_byte prev run.text) run.rest)
                        (first_is-IsAlike run.rest _ alike (literal_run prev k c s l).0),
                    map-own_literal (hide placeholder secrets) (is_literal k) _ _,
                    v,
                    l,
                    ← rest,
                  )
                  (ap (λ vs. placeholder ∷ vs)
                    (after_literal prev run _ (literal_run prev k c s l).1 alike))
          ])
  ]

-- The values of the literals of the statement that is shown are those of the statement that runs,
-- in their order, with the placeholder in the place of every value that is a secret.
pub literals-redact_secrets :
    (stmt placeholder : Bytes) (secrets : List Bytes)
    → literals (redact_secrets stmt placeholder secrets)
      ≡ map (hide placeholder secrets) (literals stmt)
literals-redact_secrets stmt placeholder secrets =
    rw
      (
        redact_secrets-shown stmt placeholder secrets,
        literals-values (shown placeholder secrets (pieces stmt)),
        literals-values stmt,
        pieces_after_lem,
      )
      (unfold pieces in
        values-shown_walk placeholder secrets (suc (length stmt)) none stmt (omega arith))

str_eq_differ : (f : Bytes → Bool) (a b : Bytes) → f a ≢ f b → str_eq a b ≡ false
str_eq_differ f a b n = elim (Bool-cases (str_eq a b)) [
  | inl e ↦ absurd (n (ap f (str_eq_sound a b e)))
  | inr e ↦ e
]

abbrev is_hidden : List Bytes → Bytes → Bool
is_hidden secrets v = not (str_eq v []) && contains secrets v

hide_ne :
    (placeholder v x : Bytes) (secrets : List Bytes)
    → contains secrets placeholder ≡ false
    → contains secrets v ≡ true
    → str_eq v [] ≡ false
    → str_eq (hide placeholder secrets x) v ≡ false
hide_ne placeholder v x secrets p c n = elim (Bool-cases (is_hidden secrets x)) [
  | inl e ↦ rw e (str_eq_differ (contains secrets) placeholder v (λ z. cc (z, p, c)))
  | inr e ↦ rw e (str_eq_differ (is_hidden secrets) x v (λ z. cc (z, e, v_hidden)))
]
  where
    v_hidden : is_hidden secrets v ≡ true
    v_hidden = rw (n, c) refl

contains-hide :
    (placeholder v : Bytes) (secrets vs : List Bytes)
    → contains secrets placeholder ≡ false
    → contains secrets v ≡ true
    → str_eq v [] ≡ false
    → contains (map (hide placeholder secrets) vs) v ≡ false
contains-hide placeholder v secrets [] p c n = unfold contains in refl
contains-hide placeholder v secrets (x ∷ vs) p c n =
    contains_neither (hide placeholder secrets x) v (map (hide placeholder secrets) vs)
      (hide_ne placeholder v x secrets p c n) (contains-hide placeholder v secrets vs p c n)
  where
    contains_neither :
        (x v : Bytes) (xs : List Bytes)
        → str_eq x v ≡ false
        → contains xs v ≡ false
        → contains (x ∷ xs) v ≡ false
    contains_neither x v xs e h = unfold contains in rw (e, h) refl

-- No secret that is not empty is the value of a literal of the statement that is shown, if the
-- placeholder is no secret.
pub secret_not_shown :
    (stmt placeholder v : Bytes) (secrets : List Bytes)
    → contains secrets placeholder ≡ false
    → contains secrets v ≡ true
    → str_eq v [] ≡ false
    → contains (literals (redact_secrets stmt placeholder secrets)) v ≡ false
secret_not_shown stmt placeholder v secrets p c n =
    rw (literals-redact_secrets stmt placeholder secrets)
      (contains-hide placeholder v secrets (literals stmt) p c n)
