-- ===== src/Order/Waiting.antt =====
-- What the unmet references hold, while they are filled, met and broken.
use gosmo.Base.{
  ◌≡◌, refl, sym, subst, Bool, true, false, not, ◌||◌, List, [], ◌∷◌, Bytes, if◌then◌else◌, str_eq,
  str_eq_refl, contains, contains_func, All, Bool-cases, inl, inr, and_left, and_right, and_intro,
  or_cases, or_intro_left, or_intro_right, or_false_left, or_false_right, or_false_intro,
}
use gosmo.Restore.Plan.Sound.{Elem}
use gosmo.Order.{
  OrderNode, OrderEdge, from_to, bound_from_to, add_waiting, keys, is_reference, waiting_of,
  has_unmet, remove,
}

-- Tests on the elements that are left.
module _ {ℓ} {A : Type ℓ} where
  pub contains_func_mono :
      (p q : A → Bool) (xs : List A)
      → ((x : A) → p x ≡ true → q x ≡ true)
      → contains_func p xs ≡ true
      → contains_func q xs ≡ true
  contains_func_mono p q [] h e = e
  contains_func_mono p q (x ∷ xs) h e = elim (Bool-cases (p x)) [
    | inl t ↦ or_intro_left _ _ (h x t)
    | inr t ↦ or_intro_right _ _ (contains_func_mono p q xs h (rw t at e))
  ]

  pub contains_func-remove :
      (p q : A → Bool) (xs : List A)
      → ((x : A) → q x ≡ true → p x ≡ false)
      → contains_func q xs ≡ true
      → contains_func q (remove p xs) ≡ true
  contains_func-remove p q [] h e = e
  contains_func-remove p q (x ∷ xs) h e = elim (or_cases (q x) _ e) [
    | inl t ↦ rw (h x t) (or_intro_left _ _ t)
    | inr t ↦ elim (Bool-cases (p x)) [
      | inl l ↦ rw l (contains_func-remove p q xs h t)
      | inr l ↦ rw l (or_intro_right _ _ (contains_func-remove p q xs h t))
    ]
  ]

  pub contains_func-remove-false :
      (p q : A → Bool) (xs : List A)
      → contains_func q xs ≡ false
      → contains_func q (remove p xs) ≡ false
  contains_func-remove-false p q [] e = e
  contains_func-remove-false p q (x ∷ xs) e =
      let rest = contains_func-remove-false p q xs (or_false_right (q x) _ e) in
      elim (Bool-cases (p x)) [
        | inl l ↦ rw l rest
        | inr l ↦ rw l (or_false_intro _ _ (or_false_left _ _ e) rest)
      ]

  pub contains_func-remove_self :
      (p : A → Bool) (xs : List A) → contains_func p (remove p xs) ≡ false
  contains_func-remove_self p [] = refl
  contains_func-remove_self p (x ∷ xs) = elim (Bool-cases (p x)) [
    | inl t ↦ rw t (contains_func-remove_self p xs)
    | inr t ↦ rw (t, t) (contains_func-remove_self p xs)
  ]

pub All-remove {ℓ κ} :
    {A : Type ℓ} (P : A → Type κ) (p : A → Bool) (xs : List A) → All P xs → All P (remove p xs)
All-remove P p [] h = h
All-remove P p (x ∷ xs) h = elim (Bool-cases (p x)) [
  | inl t ↦ rw t (All-remove P p xs (h.1))
  | inr t ↦ rw t (h.0, All-remove P p xs (h.1))
]

-- A bound reference is still unmet.
abbrev pub holds : List OrderEdge → Bytes → Bytes → Bool
holds ws s t = contains_func (bound_from_to s t) ws

-- A source of an unmet reference is a node.
abbrev pub AllFrom : List OrderNode → List OrderEdge → Type 0
AllFrom nodes = All (λ w. contains (keys nodes) w.source ≡ true)

pub has_unmet-holds :
    (ws : List OrderEdge) (s t : Bytes) → holds ws s t ≡ true → has_unmet ws s ≡ true
unfolding has_unmet
has_unmet-holds ws s t h =
    contains_func_mono (bound_from_to s t) (λ w. str_eq w.source s) ws
      (λ w e. and_left _ _ (and_right w.bound _ e)) h

pub add_waiting_same :
    (e w : OrderEdge) (ws : List OrderEdge)
    → from_to e.source e.target w ≡ true
    → add_waiting e (w ∷ ws) ≡ record w { bound = w.bound || e.bound } ∷ ws
unfolding add_waiting
add_waiting_same e w ws t = rw t refl

pub add_waiting_other :
    (e w : OrderEdge) (ws : List OrderEdge)
    → from_to e.source e.target w ≡ false
    → add_waiting e (w ∷ ws) ≡ w ∷ add_waiting e ws
unfolding add_waiting
add_waiting_other e w ws t = rw t refl

holds-add_waiting_self :
    (e : OrderEdge) (ws : List OrderEdge)
    → e.bound ≡ true
    → holds (add_waiting e ws) e.source e.target ≡ true
holds-add_waiting_self e [] h =
    unfold add_waiting in
    or_intro_left _ _
      (and_intro _ _ h (and_intro _ _ (str_eq_refl e.source) (str_eq_refl e.target)))
holds-add_waiting_self e (w ∷ ws) h = elim (Bool-cases (from_to e.source e.target w)) [
  | inl t ↦
      subst (λ v. holds v e.source e.target ≡ true) (sym (add_waiting_same e w ws t))
        (or_intro_left _ _ (and_intro _ _ (or_intro_right _ _ h) t))
  | inr t ↦
      subst (λ v. holds v e.source e.target ≡ true) (sym (add_waiting_other e w ws t))
        (or_intro_right (bound_from_to e.source e.target w) _ (holds-add_waiting_self e ws h))
]

holds-add_waiting :
    (e : OrderEdge) (ws : List OrderEdge) (s t : Bytes)
    → holds ws s t ≡ true
    → holds (add_waiting e ws) s t ≡ true
holds-add_waiting e [] s t h = absurd (cc h)
holds-add_waiting e (w ∷ ws) s t h = elim (Bool-cases (from_to e.source e.target w)) [
  | inl l ↦
      subst (λ v. holds v s t ≡ true) (sym (add_waiting_same e w ws l))
        (elim (or_cases (bound_from_to s t w) _ h) [
          | inl k ↦ or_intro_left _ _ (
              and_intro _ _ (or_intro_left _ _ (and_left _ (from_to s t w) k))
                (and_right w.bound _ k))
          | inr k ↦ or_intro_right _ _ k
        ])
  | inr l ↦
      subst (λ v. holds v s t ≡ true) (sym (add_waiting_other e w ws l))
        (elim (or_cases (bound_from_to s t w) _ h) [
          | inl k ↦ or_intro_left _ _ k
          | inr k ↦ or_intro_right _ _ (holds-add_waiting e ws s t k)
        ])
]

AllFrom-add_waiting :
    (nodes : List OrderNode) (e : OrderEdge) (ws : List OrderEdge)
    → contains (keys nodes) e.source ≡ true
    → AllFrom nodes ws
    → AllFrom nodes (add_waiting e ws)
AllFrom-add_waiting nodes e [] h a = unfold add_waiting in (h, tt)
AllFrom-add_waiting nodes e (w ∷ ws) h a = elim (Bool-cases (from_to e.source e.target w)) [
  | inl t ↦ subst (AllFrom nodes) (sym (add_waiting_same e w ws t)) (a.0, a.1)
  | inr t ↦
      subst (AllFrom nodes) (sym (add_waiting_other e w ws t))
        (a.0, AllFrom-add_waiting nodes e ws h (a.1))
]

module _ (nodes : List OrderNode) where
  abbrev fill_one : List OrderEdge → OrderEdge → List OrderEdge
  fill_one ws e = if is_reference nodes e then add_waiting e ws else ws

  fill_one-holds :
      (ws : List OrderEdge) (e : OrderEdge) (s t : Bytes)
      → holds ws s t ≡ true
      → holds (fill_one ws e) s t ≡ true
  fill_one-holds ws e s t h = elim (Bool-cases (is_reference nodes e)) [
    | inl r ↦ rw r (holds-add_waiting e ws s t h)
    | inr r ↦ rw r h
  ]

  fill_one-AllFrom :
      (ws : List OrderEdge) (e : OrderEdge) → AllFrom nodes ws → AllFrom nodes (fill_one ws e)
  fill_one-AllFrom ws e a = elim (Bool-cases (is_reference nodes e)) [
    | inl r ↦ rw r (AllFrom-add_waiting nodes e ws (reference_source e r) a)
    | inr r ↦ rw r a
  ]
    where
      reference_source :
          (e : OrderEdge) → is_reference nodes e ≡ true → contains (keys nodes) e.source ≡ true
      reference_source e r =
          unfold is_reference in and_left _ _ (and_right (not (str_eq e.source e.target)) _ r)

  pub AllFrom-waiting_of :
      (ws es : List OrderEdge) → AllFrom nodes ws → AllFrom nodes (waiting_of nodes ws es)
  unfolding waiting_of
  AllFrom-waiting_of ws [] a = a
  AllFrom-waiting_of ws (e ∷ es) a = AllFrom-waiting_of (fill_one ws e) es (fill_one-AllFrom ws e a)

  waiting_of-holds :
      (ws es : List OrderEdge) (s t : Bytes)
      → holds ws s t ≡ true
      → holds (waiting_of nodes ws es) s t ≡ true
  unfolding waiting_of
  waiting_of-holds ws [] s t h = h
  waiting_of-holds ws (e ∷ es) s t h =
      waiting_of-holds (fill_one ws e) es s t (fill_one-holds ws e s t h)

  -- Every bound reference is unmet at first.
  pub holds-waiting_of :
      (ws es : List OrderEdge) (e : OrderEdge)
      → Elem e es
      → is_reference nodes e ≡ true
      → e.bound ≡ true
      → holds (waiting_of nodes ws es) e.source e.target ≡ true
  unfolding waiting_of
  holds-waiting_of ws [] e h r b = absurd h
  holds-waiting_of ws (d ∷ es) e h r b = elim h [
    | inl q ↦
        waiting_of-holds (fill_one ws d) es e.source e.target
          (rw (← q, r) (holds-add_waiting_self e ws b))
    | inr l ↦ holds-waiting_of (fill_one ws d) es e l r b
  ]
