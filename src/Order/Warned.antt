-- ===== src/Order/Warned.antt =====
-- Every reference is accounted for: met, still unmet, or in the warnings.
use gosmo.Base.{
  ◌≡◌, ap, sym, subst, Bool, true, false, not, ◌&&◌, List, [], ◌∷◌, ◌⊎◌, Bytes, if◌then◌else◌,
  str_eq, str_eq_sound, str_eq_refl, contains, contains_func, Bool-cases, inl, inr, and_right,
  and_intro, or_cases, or_intro_left, or_intro_right,
}
use gosmo.Restore.Plan.Sound.{Elem}
use gosmo.Order.{
  OrderNode, OrderEdge, from_to, is_reference, waiting_of, add_waiting, waits_for, has_unmet,
  delete_waiting, by_key, OrderState, enqueue, release_one, release,
}
use gosmo.Order.Waiting.{contains_func-remove, add_waiting_same, add_waiting_other}
use gosmo.Order.Broken.{warning}

-- A reference that is waited for stays so while others are added, and is once it is added itself.
waits_for-add_waiting :
    (e : OrderEdge) (ws : List OrderEdge) (s t : Bytes)
    → waits_for ws s t ≡ true
    → waits_for (add_waiting e ws) s t ≡ true
unfolding waits_for
waits_for-add_waiting e [] s t h = absurd (cc h)
waits_for-add_waiting e (w ∷ ws) s t h = elim (Bool-cases (from_to e.source e.target w)) [
  | inl l ↦ subst (λ v. contains_func (from_to s t) v ≡ true) (sym (add_waiting_same e w ws l)) h
  | inr l ↦
      subst (λ v. contains_func (from_to s t) v ≡ true) (sym (add_waiting_other e w ws l))
        (elim (or_cases (from_to s t w) _ h) [
          | inl k ↦ or_intro_left _ _ k
          | inr k ↦ or_intro_right (from_to s t w) _ (waits_for-add_waiting e ws s t k)
        ])
]

waits_for-add_waiting_self :
    (e : OrderEdge) (ws : List OrderEdge) → waits_for (add_waiting e ws) e.source e.target ≡ true
unfolding waits_for
waits_for-add_waiting_self e [] =
    unfold add_waiting in
    or_intro_left _ _ (and_intro _ _ (str_eq_refl e.source) (str_eq_refl e.target))
waits_for-add_waiting_self e (w ∷ ws) = elim (Bool-cases (from_to e.source e.target w)) [
  | inl l ↦
      subst (λ v. contains_func (from_to e.source e.target) v ≡ true)
        (sym (add_waiting_same e w ws l)) (or_intro_left _ _ l)
  | inr l ↦
      subst (λ v. contains_func (from_to e.source e.target) v ≡ true)
        (sym (add_waiting_other e w ws l))
        (or_intro_right (from_to e.source e.target w) _ (waits_for-add_waiting_self e ws))
]

waiting_of-kept :
    (nodes : List OrderNode) (ws es : List OrderEdge) (s t : Bytes)
    → waits_for ws s t ≡ true
    → waits_for (waiting_of nodes ws es) s t ≡ true
unfolding waiting_of
waiting_of-kept nodes ws [] s t h = h
waiting_of-kept nodes ws (e ∷ es) s t h =
    waiting_of-kept nodes (if is_reference nodes e then add_waiting e ws else ws) es s t
      (filled (is_reference nodes e))
  where
    filled : (b : Bool) → waits_for (if b then add_waiting e ws else ws) s t ≡ true
    filled true = waits_for-add_waiting e ws s t h
    filled false = h

pub waits_for-waiting_of :
    (nodes : List OrderNode) (ws es : List OrderEdge) (e : OrderEdge)
    → Elem e es
    → is_reference nodes e ≡ true
    → waits_for (waiting_of nodes ws es) e.source e.target ≡ true
unfolding waiting_of
waits_for-waiting_of nodes ws [] e i r = absurd i
waits_for-waiting_of nodes ws (d ∷ es) e (inl q) r =
    waiting_of-kept nodes (if is_reference nodes d then add_waiting d ws else ws) es e.source
      e.target (rw (← q, r) (waits_for-add_waiting_self e ws))
waits_for-waiting_of nodes ws (d ∷ es) e (inr i) r =
    waits_for-waiting_of nodes (if is_reference nodes d then add_waiting d ws else ws) es e i r

module _ (nodes : List OrderNode) (edges : List OrderEdge) where
  -- Every reference is met, or still unmet, or in the warnings so far.
  abbrev pub IsAccounted : List Bytes → List Bytes → List OrderEdge → OrderEdge → Type 0
  IsAccounted past seen ws e =
      (contains seen e.target ≡ true)
      ⊎ ((waits_for ws e.source e.target ≡ true) ⊎ Elem (warning nodes e) past)

  abbrev pub Accounted : List Bytes → List Bytes → List OrderEdge → Type 0
  Accounted past seen ws =
      (e : OrderEdge) → Elem e edges → is_reference nodes e ≡ true → IsAccounted past seen ws e

  Accounted-delete :
      (past seen : List Bytes) (ws : List OrderEdge) (d k : Bytes)
      → contains seen k ≡ true
      → Accounted past seen ws
      → Accounted past seen (delete_waiting d k ws)
  unfolding waits_for delete_waiting
  Accounted-delete past seen ws d k h a e i r = elim (a e i r) [
    | inl s ↦ inl s
    | inr (inr w) ↦ inr (inr w)
    | inr (inl w) ↦ elim (Bool-cases (str_eq e.target k)) [
      | inl q ↦ inl (rw (str_eq_sound e.target k q) h)
      | inr q ↦ inr (
          inl (
            contains_func-remove (from_to d k) (from_to e.source e.target) ws (λ x t. apart x q t)
              w))
    ]
  ]
    where
      apart :
          (x : OrderEdge)
          → str_eq e.target k ≡ false
          → from_to e.source e.target x ≡ true
          → from_to d k x ≡ false
      apart x q t = elim (Bool-cases (from_to d k x)) [
        | inr f ↦ f
        | inl f ↦
            let is_t = str_eq_sound x.target e.target (and_right (str_eq x.source e.source) _ t) in
            absurd (
              cc
                (q, and_right (str_eq x.source d) (str_eq x.target k) f, ap (λ y. str_eq y k) is_t))
      ]

  pub Accounted-release :
      (past seen : List Bytes) (k : Bytes) (ds : List Bytes) (st : OrderState)
      → contains seen k ≡ true
      → Accounted past seen st.waiting
      → Accounted past seen (release nodes k ds st).waiting
  unfolding release
  Accounted-release past seen k [] st h a = a
  Accounted-release past seen k (d ∷ ds) st h a =
      Accounted-release past seen k ds (release_one nodes k d st) h released
    where
      queued :
          (b : Bool) (met : OrderState)
          → Accounted past seen met.waiting
          → Accounted past seen (if b then enqueue (by_key nodes d) met else met).waiting
      queued true met m = unfold enqueue in m
      queued false met m = m

      released : Accounted past seen (release_one nodes k d st).waiting
      released =
          unfold release_one in
          elim (Bool-cases (waits_for st.waiting d k)) [
            | inr e ↦ rw e a
            | inl e ↦ rw e (
                queued
                  (not (has_unmet (delete_waiting d k st.waiting) d) && not (contains st.queued d))
                  (record st { waiting = delete_waiting d k st.waiting })
                  (Accounted-delete past seen st.waiting d k h a))
          ]
