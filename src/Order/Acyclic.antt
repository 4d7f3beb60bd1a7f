-- ===== src/Order/Acyclic.antt =====
-- An order is returned when no objects need one another through bound references.
use gosmo.Base.{
  ℕ, zero, suc, ◌+◌, ◌<◌, ◌≡◌, refl, sym, subst, ◌∙◌, true, false, not, ◌&&◌, List, [], ◌∷◌, ◌++◌,
  ◌⊎◌, none, Bytes, arith, if◌then◌else◌, str_eq, str_eq_sound, str_eq_refl, contains,
  contains_func, All, length, Bool-cases, Option-cases, inl, inr, and_left, and_right, or_cases, ok,
}
use gosmo.Restore.Plan.Sound.{Elem}
use gosmo.Order.{
  OrderNode, OrderEdge, from_to, keys, is_reference, waiting_of, add_waiting, dependents_of, by_key,
  OrderState, Next, take_node, next_node, is_breakable, pick_from, warnings_of, Ordered, order_from,
  duplicate_from, first_state, order_objects,
}
use gosmo.Order.Waiting.{add_waiting_same, add_waiting_other}
use gosmo.Order.Invariant.{Distinct, contains-head, contains-cons, contains-by_key}
use gosmo.Order.Sound.{broken_at, next_node_picked}
use gosmo.Order.Returned.{
  All-Elem, All-at, order_from-suc, order_objects-none, duplicate_from-Distinct,
}
use gosmo.Order.Total.{
  unseen_node, contains_func-at, pick_from-none, IsOpen, Live, take_node-Live, broken_at-Live,
}

module _ (nodes : List OrderNode) (references : List OrderEdge) (height : Bytes → ℕ) where
  -- From a node that is not emitted, bound references go down for ever.
  no_descent :
      (m : ℕ) (n : OrderNode) (seen : List Bytes) (st : OrderState)
      → Live nodes references height seen (record st { ready = [] })
      → pick_from st none nodes ≡ none
      → Elem n nodes
      → contains seen n.key ≡ false
      → height n.key < m
      → ⊥
  no_descent zero n seen st live stuck i f h = omega arith
  no_descent (suc m) n seen st live stuck i f h =
      let (w, is_open, here) =
        contains_func-at (IsOpen nodes references height seen)
          (λ w. w.bound && str_eq w.source n.key) st.waiting live.still_open bound_unmet in
      let (unseen, is_key, lower, _) = is_open in
      let (t, is_t) = contains-by_key nodes references nodes w.target is_key in
      let source : w.source ≡ n.key = str_eq_sound w.source n.key (and_right w.bound _ here) in
      let down : height w.target < height n.key =
        rw source at (lower (and_left _ (str_eq w.source n.key) here)) in
      no_descent m (by_key nodes w.target) seen st live stuck t (rw is_t unseen)
        (rw is_t (omega (arith, down, h)))
    where
      not_queued : contains st.queued n.key ≡ false
      not_queued = elim (Bool-cases (contains st.queued n.key)) [
        | inr e ↦ e
        | inl e ↦ elim (live.reached n.key e) [
          | inl s ↦ absurd (cc (s, f))
          | inr s ↦ absurd (let z : false ≡ true = unfold contains in s in cc z)
        ]
      ]

      breakable :
          contains_func (λ w. w.bound && str_eq w.source n.key) st.waiting ≡ false
          → is_breakable st n ≡ true
      breakable e = unfold is_breakable in rw (not_queued, e) refl

      bound_unmet : contains_func (λ w. w.bound && str_eq w.source n.key) st.waiting ≡ true
      bound_unmet =
          elim (Bool-cases (contains_func (λ w. w.bound && str_eq w.source n.key) st.waiting)) [
            | inl e ↦ e
            | inr e ↦ absurd (cc ((pick_from-none st nodes none stuck).1 n i, breakable e))
          ]

  next_node-Live :
      (seen : List Bytes) (st : OrderState) (ready : List OrderNode)
      → Distinct nodes
      → length seen < length nodes
      → Live nodes references height seen (record st { ready = ready })
      → (next : Next) × (next_node nodes references st ready ≡ ok next)
        × Live nodes references height (next.node.key ∷ seen) next.state
  next_node-Live seen st (x ∷ xs) d l live = (
    take_node nodes references [] x xs st,
    unfold next_node in refl,
    take_node-Live nodes references height seen st [] x xs live,
  )
  next_node-Live seen st [] d l live = elim (Option-cases (pick_from st none nodes)) [
    | inl e ↦
        let (n, i, f) = unseen_node seen nodes d l in
        absurd (no_descent (suc (height n.key)) n seen st live e i f (omega arith))
    | inr (p, e) ↦ (
      take_node nodes references (warnings_of nodes st.waiting p) p [] (broken_at nodes [] st p),
      next_node_picked nodes [] st references p e,
      take_node-Live nodes references height seen (broken_at nodes [] st p)
          (warnings_of nodes st.waiting p) p []
          (broken_at-Live nodes references height seen st p live),
    )
  ]

  order_from-total :
      (k : ℕ) (seen : List Bytes) (st : OrderState)
      → Distinct nodes
      → length seen + k ≡ length nodes
      → Live nodes references height seen st
      → (r : Ordered) × (order_from nodes references k st ≡ ok r)
  order_from-total zero seen st d l live =
      (record { order = []; warnings = [] }, unfold order_from in refl)
  order_from-total (suc k) seen st d l live =
      let (next, taken, after) = next_node-Live seen st st.ready d (omega (arith, l)) live in
      let (rest, ordered) =
        order_from-total k (next.node.key ∷ seen) next.state d (omega (arith, l)) after in
      (
        record { order = next.node ∷ rest.order; warnings = next.warned ++ rest.warnings },
        rw (order_from-suc nodes [] k st references, taken, ordered) refl,
      )

module _ (nodes : List OrderNode) (height : Bytes → ℕ) where
  -- A reference to a node, below its source if it is bound.
  abbrev IsLower : OrderEdge → Type 0
  IsLower w =
      (contains (keys nodes) w.target ≡ true) × (w.bound ≡ true → height w.target < height w.source)

  IsLower-add_waiting :
      (e : OrderEdge) (ws : List OrderEdge)
      → IsLower e
      → All IsLower ws
      → All IsLower (add_waiting e ws)
  IsLower-add_waiting e [] h a = unfold add_waiting in (h, tt)
  IsLower-add_waiting e (w ∷ ws) h a = elim (Bool-cases (from_to e.source e.target w)) [
    | inr t ↦
        subst (All IsLower) (sym (add_waiting_other e w ws t))
          (a.0, IsLower-add_waiting e ws h (a.1))
    | inl t ↦
        subst (All IsLower) (sym (add_waiting_same e w ws t))
          ((a.0.0, λ b. merged t (or_cases w.bound e.bound b)), a.1)
  ]
    where
      merged :
          from_to e.source e.target w ≡ true
          → (w.bound ≡ true) ⊎ (e.bound ≡ true)
          → height w.target < height w.source
      merged t (inl b) = (a.0).1 b
      merged t (inr b) =
          let source = str_eq_sound w.source e.source (and_left _ (str_eq w.target e.target) t) in
          let target = str_eq_sound w.target e.target (and_right (str_eq w.source e.source) _ t) in
          rw (source, target) (h.1 b)

  IsLower-waiting_of :
      (ws es : List OrderEdge)
      → ((e : OrderEdge)
          → Elem e es
          → is_reference nodes e ≡ true
          → e.bound ≡ true
          → height e.target < height e.source)
      → All IsLower ws
      → All IsLower (waiting_of nodes ws es)
  unfolding waiting_of
  IsLower-waiting_of ws [] h a = a
  IsLower-waiting_of ws (e ∷ es) h a =
      IsLower-waiting_of (if is_reference nodes e then add_waiting e ws else ws) es
        (λ d i. h d (inr i)) (filled (h e (inl refl)))
    where
      target_is_key :
          (e : OrderEdge) → is_reference nodes e ≡ true → contains (keys nodes) e.target ≡ true
      target_is_key e r =
          unfold is_reference in
          and_right (contains (keys nodes) e.source) _
            (and_right (not (str_eq e.source e.target)) _ r)

      filled :
          (is_reference nodes e ≡ true → e.bound ≡ true → height e.target < height e.source)
          → All IsLower (if is_reference nodes e then add_waiting e ws else ws)
      filled lower = elim (Bool-cases (is_reference nodes e)) [
        | inr r ↦ rw r a
        | inl r ↦ rw r (IsLower-add_waiting e ws (target_is_key e r, lower r) a)
      ]

dependents_first :
    (v : OrderEdge) (ws : List OrderEdge) (k : Bytes)
    → str_eq v.target k ≡ true
    → dependents_of k (v ∷ ws) ≡ v.source ∷ dependents_of k ws
unfolding dependents_of
dependents_first v ws k e = rw e refl

dependents_other :
    (v : OrderEdge) (ws : List OrderEdge) (k : Bytes)
    → str_eq v.target k ≡ false
    → dependents_of k (v ∷ ws) ≡ dependents_of k ws
unfolding dependents_of
dependents_other v ws k e = rw e refl

-- The source of a reference is a dependent of its target.
contains-dependents_of :
    (w : OrderEdge) (ws : List OrderEdge)
    → Elem w ws
    → contains (dependents_of w.target ws) w.source ≡ true
contains-dependents_of w [] i = absurd i
contains-dependents_of w (v ∷ ws) (inl e) =
    let here : str_eq v.target w.target ≡ true = rw e (str_eq_refl v.target) in
    rw (dependents_first v ws w.target here, e) (contains-head v.source (dependents_of v.target ws))
contains-dependents_of w (v ∷ ws) (inr i) = elim (Bool-cases (str_eq v.target w.target)) [
  | inl e ↦
      rw (dependents_first v ws w.target e) (
        contains-cons v.source w.source (dependents_of w.target ws) (contains-dependents_of w ws i))
  | inr e ↦ rw (dependents_other v ws w.target e) (contains-dependents_of w ws i)
]

-- If the bound references all go down in some height, so that there is no cycle of them, and no key
-- stands twice, then an order is returned, whatever the other references are.
pub order_objects-total :
    (nodes : List OrderNode) (edges : List OrderEdge) (height : Bytes → ℕ)
    → duplicate_from [] nodes ≡ none
    → ((e : OrderEdge)
        → Elem e edges
        → is_reference nodes e ≡ true
        → e.bound ≡ true
        → height e.target < height e.source)
    → (r : Ordered) × (order_objects nodes edges ≡ ok r)
order_objects-total nodes edges height d lower =
    let ws = waiting_of nodes [] edges in
    let (r, ordered) =
      order_from-total nodes ws height (length nodes) [] (first_state nodes ws)
        (duplicate_from-Distinct [] nodes d) (omega arith) (first d) in
    (r, order_objects-none nodes edges d ∙ ordered)
  where
    first :
        duplicate_from [] nodes ≡ none
        → Live nodes
            (waiting_of nodes [] edges)
            height
            []
            (first_state nodes (waiting_of nodes [] edges))
    first d =
        let ws = waiting_of nodes [] edges in
        unfold first_state in
        record {
          reached = λ k h. inr h;
          still_open = All-Elem ws (IsOpen nodes ws height []) (λ w i.
              let (is_key, below) =
                All-at ws (IsLower nodes height) (IsLower-waiting_of nodes height [] edges lower tt)
                  w i in
              (unfold contains in refl, is_key, below, contains-dependents_of w ws i));
        }
