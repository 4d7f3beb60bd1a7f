-- ===== src/Order/Explained.antt =====
-- A reference that the order does not keep is in the warnings.
use gosmo.Base.{
  ℕ, zero, suc, ◌≡◌, sym, subst, ◌∙◌, true, false, List, [], ◌∷◌, ◌++◌, append_assoc, append-nil,
  ◌⊎◌, none, Bytes, str_eq, str_eq_sound, contains, length, Bool-cases, Option-cases, inl, inr,
  and_left, ok, ok_inj, bind_ok,
}
use gosmo.Restore.Plan.Sound.{Elem}
use gosmo.Order.{
  OrderNode, OrderEdge, from_to, is_reference, waiting_of, waits_for, has_unmet, clear_waiting,
  dependents_of, OrderState, warnings_of, pop_least, Next, take_node, next_node, pick_from, Ordered,
  OrderError, order_from, duplicate_from, first_state, order_objects,
}
use gosmo.Order.Waiting.{contains_func_mono, contains_func-remove}
use gosmo.Order.Invariant.{Distinct, Inv, IsReady, contains-head, contains-cons, pop_least-All}
use gosmo.Order.Sound.{
  broken_at, next_node_picked, next_node_stuck, next_node-Inv, pick_from-some, picked-Inv,
}
use gosmo.Order.Returned.{
  order_from-suc, order_objects-none, order_objects-some, duplicate_from-Distinct, first_state-Inv,
}
use gosmo.Order.Broken.{warning, Elem-warnings_of}
use gosmo.Order.Warned.{Accounted, Accounted-release, waits_for-waiting_of}

Elem-append_left : {A : Type 0} (x : A) (xs ys : List A) → Elem x xs → Elem x (xs ++ ys)
Elem-append_left x [] ys i = absurd i
Elem-append_left x (y ∷ xs) ys (inl e) = inl e
Elem-append_left x (y ∷ xs) ys (inr i) = inr (Elem-append_left x xs ys i)

Elem-append_right : {A : Type 0} (x : A) (xs ys : List A) → Elem x ys → Elem x (xs ++ ys)
Elem-append_right x [] ys i = i
Elem-append_right x (y ∷ xs) ys i = inr (Elem-append_right x xs ys i)

module _ (nodes : List OrderNode) (edges : List OrderEdge) where
  -- Behind the nodes with the keys `seen`, each reference of n is kept or it is in the warnings.
  abbrev pub IsExplained : List Bytes → List Bytes → OrderNode → Type 0
  IsExplained warnings seen n =
      (e : OrderEdge)
      → Elem e edges
      → is_reference nodes e ≡ true
      → e.source ≡ n.key
      → (contains seen e.target ≡ true) ⊎ Elem (warning nodes e) warnings

  take_node-Accounted :
      (past seen : List Bytes) (st : OrderState) (references : List OrderEdge) (warned : List Bytes)
      (x : OrderNode) (xs : List OrderNode)
      → Inv nodes edges seen (record st { ready = x ∷ xs })
      → Accounted nodes edges past seen st.waiting
      → let next = take_node nodes references warned x xs st in
        IsExplained past seen next.node
        × Accounted nodes edges past (next.node.key ∷ seen) next.state.waiting
  unfolding take_node
  take_node-Accounted past seen st references warned x xs inv a =
      let p = pop_least x xs in
      let readied = pop_least-All (IsReady nodes edges seen st) x xs inv.ready in
      let (is_node, fresh, met, queued) = readied.0 in
      (
        λ e i r s. elim (a e i r) [
          | inl h ↦ inl h
          | inr (inr w) ↦ inr w
          | inr (inl w) ↦ absurd (cc (met, unmet_source st.waiting e w))
        ],
        Accounted-release nodes edges past (p.node.key ∷ seen) p.node.key
            (dependents_of p.node.key references) (record st { ready = p.others })
            (contains-head p.node.key seen)
            (λ e i r. elim (a e i r) [
              | inl h ↦ inl (contains-cons p.node.key e.target seen h)
              | inr w ↦ inr w
            ]),
      )
    where
      unmet_source :
          (ws : List OrderEdge) (e : OrderEdge)
          → waits_for ws e.source e.target ≡ true
          → has_unmet ws e.source ≡ true
      unmet_source ws e h =
          unfold waits_for has_unmet in
          contains_func_mono (from_to e.source e.target) (λ w. str_eq w.source e.source) ws
            (λ w t. and_left _ (str_eq w.target e.target) t) h

  Accounted-clear :
      (past seen : List Bytes) (ws : List OrderEdge) (p : OrderNode)
      → Distinct nodes
      → Elem p nodes
      → Accounted nodes edges past seen ws
      → Accounted nodes edges (past ++ warnings_of nodes ws p) seen (clear_waiting p.key ws)
  Accounted-clear past seen ws p d is_node a e i r = elim (a e i r) [
    | inl h ↦ inl h
    | inr (inr w) ↦ inr (inr (Elem-append_left (warning nodes e) past (warnings_of nodes ws p) w))
    | inr (inl w) ↦ elim (Bool-cases (str_eq e.source p.key)) [
      | inl q ↦ inr (
          inr (
            Elem-append_right (warning nodes e) past (warnings_of nodes ws p)
              (Elem-warnings_of nodes ws p e d is_node (str_eq_sound e.source p.key q) w)))
      | inr q ↦ inr (inl (still_waits q w))
    ]
  ]
    where
      other :
          (w : OrderEdge)
          → str_eq e.source p.key ≡ false
          → from_to e.source e.target w ≡ true
          → str_eq w.source p.key ≡ false
      other w q t = rw (str_eq_sound w.source e.source (and_left _ (str_eq w.target e.target) t)) q

      still_waits :
          str_eq e.source p.key ≡ false
          → waits_for ws e.source e.target ≡ true
          → waits_for (clear_waiting p.key ws) e.source e.target ≡ true
      still_waits q w =
          unfold waits_for clear_waiting in
          contains_func-remove (λ w. str_eq w.source p.key) (from_to e.source e.target) ws
            (λ w t. other w q t) w

  -- What take_node is given as warnings, it passes on.
  warned_of :
      (past seen warned : List Bytes) (references : List OrderEdge) (x : OrderNode)
      (xs : List OrderNode) (st : OrderState)
      → (let next = take_node nodes references warned x xs st in
          IsExplained (past ++ warned) seen next.node
          × Accounted nodes edges (past ++ warned) (next.node.key ∷ seen) next.state.waiting)
      → (let next = take_node nodes references warned x xs st in
          IsExplained (past ++ next.warned) seen next.node
          × Accounted nodes edges (past ++ next.warned) (next.node.key ∷ seen) next.state.waiting)
  unfolding take_node
  warned_of past seen warned references x xs st h = h

  next_node-Accounted :
      (past seen : List Bytes) (st : OrderState) (references : List OrderEdge)
      (ready : List OrderNode) (next : Next)
      → Distinct nodes
      → Inv nodes edges seen (record st { ready = ready })
      → Accounted nodes edges past seen st.waiting
      → next_node nodes references st ready ≡ ok next
      → IsExplained (past ++ next.warned) seen next.node
        × Accounted nodes edges (past ++ next.warned) (next.node.key ∷ seen) next.state.waiting
  next_node-Accounted past seen st references (x ∷ xs) next d inv a h =
      let same =
        ok_inj {E = OrderError} (take_node nodes references [] x xs st) next
          (unfold next_node in h) in
      subst
        (λ next.
          IsExplained (past ++ next.warned) seen next.node
          × Accounted nodes edges (past ++ next.warned) (next.node.key ∷ seen) next.state.waiting)
        same
        (warned_of past seen [] references x xs st
          (rw (append-nil past) (take_node-Accounted past seen st references [] x xs inv a)))
  next_node-Accounted past seen st references [] next d inv a h =
      elim (Option-cases (pick_from st none nodes)) [
        | inl e ↦ absurd (cc (next_node_stuck nodes edges st references e, h))
        | inr (p, e) ↦
            let (is_node, breakable) =
              pick_from-some nodes edges st nodes none p (λ n i. i) (λ n q. absurd (cc q)) e in
            let same =
              ok_inj {E = OrderError} _ next
                (sym (next_node_picked nodes edges st references p e) ∙ h) in
            subst
              (λ next.
                IsExplained (past ++ next.warned) seen next.node
                × Accounted nodes edges (past ++ next.warned) (next.node.key ∷ seen)
                    next.state.waiting)
              same
              (warned_of past seen (warnings_of nodes st.waiting p) references p []
                (broken_at nodes edges st p)
                (take_node-Accounted (past ++ warnings_of nodes st.waiting p) seen
                  (broken_at nodes edges st p) references (warnings_of nodes st.waiting p) p []
                  (picked-Inv nodes edges seen st p inv is_node breakable)
                  (Accounted-clear past seen st.waiting p d is_node a)))
      ]

  -- Every reference of a node of the order is kept by the order, or it is in the warnings.
  abbrev pub AllExplained : List Bytes → List Bytes → List OrderNode → Type 0
  AllExplained warnings seen [] = Unit
  AllExplained warnings seen (n ∷ ns) =
      IsExplained warnings seen n × AllExplained warnings (n.key ∷ seen) ns

  IsExplained-append :
      (past later seen : List Bytes) (n : OrderNode)
      → IsExplained past seen n
      → IsExplained (past ++ later) seen n
  IsExplained-append past later seen n h e i r s = elim (h e i r s) [
    | inl k ↦ inl k
    | inr w ↦ inr (Elem-append_left (warning nodes e) past later w)
  ]

  order_from-AllExplained :
      (k : ℕ) (past seen : List Bytes) (st : OrderState) (references : List OrderEdge) (r : Ordered)
      → Distinct nodes
      → Inv nodes edges seen st
      → Accounted nodes edges past seen st.waiting
      → order_from nodes references k st ≡ ok r
      → AllExplained (past ++ r.warnings) seen r.order
  order_from-AllExplained zero past seen st references r d inv a h =
      let same =
        ok_inj {E = OrderError} (record { order = []; warnings = [] }) r (unfold order_from in h) in
      rw (← same) tt
  order_from-AllExplained (suc k) past seen st references r d inv a h =
      let (next, one, later) =
        bind_ok (next_node nodes references st st.ready) _ r
          (sym (order_from-suc nodes edges k st references) ∙ h) in
      let (rest, ordered, same) = bind_ok (order_from nodes references k next.state) _ r later in
      let (is_next, after) = next_node-Inv nodes edges seen st references st.ready next inv one in
      let (explained, left) =
        next_node-Accounted past seen st references st.ready next d inv a one in
      let all =
        order_from-AllExplained k (past ++ next.warned) (next.node.key ∷ seen) next.state references
          rest d after left ordered in
      let r_lem =
        ok_inj {E = OrderError}
          (record { order = next.node ∷ rest.order; warnings = next.warned ++ rest.warnings }) r
          same in
      let joined = append_assoc past next.warned rest.warnings in
      subst (λ r. AllExplained (past ++ r.warnings) seen r.order) r_lem
        (subst
          (λ w. IsExplained w seen next.node × AllExplained w (next.node.key ∷ seen) rest.order)
          joined
          (IsExplained-append (past ++ next.warned) rest.warnings seen next.node explained, all))

-- A reference of a returned order that the order does not keep, because its target stands behind its
-- source, is in the warnings as a broken cycle, by the names of its two nodes; self-references and
-- those to nodes that are not in the set left out.
pub order_objects-AllExplained :
    (nodes : List OrderNode) (edges : List OrderEdge) (r : Ordered)
    → order_objects nodes edges ≡ ok r
    → AllExplained nodes edges r.warnings [] r.order
order_objects-AllExplained nodes edges r h = elim (Option-cases (duplicate_from [] nodes)) [
  | inr (k, e) ↦ absurd (cc (order_objects-some nodes edges k e, h))
  | inl e ↦
      let ws = waiting_of nodes [] edges in
      order_from-AllExplained nodes edges (length nodes) [] [] (first_state nodes ws) ws r
        (duplicate_from-Distinct [] nodes e) (first_state-Inv nodes edges e)
        (unfold first_state in (λ e i r. inr (inl (waits_for-waiting_of nodes [] edges e i r))))
        (sym (order_objects-none nodes edges e) ∙ h)
]
