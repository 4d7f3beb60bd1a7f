-- ===== src/Order/Sound.antt =====
-- One round of the main loop keeps the invariant.
use gosmo.Base.{
  ◌≡◌, refl, ap, sym, subst, ◌∙◌, true, false, not, ◌&&◌, List, [], ◌∷◌, Option, none, some, Bytes,
  str_eq, str_eq_sound, contains, contains_func, All, Bool-cases, Option-cases, inl, inr, and_left,
  and_right, and_intro, or_cases, not-true, ok, err, ok_inj,
}
use gosmo.Restore.Plan.Sound.{Elem}
use gosmo.Order.{
  OrderNode, OrderEdge, from_to, bound_from_to, keys, is_reference, has_unmet, remove,
  clear_waiting, dependents_of, OrderState, enqueue, is_breakable, is_better, pick_from, pop_least,
  Next, take_node, next_node, OrderError, bound_cycle, sort_texts, warnings_of,
}
use gosmo.Order.Waiting.{
  contains_func_mono, contains_func-remove, contains_func-remove_self, has_unmet-holds,
}
use gosmo.Order.Invariant.{
  contains-cons_false, contains-cons, contains-head, pop_least-All, pop_least-Distinct, IsReady,
  AreUnmet, Inv, met-Inv, enqueue-Inv,
}
use gosmo.Order.Release.{release-Inv}

module _ (nodes : List OrderNode) (edges : List OrderEdge) where
  -- What holds of a node when it is emitted behind those with the keys `seen`.
  abbrev pub IsNext : List Bytes → OrderNode → Type 0
  IsNext seen n =
      Elem n nodes
      × (contains seen n.key ≡ false)
      × ((e : OrderEdge)
          → Elem e edges
          → is_reference nodes e ≡ true
          → e.bound ≡ true
          → e.source ≡ n.key
          → contains seen e.target ≡ true)

  popped_others :
      (seen : List Bytes) (st : OrderState) (n : OrderNode) (others : List OrderNode)
      → contains st.queued n.key ≡ true
      → All (IsReady nodes edges seen st) others
      → All (λ m. str_eq n.key m.key ≡ false) others
      → All (IsReady nodes edges (n.key ∷ seen) st) others
  popped_others seen st n [] q h d = tt
  popped_others seen st n (m ∷ others) q ((a, b, c, e), h) d = (
    (a, contains-cons_false n.key m.key seen (d.0) b, c, e),
    popped_others seen st n others q h (d.1),
  )

  -- The node that is popped, and the state behind it.
  popped-Inv :
      (seen : List Bytes) (st : OrderState) (n : OrderNode) (others : List OrderNode)
      → Inv nodes edges seen (record st { ready = n ∷ others })
      → IsNext seen n × Inv nodes edges (n.key ∷ seen) (record st { ready = others })
  popped-Inv seen st n others inv =
      let (is_node, fresh, met, queued) = inv.ready.0 in
      (
        (
          is_node,
          fresh,
          λ e i r b s. elim (inv.unmet e i r b) [
            | inl h ↦ h
            | inr h ↦ absurd (
                cc (
                  met,
                  has_unmet-holds st.waiting e.source e.target h,
                  ap (has_unmet st.waiting) s,
                ))
          ],
        ),
        record {
          ready = popped_others seen st n others queued (inv.ready.1) (inv.distinct.0);
          distinct = inv.distinct.1;
          queued = λ k h. still_queued queued k h;
          nodes_only = inv.nodes_only;
          unmet = λ e i r b. elim (inv.unmet e i r b) [
            | inl h ↦ inl (contains-cons n.key e.target seen h)
            | inr h ↦ inr h
          ];
        },
      )
    where
      still_queued :
          contains st.queued n.key ≡ true
          → (k : Bytes) → contains (n.key ∷ seen) k ≡ true
          → contains st.queued k ≡ true
      still_queued q k h =
          elim (or_cases (str_eq n.key k) (contains seen k) (unfold contains in h)) [
            | inl e ↦ subst (λ k. contains st.queued k ≡ true) (str_eq_sound n.key k e) q
            | inr e ↦ inv.queued k e
          ]

  take_node-Inv :
      (seen : List Bytes) (st : OrderState) (references : List OrderEdge) (warned : List Bytes)
      (x : OrderNode) (xs : List OrderNode)
      → Inv nodes edges seen (record st { ready = x ∷ xs })
      → let next = take_node nodes references warned x xs st in
        IsNext seen next.node × Inv nodes edges (next.node.key ∷ seen) next.state
  unfolding take_node
  take_node-Inv seen st references warned x xs inv =
      let p = pop_least x xs in
      let readied = pop_least-All (IsReady nodes edges seen st) x xs inv.ready in
      let inv' : Inv nodes edges seen (record st { ready = p.node ∷ p.others }) = record {
        ready = readied;
        distinct = pop_least-Distinct x xs inv.distinct;
        queued = inv.queued;
        nodes_only = inv.nodes_only;
        unmet = inv.unmet;
      } in
      let (is_next, after) = popped-Inv seen st p.node p.others inv' in
      (
        is_next,
        release-Inv nodes edges (p.node.key ∷ seen) p.node.key (dependents_of p.node.key references)
            (record st { ready = p.others }) (contains-head p.node.key seen) after,
      )

  pub pick_from-some :
      (st : OrderState) (ns : List OrderNode) (pick : Option OrderNode) (p : OrderNode)
      → ((n : OrderNode) → Elem n ns → Elem n nodes)
      → ((n : OrderNode) → pick ≡ some n → Elem n nodes × (is_breakable st n ≡ true))
      → pick_from st pick ns ≡ some p
      → Elem p nodes × (is_breakable st p ≡ true)
  unfolding pick_from
  pick_from-some st [] pick p within found h = found p h
  pick_from-some st (n ∷ ns) pick p within found h =
      elim (Bool-cases (is_breakable st n && is_better n pick)) [
        | inl e ↦
            pick_from-some st ns (some n) p (λ m i. within m (inr i))
              (λ m q.
                let same : n ≡ m = cc q in
                rw (← same) (within n (inl refl), and_left _ (is_better n pick) e))
              (rw e at h)
        | inr e ↦ pick_from-some st ns pick p (λ m i. within m (inr i)) found (rw e at h)
      ]

  AreUnmet-clear :
      (seen : List Bytes) (ws : List OrderEdge) (k : Bytes)
      → contains_func (λ w. w.bound && str_eq w.source k) ws ≡ false
      → AreUnmet nodes edges seen ws
      → AreUnmet nodes edges seen (remove (λ w. str_eq w.source k) ws)
  AreUnmet-clear seen ws k unbound u e i r b = elim (u e i r b) [
    | inl h ↦ inl h
    | inr h ↦ elim (Bool-cases (str_eq e.source k)) [
      | inl q ↦
          let held : contains_func (λ w. w.bound && str_eq w.source k) ws ≡ true =
            contains_func_mono (bound_from_to e.source e.target) (λ w. w.bound && str_eq w.source k)
              ws
              (λ w t.
                and_intro _ _ (and_left _ (from_to e.source e.target w) t) (same_source w q t))
              h in
          absurd (cc (held, unbound))
      | inr q ↦ inr (
          contains_func-remove (λ w. str_eq w.source k) (bound_from_to e.source e.target) ws
            (λ w t. other_source w q t) h)
    ]
  ]
    where
      source_of : (w : OrderEdge) → bound_from_to e.source e.target w ≡ true → w.source ≡ e.source
      source_of w t =
          str_eq_sound w.source e.source
            (and_left _ (str_eq w.target e.target) (and_right w.bound _ t))

      same_source :
          (w : OrderEdge)
          → str_eq e.source k ≡ true
          → bound_from_to e.source e.target w ≡ true
          → str_eq w.source k ≡ true
      same_source w q t = rw (source_of w t) q

      other_source :
          (w : OrderEdge)
          → str_eq e.source k ≡ false
          → bound_from_to e.source e.target w ≡ true
          → str_eq w.source k ≡ false
      other_source w q t = rw (source_of w t) q

  -- The node that a cycle is broken at is ready when its references are cleared.
  pub picked-Inv :
      (seen : List Bytes) (st : OrderState) (p : OrderNode)
      → Inv nodes edges seen (record st { ready = [] })
      → Elem p nodes
      → is_breakable st p ≡ true
      → Inv nodes edges seen (record {
        waiting = clear_waiting p.key st.waiting;
        ready = p ∷ [];
        queued = p.key ∷ st.queued;
      })
  picked-Inv seen st p inv is_node breakable =
      let idle : OrderState = record { waiting = st.waiting; ready = []; queued = st.queued } in
      let cleared =
        met-Inv nodes edges seen idle (λ w. str_eq w.source p.key) inv
          (AreUnmet-clear seen st.waiting p.key unbound inv.unmet) in
      unfold enqueue clear_waiting in
      enqueue-Inv nodes edges seen
        (record idle { waiting = remove (λ w. str_eq w.source p.key) st.waiting }) p cleared is_node
        none_unmet fresh
    where
      fresh : contains st.queued p.key ≡ false
      fresh =
          unfold is_breakable in
          not-true _ (
            and_left _ (not (contains_func (λ w. w.bound && str_eq w.source p.key) st.waiting))
              breakable)

      unbound : contains_func (λ w. w.bound && str_eq w.source p.key) st.waiting ≡ false
      unbound =
          unfold is_breakable in not-true _ (and_right (not (contains st.queued p.key)) _ breakable)

      none_unmet : has_unmet (remove (λ w. str_eq w.source p.key) st.waiting) p.key ≡ false
      none_unmet =
          unfold has_unmet in contains_func-remove_self (λ w. str_eq w.source p.key) st.waiting

  abbrev pub broken_at : OrderState → OrderNode → OrderState
  broken_at st p = record {
    waiting = clear_waiting p.key st.waiting;
    ready = [];
    queued = p.key ∷ st.queued;
  }

  pub next_node_picked :
      (st : OrderState) (references : List OrderEdge) (p : OrderNode)
      → pick_from st none nodes ≡ some p
      → next_node nodes references st []
        ≡ ok (take_node nodes references (warnings_of nodes st.waiting p) p [] (broken_at st p))
  unfolding next_node
  next_node_picked st references p e = rw (e, next_node) refl

  pub next_node_stuck :
      (st : OrderState) (references : List OrderEdge)
      → pick_from st none nodes ≡ none
      → next_node nodes references st []
        ≡ err (bound_cycle (sort_texts (keys (remove (λ n. contains st.queued n.key) nodes))))
  unfolding next_node
  next_node_stuck st references e = rw (e, next_node) refl

  pub next_node-Inv :
      (seen : List Bytes) (st : OrderState) (references : List OrderEdge) (ready : List OrderNode)
      (next : Next)
      → Inv nodes edges seen (record st { ready = ready })
      → next_node nodes references st ready ≡ ok next
      → IsNext seen next.node × Inv nodes edges (next.node.key ∷ seen) next.state
  next_node-Inv seen st references (x ∷ xs) next inv h =
      let same =
        ok_inj {E = OrderError} (take_node nodes references [] x xs st) next
          (unfold next_node in h) in
      subst (λ next. IsNext seen next.node × Inv nodes edges (next.node.key ∷ seen) next.state) same
        (take_node-Inv seen st references [] x xs inv)
  next_node-Inv seen st references [] next inv h = elim (Option-cases (pick_from st none nodes)) [
    | inl e ↦ absurd (cc (next_node_stuck st references e, h))
    | inr (p, e) ↦
        let (is_node, breakable) =
          pick_from-some st nodes none p (λ n i. i) (λ n q. absurd (cc q)) e in
        let same = ok_inj {E = OrderError} _ next (sym (next_node_picked st references p e) ∙ h) in
        subst (λ next. IsNext seen next.node × Inv nodes edges (next.node.key ∷ seen) next.state)
          same
          (take_node-Inv seen (broken_at st p) references (warnings_of nodes st.waiting p) p []
            (picked-Inv seen st p inv is_node breakable))
  ]
