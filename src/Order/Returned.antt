-- ===== src/Order/Returned.antt =====
-- An order that is returned puts every object behind those it is bound to.
use gosmo.Base.{
  ℕ, zero, suc, ◌≡◌, ◌≢◌, refl, ap, sym, subst, ◌∙◌, Bool, true, false, List, [], ◌∷◌, none, some,
  Bytes, str_eq, contains, All, length, Bool-cases, Option-cases, inl, inr, or_false_left,
  or_false_right, ok, err, ◌>>=◌, ok_inj, bind_ok, ◌++◌,
}
use gosmo.Restore.Plan.Sound.{Elem}
use gosmo.Order.{
  OrderNode, OrderEdge, keys, waiting_of, has_unmet, remove, OrderState, next_node, Ordered,
  OrderError, duplicate_key, order_from, duplicate_from, first_state, order_objects,
}
use gosmo.Order.Waiting.{All-remove, AllFrom-waiting_of, holds-waiting_of}
use gosmo.Order.Invariant.{Distinct, contains-cons, contains-head, All-weaken, IsReady, Inv}
use gosmo.Order.Sound.{IsNext, next_node-Inv}

module _ (nodes : List OrderNode) (edges : List OrderEdge) where
  -- Every node of the order is a node of the set, it stands there once, and behind the targets of all
  -- its bound references; `seen` are the keys in front.
  abbrev pub IsOrder : List Bytes → List OrderNode → Type 0
  IsOrder seen [] = Unit
  IsOrder seen (n ∷ ns) = IsNext nodes edges seen n × IsOrder (n.key ∷ seen) ns

  pub order_from-suc :
      (k : ℕ) (st : OrderState) (references : List OrderEdge)
      → order_from nodes references (suc k) st ≡ (
          next_node nodes references st st.ready >>= (λ next.
            order_from nodes references k next.state >>= (λ rest. ok (record {
              order = next.node ∷ rest.order;
              warnings = next.warned ++ rest.warnings;
            }))))
  unfolding order_from
  order_from-suc k st references = refl

  order_from-IsOrder :
      (k : ℕ) (seen : List Bytes) (st : OrderState) (references : List OrderEdge) (r : Ordered)
      → Inv nodes edges seen st
      → order_from nodes references k st ≡ ok r
      → IsOrder seen r.order × (length r.order ≡ k)
  order_from-IsOrder zero seen st references r inv h =
      let same =
        ok_inj {E = OrderError} (record { order = []; warnings = [] }) r (unfold order_from in h) in
      rw (← same) (tt, refl)
  order_from-IsOrder (suc k) seen st references r inv h =
      let (next, one, later) =
        bind_ok (next_node nodes references st st.ready) _ r
          (sym (order_from-suc k st references) ∙ h) in
      let (rest, ordered, same) = bind_ok (order_from nodes references k next.state) _ r later in
      let (is_next, after) = next_node-Inv nodes edges seen st references st.ready next inv one in
      let (is_order, size) =
        order_from-IsOrder k (next.node.key ∷ seen) next.state references rest after ordered in
      let r_lem =
        ok_inj {E = OrderError}
          (record { order = next.node ∷ rest.order; warnings = next.warned ++ rest.warnings }) r
          same in
      subst (λ r. IsOrder seen r.order × (length r.order ≡ suc k)) r_lem
        ((is_next, is_order), ap suc size)

-- The nodes that are ready at first.
remove_met :
    (nodes : List OrderNode) (p : OrderNode → Bool) (ns : List OrderNode)
    → ((n : OrderNode) → Elem n ns → Elem n nodes)
    → All (λ n. Elem n nodes × (p n ≡ false)) (remove p ns)
remove_met nodes p [] h = tt
remove_met nodes p (n ∷ ns) h = elim (Bool-cases (p n)) [
  | inl e ↦ rw e (remove_met nodes p ns (λ m i. h m (inr i)))
  | inr e ↦ rw e ((h n (inl refl), e), remove_met nodes p ns (λ m i. h m (inr i)))
]

Distinct-remove :
    (p : OrderNode → Bool) (ns : List OrderNode) → Distinct ns → Distinct (remove p ns)
Distinct-remove p [] h = h
Distinct-remove p (n ∷ ns) h = elim (Bool-cases (p n)) [
  | inl e ↦ rw e (Distinct-remove p ns (h.1))
  | inr e ↦
      rw e (All-remove (λ m. str_eq n.key m.key ≡ false) p ns (h.0), Distinct-remove p ns (h.1))
]

pub All-Elem : {A : Type 0} (ns : List A) (P : A → Type 0) → ((n : A) → Elem n ns → P n) → All P ns
All-Elem [] P h = tt
All-Elem (n ∷ ns) P h = (h n (inl refl), All-Elem ns P (λ m i. h m (inr i)))

pub All-at : {A : Type 0} (ns : List A) (P : A → Type 0) → All P ns → (n : A) → Elem n ns → P n
All-at [] P h n i = absurd i
All-at (m ∷ ns) P h n (inl e) = rw e (h.0)
All-at (m ∷ ns) P h n (inr i) = All-at ns P (h.1) n i

none_seen : (k : Bytes) → contains [] k ≢ true
unfolding contains
none_seen k h = cc h

contains-keys : (n : OrderNode) (ns : List OrderNode) → Elem n ns → contains (keys ns) n.key ≡ true
contains-keys n [] h = absurd h
contains-keys n (m ∷ ns) (inl e) = rw e (contains-head m.key (keys ns))
contains-keys n (m ∷ ns) (inr i) = contains-cons m.key n.key (keys ns) (contains-keys n ns i)

-- A list in which no key stands twice.
duplicate_from_step :
    (seen : List Bytes) (n : OrderNode) (ns : List OrderNode)
    → duplicate_from seen (n ∷ ns) ≡ none
    → (contains seen n.key ≡ false) × (duplicate_from (n.key ∷ seen) ns ≡ none)
unfolding duplicate_from
duplicate_from_step seen n ns h = elim (Bool-cases (contains seen n.key)) [
  | inl e ↦ absurd (let z : some n.key ≡ none = rw e at h in cc z)
  | inr e ↦ (e, rw e at h)
]

contains-tail :
    (k a : Bytes) (ks : List Bytes)
    → contains (k ∷ ks) a ≡ false
    → (str_eq k a ≡ false) × (contains ks a ≡ false)
unfolding contains
contains-tail k a ks h = (or_false_left _ _ h, or_false_right _ _ h)

not_seen :
    (seen : List Bytes) (ns : List OrderNode)
    → duplicate_from seen ns ≡ none
    → All (λ n. contains seen n.key ≡ false) ns
not_seen seen [] h = tt
not_seen seen (n ∷ ns) h =
    let (fresh, later) = duplicate_from_step seen n ns h in
    (
      fresh,
      All-weaken (λ m. contains (n.key ∷ seen) m.key ≡ false) (λ m. contains seen m.key ≡ false) ns
          (λ m e. (contains-tail n.key m.key seen e).1) (not_seen (n.key ∷ seen) ns later),
    )

pub duplicate_from-Distinct :
    (seen : List Bytes) (ns : List OrderNode) → duplicate_from seen ns ≡ none → Distinct ns
duplicate_from-Distinct seen [] h = tt
duplicate_from-Distinct seen (n ∷ ns) h =
    let (fresh, later) = duplicate_from_step seen n ns h in
    (
      All-weaken (λ m. contains (n.key ∷ seen) m.key ≡ false) (λ m. str_eq n.key m.key ≡ false) ns
          (λ m e. (contains-tail n.key m.key seen e).0) (not_seen (n.key ∷ seen) ns later),
      duplicate_from-Distinct (n.key ∷ seen) ns later,
    )

keys_queued :
    (nodes : List OrderNode) (edges ws : List OrderEdge) (ns : List OrderNode)
    → All (λ n. Elem n nodes × (has_unmet ws n.key ≡ false)) ns
    → All (IsReady nodes edges [] (record { waiting = ws; ready = ns; queued = keys ns })) ns
keys_queued nodes edges ws ns h =
    All-Elem ns (IsReady nodes edges [] (record { waiting = ws; ready = ns; queued = keys ns }))
      (λ n i.
        let (is_node, met) = All-at ns (λ n. Elem n nodes × (has_unmet ws n.key ≡ false)) h n i in
        (is_node, unfold contains in refl, met, contains-keys n ns i))

pub first_state-Inv :
    (nodes : List OrderNode) (edges : List OrderEdge)
    → duplicate_from [] nodes ≡ none
    → Inv nodes edges [] (first_state nodes (waiting_of nodes [] edges))
unfolding first_state
first_state-Inv nodes edges h =
    let ws = waiting_of nodes [] edges in
    record {
      ready =
          keys_queued nodes edges ws (remove (λ n. has_unmet ws n.key) nodes)
            (remove_met nodes (λ n. has_unmet ws n.key) nodes (λ n i. i));
      distinct =
          Distinct-remove (λ n. has_unmet ws n.key) nodes (duplicate_from-Distinct [] nodes h);
      queued = λ k e. absurd (none_seen k e);
      nodes_only = AllFrom-waiting_of nodes [] edges tt;
      unmet = λ e i r b. inr (holds-waiting_of nodes [] edges e i r b);
    }

pub order_objects-none :
    (nodes : List OrderNode) (edges : List OrderEdge)
    → duplicate_from [] nodes ≡ none
    → order_objects nodes edges ≡ (
        let ws = waiting_of nodes [] edges in
        order_from nodes ws (length nodes) (first_state nodes ws))
unfolding order_objects
order_objects-none nodes edges e = rw (e, order_objects) refl

pub order_objects-some :
    (nodes : List OrderNode) (edges : List OrderEdge) (k : Bytes)
    → duplicate_from [] nodes ≡ some k
    → order_objects nodes edges ≡ err (duplicate_key k)
unfolding order_objects
order_objects-some nodes edges k e = rw (e, order_objects) refl

-- An order that is returned holds as many nodes as the set, all of the set and no key twice, so it
-- is the whole set; and every node stands behind the targets of its bound references, those to
-- itself and to nodes that are not in the set left out, whatever the edges are.
pub order_objects-IsOrder :
    (nodes : List OrderNode) (edges : List OrderEdge) (r : Ordered)
    → order_objects nodes edges ≡ ok r
    → IsOrder nodes edges [] r.order × (length r.order ≡ length nodes)
order_objects-IsOrder nodes edges r h = elim (Option-cases (duplicate_from [] nodes)) [
  | inr (k, e) ↦ absurd (cc (order_objects-some nodes edges k e, h))
  | inl e ↦
      let ws = waiting_of nodes [] edges in
      order_from-IsOrder nodes edges (length nodes) [] (first_state nodes ws) ws r
        (first_state-Inv nodes edges e) (sym (order_objects-none nodes edges e) ∙ h)
]
