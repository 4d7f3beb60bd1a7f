-- ===== src/Order/Invariant.antt =====
-- The invariant of the main loop, and the heap's operations.
use gosmo.Base.{
  ◌≡◌, refl, ap, sym, subst, Bool, true, false, List, [], ◌∷◌, ◌⊎◌, Bytes, str_eq, str_eq_sound,
  str_eq_refl, contains, contains_func, All, Bool-cases, inl, inr, and_right, or_cases,
  or_intro_left, or_intro_right, or_false_intro,
}
use gosmo.Restore.Plan.Sound.{Elem}
use gosmo.Order.{
  OrderNode, OrderEdge, from_to, bound_from_to, keys, is_reference, has_unmet, remove, by_key,
  OrderState, enqueue, pop_least, less,
}
use gosmo.Order.Waiting.{contains_func-remove-false, All-remove, holds, AllFrom}

-- No two nodes of a list have one key.
abbrev pub Distinct : List OrderNode → Type 0
Distinct [] = Unit
Distinct (n ∷ ns) = All (λ m. str_eq n.key m.key ≡ false) ns × Distinct ns

pub str_eq_sym : (a b : Bytes) → str_eq a b ≡ false → str_eq b a ≡ false
str_eq_sym a b h = elim (Bool-cases (str_eq b a)) [
  | inl e ↦ absurd (cc (h, str_eq_refl a, ap (str_eq a) (str_eq_sound b a e)))
  | inr e ↦ e
]

-- A key that is in a list and one that is not.
pub contains_differ :
    (ks : List Bytes) (a b : Bytes)
    → contains ks a ≡ true
    → contains ks b ≡ false
    → str_eq a b ≡ false
contains_differ ks a b h k = elim (Bool-cases (str_eq a b)) [
  | inl e ↦ absurd (cc (h, k, ap (contains ks) (str_eq_sound a b e)))
  | inr e ↦ e
]

pub contains-cons_false :
    (k a : Bytes) (ks : List Bytes)
    → str_eq k a ≡ false
    → contains ks a ≡ false
    → contains (k ∷ ks) a ≡ false
unfolding contains
contains-cons_false k a ks h e = or_false_intro _ _ h e

pub contains-cons :
    (k a : Bytes) (ks : List Bytes) → contains ks a ≡ true → contains (k ∷ ks) a ≡ true
unfolding contains
contains-cons k a ks h = or_intro_right _ _ h

pub contains-head : (k : Bytes) (ks : List Bytes) → contains (k ∷ ks) k ≡ true
unfolding contains
contains-head k ks = or_intro_left _ _ (str_eq_refl k)

pub All-weaken {ℓ κ} :
    {A : Type ℓ} (P Q : A → Type κ) (xs : List A) → ((x : A) → P x → Q x) → All P xs → All Q xs
All-weaken P Q [] f h = tt
All-weaken P Q (x ∷ xs) f h = (f x (h.0), All-weaken P Q xs f (h.1))

-- heap.Pop takes one node and leaves the others.
pub pop_least-All :
    (P : OrderNode → Type 0) (x : OrderNode) (xs : List OrderNode)
    → All P (x ∷ xs)
    → P (pop_least x xs).node × All P (pop_least x xs).others
pop_least-All P x [] h = unfold pop_least in h
pop_least-All P x (y ∷ ys) h = chosen (pop_least-All P y ys (h.1))
  where
    chosen :
        P (pop_least y ys).node × All P (pop_least y ys).others
        → P (pop_least x (y ∷ ys)).node × All P (pop_least x (y ∷ ys)).others
    chosen r =
        unfold pop_least in
        elim (Bool-cases (less (pop_least y ys).node x)) [
          | inl l ↦ rw l (r.0, (h.0, r.1))
          | inr l ↦ rw l h
        ]

pub pop_least-Distinct :
    (x : OrderNode) (xs : List OrderNode)
    → Distinct (x ∷ xs)
    → Distinct ((pop_least x xs).node ∷ (pop_least x xs).others)
pop_least-Distinct x [] h = unfold pop_least in h
pop_least-Distinct x (y ∷ ys) h =
    chosen (pop_least-Distinct y ys (h.1))
      (pop_least-All (λ m. str_eq x.key m.key ≡ false) y ys (h.0))
  where
    chosen :
        Distinct ((pop_least y ys).node ∷ (pop_least y ys).others)
        → (str_eq x.key (pop_least y ys).node.key ≡ false)
          × All (λ m. str_eq x.key m.key ≡ false) (pop_least y ys).others
        → Distinct ((pop_least x (y ∷ ys)).node ∷ (pop_least x (y ∷ ys)).others)
    chosen r q =
        unfold pop_least in
        elim (Bool-cases (less (pop_least y ys).node x)) [
          | inl l ↦ rw l ((str_eq_sym x.key (pop_least y ys).node.key (q.0), r.0), (q.1, r.1))
          | inr l ↦ rw l h
        ]

pub by_key_first :
    (n : OrderNode) (ns : List OrderNode) (k : Bytes)
    → str_eq n.key k ≡ true
    → by_key (n ∷ ns) k ≡ n
unfolding by_key
by_key_first n ns k e = rw e refl

pub by_key_other :
    (n : OrderNode) (ns : List OrderNode) (k : Bytes)
    → str_eq n.key k ≡ false
    → by_key (n ∷ ns) k ≡ by_key ns k
unfolding by_key
by_key_other n ns k e = rw e refl

pub not_same_target :
    (s t d k : Bytes) (w : OrderEdge)
    → str_eq t k ≡ false
    → bound_from_to s t w ≡ true
    → from_to d k w ≡ false
not_same_target s t d k w n h = elim (Bool-cases (from_to d k w)) [
  | inr e ↦ e
  | inl e ↦
      let is_t =
        str_eq_sound w.target t (and_right _ (str_eq w.target t) (and_right w.bound _ h)) in
      let is_k = and_right (str_eq w.source d) (str_eq w.target k) e in
      absurd (cc (n, is_k, ap (λ x. str_eq x k) is_t))
]

module _ (nodes : List OrderNode) (edges : List OrderEdge) where
  -- A node of the heap: its references are met, it was queued, and it is not yet emitted.
  abbrev pub IsReady : List Bytes → OrderState → OrderNode → Type 0
  IsReady seen st m =
      Elem m nodes
      × (contains seen m.key ≡ false)
      × (has_unmet st.waiting m.key ≡ false)
      × (contains st.queued m.key ≡ true)

  -- A bound reference to a node that is not yet emitted is unmet.
  abbrev pub AreUnmet : List Bytes → List OrderEdge → Type 0
  AreUnmet seen ws =
      (e : OrderEdge)
      → Elem e edges
      → is_reference nodes e ≡ true
      → e.bound ≡ true
      → (contains seen e.target ≡ true) ⊎ (holds ws e.source e.target ≡ true)

  -- The state of the loop when the nodes with the keys `seen` are emitted.
  pub record Inv (seen : List Bytes) (st : OrderState) : Type 0 where
    pub ready : All (IsReady seen st) st.ready
    pub distinct : Distinct st.ready
    pub queued : (k : Bytes) → contains seen k ≡ true → contains st.queued k ≡ true
    pub nodes_only : AllFrom nodes st.waiting
    pub unmet : AreUnmet seen st.waiting

  pub contains-by_key :
      (ns : List OrderNode) (k : Bytes)
      → contains (keys ns) k ≡ true
      → Elem (by_key ns k) ns × ((by_key ns k).key ≡ k)
  contains-by_key [] k h = absurd (let z : false ≡ true = unfold contains in h in cc z)
  contains-by_key (n ∷ ns) k h = elim (Bool-cases (str_eq n.key k)) [
    | inl e ↦ rw (by_key_first n ns k e) (inl refl, str_eq_sound n.key k e)
    | inr e ↦
        let (l, q) = contains-by_key ns k (later e) in
        subst (λ m. Elem m (n ∷ ns) × (m.key ≡ k)) (sym (by_key_other n ns k e)) (inr l, q)
  ]
    where
      later : str_eq n.key k ≡ false → contains (keys ns) k ≡ true
      later e = unfold contains in rw e at h

  pub AllFrom-contains_func :
      (p : OrderEdge → Bool) (d : Bytes) (ws : List OrderEdge)
      → AllFrom nodes ws
      → ((w : OrderEdge) → p w ≡ true → w.source ≡ d)
      → contains_func p ws ≡ true
      → contains (keys nodes) d ≡ true
  AllFrom-contains_func p d [] a h e = absurd (cc e)
  AllFrom-contains_func p d (w ∷ ws) a h e = elim (or_cases (p w) _ e) [
    | inl t ↦ rw (← h w t) (a.0)
    | inr t ↦ AllFrom-contains_func p d ws (a.1) h t
  ]

  -- Fewer references are unmet: what was met stays met.
  pub met-Inv :
      (seen : List Bytes) (st : OrderState) (p : OrderEdge → Bool)
      → Inv seen st
      → AreUnmet seen (remove p st.waiting)
      → Inv seen (record st { waiting = remove p st.waiting })
  met-Inv seen st p inv u = record {
    ready =
        All-weaken (IsReady seen st) (IsReady seen (record st { waiting = remove p st.waiting }))
          st.ready (λ m (a, b, c, d). (a, b, fewer m c, d)) inv.ready;
    distinct = inv.distinct;
    queued = inv.queued;
    nodes_only =
        All-remove (λ w. contains (keys nodes) w.source ≡ true) p st.waiting inv.nodes_only;
    unmet = u;
  }
    where
      fewer :
          (m : OrderNode)
          → has_unmet st.waiting m.key ≡ false
          → has_unmet (remove p st.waiting) m.key ≡ false
      fewer m c =
          unfold has_unmet in contains_func-remove-false p (λ w. str_eq w.source m.key) st.waiting c

  -- A node that was not queued, with no unmet references, is put in the heap.
  pub enqueue-Inv :
      (seen : List Bytes) (st : OrderState) (n : OrderNode)
      → Inv seen st
      → Elem n nodes
      → has_unmet st.waiting n.key ≡ false
      → contains st.queued n.key ≡ false
      → Inv seen (enqueue n st)
  enqueue-Inv seen st n inv is_node met fresh =
      unfold enqueue in
      record {
        ready = (
          (is_node, not_seen, met, contains-head n.key st.queued),
          All-weaken (IsReady seen st)
              (IsReady seen (record st { ready = n ∷ st.ready; queued = n.key ∷ st.queued }))
              st.ready (λ m (a, b, c, d). (a, b, c, contains-cons n.key m.key st.queued d))
              inv.ready,
        );
        distinct = (
          All-weaken (IsReady seen st) (λ m. str_eq n.key m.key ≡ false) st.ready
              (λ m (a, b, c, d).
                str_eq_sym m.key n.key (contains_differ st.queued m.key n.key d fresh))
              inv.ready,
          inv.distinct,
        );
        queued = λ k h. contains-cons n.key k st.queued (inv.queued k h);
        nodes_only = inv.nodes_only;
        unmet = inv.unmet;
      }
    where
      not_seen : contains seen n.key ≡ false
      not_seen = elim (Bool-cases (contains seen n.key)) [
        | inl e ↦ absurd (cc (inv.queued n.key e, fresh))
        | inr e ↦ e
      ]
