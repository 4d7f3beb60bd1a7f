-- ===== src/Order/Total.antt =====
-- What an open reference is, and that the rounds of the loop keep it.
use gosmo.Base.{
  ℕ, suc, ◌<◌, ◌≡◌, refl, ap, Bool, true, false, ◌&&◌, ◌||◌, List, [], ◌∷◌, Option, none, some,
  Bytes, arith, if◌then◌else◌, str_eq, str_eq_sound, contains, contains_func, All, length,
  Bool-cases, inl, inr, and_intro, or_cases, or_false_left, or_false_right, or_false_intro,
}
use gosmo.Restore.Plan.Sound.{Elem}
use gosmo.Order.{
  OrderNode, OrderEdge, keys, clear_waiting, dependents_of, OrderState, enqueue, release, pop_least,
  take_node, is_breakable, is_better, pick_from,
}
use gosmo.Order.Waiting.{All-remove}
use gosmo.Order.Invariant.{Distinct, All-weaken, contains-cons_false, str_eq_sym}
use gosmo.Order.Sound.{broken_at}
use gosmo.Order.Live.{Reached, Reached-enqueue, Reached-release, Reached-pop_least, All-release}

-- The first occurrence of a key is taken out.
abbrev erase : Bytes → List Bytes → List Bytes
erase k [] = []
erase k (a ∷ ks) = if str_eq a k then ks else a ∷ erase k ks

length-erase :
    (k : Bytes) (ks : List Bytes) → contains ks k ≡ true → suc (length (erase k ks)) ≡ length ks
unfolding contains
length-erase k [] h = absurd (cc h)
length-erase k (a ∷ ks) h = elim (Bool-cases (str_eq a k)) [
  | inl e ↦ rw e refl
  | inr e ↦ (let rest : contains ks k ≡ true = rw e at h in rw e (ap suc (length-erase k ks rest)))
]

contains-erase :
    (k a : Bytes) (ks : List Bytes)
    → str_eq k a ≡ false
    → contains (erase k ks) a ≡ false
    → contains ks a ≡ false
unfolding contains
contains-erase k a [] n h = refl
contains-erase k a (x ∷ ks) n h = elim (Bool-cases (str_eq x k)) [
  | inl e ↦
      let rest : contains ks a ≡ false = rw e at h in
      let x_differs : str_eq x a ≡ false = rw (str_eq_sound x k e) n in
      or_false_intro _ _ x_differs rest
  | inr e ↦
      let rest : (str_eq x a || contains (erase k ks) a) ≡ false = rw e at h in
      or_false_intro _ _ (or_false_left _ _ rest)
        (contains-erase k a ks n (or_false_right (str_eq x a) _ rest))
]

-- More nodes than keys: some node has none of the keys.
pub unseen_node :
    (seen : List Bytes) (ns : List OrderNode)
    → Distinct ns
    → length seen < length ns
    → (n : OrderNode) × Elem n ns × (contains seen n.key ≡ false)
unseen_node seen [] d h = absurd (omega arith)
unseen_node seen (n ∷ ns) d h = elim (Bool-cases (contains seen n.key)) [
  | inr e ↦ (n, inl refl, e)
  | inl e ↦
      let (m, i, f) =
        unseen_node (erase n.key seen) ns (d.1) (omega (arith, length-erase n.key seen e)) in
      (m, inr i, contains-erase n.key m.key seen (differs ns m (d.0) i) f)
]
  where
    differs :
        (ns : List OrderNode) (m : OrderNode)
        → All (λ m. str_eq n.key m.key ≡ false) ns
        → Elem m ns
        → str_eq n.key m.key ≡ false
    differs [] m a i = absurd i
    differs (x ∷ xs) m a (inl e) = rw e (a.0)
    differs (x ∷ xs) m a (inr i) = differs xs m (a.1) i

pub contains_func-at {ℓ} :
    {A : Type ℓ} (P : A → Type 0) (p : A → Bool) (xs : List A)
    → All P xs
    → contains_func p xs ≡ true
    → (x : A) × P x × (p x ≡ true)
contains_func-at P p [] a h = absurd (cc h)
contains_func-at P p (x ∷ xs) a h = elim (or_cases (p x) _ h) [
  | inl e ↦ (x, a.0, e)
  | inr e ↦ contains_func-at P p xs (a.1) e
]

-- No node was picked: none can be broken at.
pub pick_from-none :
    (st : OrderState) (ns : List OrderNode) (pick : Option OrderNode)
    → pick_from st pick ns ≡ none
    → (pick ≡ none) × ((n : OrderNode) → Elem n ns → is_breakable st n ≡ false)
unfolding pick_from
pick_from-none st [] pick h = (h, λ n i. absurd i)
pick_from-none st (m ∷ ns) pick h = elim (Bool-cases (is_breakable st m && is_better m pick)) [
  | inl e ↦ absurd (let z : some m ≡ none = (pick_from-none st ns (some m) (rw e at h)).0 in cc z)
  | inr e ↦
      let (no_pick, none_broken) = pick_from-none st ns pick (rw e at h) in
      (no_pick, λ n i. elim i [ inl q ↦ rw q (only m (rw no_pick at e)) | inr q ↦ none_broken n q ])
]
  where
    only :
        (m : OrderNode)
        → (is_breakable st m && is_better m none) ≡ false
        → is_breakable st m ≡ false
    only m e = elim (Bool-cases (is_breakable st m)) [
      | inl t ↦
          absurd
            (cc (e, and_intro (is_breakable st m) (is_better m none) t (unfold is_better in refl)))
      | inr t ↦ t
    ]

module _ (nodes : List OrderNode) (references : List OrderEdge) (height : Bytes → ℕ) where
  -- A reference that is unmet: its target is a node that is not yet emitted, below its source if it is
  -- bound, and its source is among the target's dependents.
  abbrev pub IsOpen : List Bytes → OrderEdge → Type 0
  IsOpen seen w =
      (contains seen w.target ≡ false)
      × (contains (keys nodes) w.target ≡ true)
      × (w.bound ≡ true → height w.target < height w.source)
      × (contains (dependents_of w.target references) w.source ≡ true)

  pub take_node-IsOpen :
      (seen : List Bytes) (st : OrderState) (k : Bytes)
      → All (IsOpen seen) st.waiting
      → All (IsOpen (k ∷ seen)) (release nodes k (dependents_of k references) st).waiting
  take_node-IsOpen seen st k a =
      All-weaken
        (λ w.
          IsOpen seen w
          × (str_eq w.target k ≡ true → contains (dependents_of k references) w.source ≡ false))
        (IsOpen (k ∷ seen)) (release nodes k (dependents_of k references) st).waiting
        (λ w ((f, i, b, c), g).
          (contains-cons_false k w.target seen (str_eq_sym w.target k (other w c g)) f, i, b, c))
        (All-release (IsOpen seen) nodes k (dependents_of k references) st a)
    where
      other :
          (w : OrderEdge)
          → contains (dependents_of w.target references) w.source ≡ true
          → (str_eq w.target k ≡ true → contains (dependents_of k references) w.source ≡ false)
          → str_eq w.target k ≡ false
      other w c g = elim (Bool-cases (str_eq w.target k)) [
        | inl t ↦ absurd (
            cc (
              g t,
              c,
              ap (λ k. contains (dependents_of k references) w.source) (str_eq_sound w.target k t),
            ))
        | inr t ↦ t
      ]

  -- What a loop that is not stuck keeps.
  pub record Live (seen : List Bytes) (st : OrderState) : Type 0 where
    pub reached : Reached seen st
    pub still_open : All (IsOpen seen) st.waiting

  pub take_node-Live :
      (seen : List Bytes) (st : OrderState) (warned : List Bytes) (x : OrderNode)
      (xs : List OrderNode)
      → Live seen (record st { ready = x ∷ xs })
      → let next = take_node nodes references warned x xs st in
        Live (next.node.key ∷ seen) next.state
  unfolding take_node
  take_node-Live seen st warned x xs live =
      let p = pop_least x xs in
      record {
        reached =
            Reached-release (p.node.key ∷ seen) nodes p.node.key
              (dependents_of p.node.key references) (record st { ready = p.others })
              (Reached-pop_least seen x xs st live.reached);
        still_open =
            take_node-IsOpen seen (record st { ready = p.others }) p.node.key live.still_open;
      }

  pub broken_at-Live :
      (seen : List Bytes) (st : OrderState) (p : OrderNode)
      → Live seen (record st { ready = [] })
      → Live seen (record (broken_at nodes [] st p) { ready = p ∷ [] })
  unfolding clear_waiting enqueue
  broken_at-Live seen st p live = record {
    reached =
        Reached-enqueue seen p
          (record { waiting = clear_waiting p.key st.waiting; ready = []; queued = st.queued })
          live.reached;
    still_open = All-remove (IsOpen seen) (λ w. str_eq w.source p.key) st.waiting live.still_open;
  }
