-- ===== src/Order/Live.antt =====
-- What keeps the main loop from being stuck.
use gosmo.Base.{
  ◌≡◌, refl, subst, Bool, true, false, not, ◌&&◌, List, [], ◌∷◌, ◌⊎◌, Bytes, if◌then◌else◌, str_eq,
  str_eq_sound, contains, contains_func, All, Bool-cases, inl, inr, and_intro, or_cases,
  or_false_left, or_false_right,
}
use gosmo.Order.{
  OrderNode, OrderEdge, from_to, keys, has_unmet, waits_for, remove, delete_waiting, by_key,
  OrderState, enqueue, release_one, release, pop_least, less,
}
use gosmo.Order.Invariant.{
  All-weaken, contains-head, contains-cons, contains-cons_false, str_eq_sym,
}

-- Every queued node is emitted or in the heap.
abbrev pub Reached : List Bytes → OrderState → Type 0
Reached seen st =
    (k : Bytes)
    → contains st.queued k ≡ true
    → (contains seen k ≡ true) ⊎ (contains (keys st.ready) k ≡ true)

contains-cases :
    (a k : Bytes) (ks : List Bytes) → contains (a ∷ ks) k ≡ true → (a ≡ k) ⊎ (contains ks k ≡ true)
unfolding contains
contains-cases a k ks h = elim (or_cases (str_eq a k) (contains ks k) h) [
  | inl e ↦ inl (str_eq_sound a k e)
  | inr e ↦ inr e
]

pub Reached-enqueue :
    (seen : List Bytes) (n : OrderNode) (st : OrderState)
    → Reached seen st
    → Reached seen (enqueue n st)
unfolding enqueue
Reached-enqueue seen n st r k h = elim (contains-cases n.key k st.queued h) [
  | inl e ↦ inr (
      subst (λ k. contains (n.key ∷ keys st.ready) k ≡ true) e
        (contains-head n.key (keys st.ready)))
  | inr q ↦ elim (r k q) [ inl s ↦ inl s | inr s ↦ inr (contains-cons n.key k (keys st.ready) s) ]
]

-- What one release does: it may queue a node, and it deletes a reference.
Reached-release_one :
    (seen : List Bytes) (nodes : List OrderNode) (k d : Bytes) (st : OrderState)
    → Reached seen st
    → Reached seen (release_one nodes k d st)
unfolding release_one
Reached-release_one seen nodes k d st r = elim (Bool-cases (waits_for st.waiting d k)) [
  | inr e ↦ rw e r
  | inl e ↦ rw e (queued (record st { waiting = delete_waiting d k st.waiting }) r)
]
  where
    queued :
        (met : OrderState)
        → Reached seen met
        → Reached seen (
            if not (has_unmet met.waiting d) && not (contains met.queued d)
            then enqueue (by_key nodes d) met
            else met)
    queued met r =
        elim (Bool-cases (not (has_unmet met.waiting d) && not (contains met.queued d))) [
          | inl q ↦ rw q (Reached-enqueue seen (by_key nodes d) met r)
          | inr q ↦ rw q r
        ]

pub Reached-release :
    (seen : List Bytes) (nodes : List OrderNode) (k : Bytes) (ds : List Bytes) (st : OrderState)
    → Reached seen st
    → Reached seen (release nodes k ds st)
unfolding release
Reached-release seen nodes k [] st r = r
Reached-release seen nodes k (d ∷ ds) st r =
    Reached-release seen nodes k ds (release_one nodes k d st)
      (Reached-release_one seen nodes k d st r)

pop_least-keys :
    (x : OrderNode) (xs : List OrderNode) (k : Bytes)
    → contains (keys (x ∷ xs)) k ≡ true
    → ((pop_least x xs).node.key ≡ k) ⊎ (contains (keys (pop_least x xs).others) k ≡ true)
pop_least-keys x [] k h = unfold pop_least in contains-cases x.key k [] h
pop_least-keys x (y ∷ ys) k h = chosen (λ q. pop_least-keys y ys k q)
  where
    chosen :
        (contains (keys (y ∷ ys)) k ≡ true
          → ((pop_least y ys).node.key ≡ k) ⊎ (contains (keys (pop_least y ys).others) k ≡ true))
        → ((pop_least x (y ∷ ys)).node.key ≡ k)
          ⊎ (contains (keys (pop_least x (y ∷ ys)).others) k ≡ true)
    chosen rest =
        unfold pop_least in
        elim (Bool-cases (less (pop_least y ys).node x)) [
          | inr l ↦ rw l (contains-cases x.key k (keys (y ∷ ys)) h)
          | inl l ↦ rw l (elim (contains-cases x.key k (keys (y ∷ ys)) h) [
            | inl e ↦ inr (
                subst (λ k. contains (x.key ∷ keys (pop_least y ys).others) k ≡ true) e
                  (contains-head x.key (keys (pop_least y ys).others)))
            | inr q ↦ elim (rest q) [
              | inl e ↦ inl e
              | inr e ↦ inr (contains-cons x.key k (keys (pop_least y ys).others) e)
            ]
          ])
        ]

pub Reached-pop_least :
    (seen : List Bytes) (x : OrderNode) (xs : List OrderNode) (st : OrderState)
    → Reached seen (record st { ready = x ∷ xs })
    → Reached ((pop_least x xs).node.key ∷ seen) (record st { ready = (pop_least x xs).others })
Reached-pop_least seen x xs st r k h = elim (r k h) [
  | inl s ↦ inl (contains-cons (pop_least x xs).node.key k seen s)
  | inr q ↦ elim (pop_least-keys x xs k q) [
    | inl e ↦ inl (
        subst (λ k. contains ((pop_least x xs).node.key ∷ seen) k ≡ true) e
          (contains-head (pop_least x xs).node.key seen))
    | inr e ↦ inr e
  ]
]

-- What is left of the references to k when those of the sources ds are released.
module _ {ℓ} {A : Type ℓ} (P : A → Type 0) (p : A → Bool) where
  All-kept :
      (xs : List A) → All P xs → contains_func p xs ≡ false → All (λ x. P x × (p x ≡ false)) xs
  All-kept [] h e = tt
  All-kept (x ∷ xs) h e = ((h.0, or_false_left _ _ e), All-kept xs (h.1) (or_false_right (p x) _ e))

  All-removed : (xs : List A) → All P xs → All (λ x. P x × (p x ≡ false)) (remove p xs)
  All-removed [] h = tt
  All-removed (x ∷ xs) h = elim (Bool-cases (p x)) [
    | inl t ↦ rw t (All-removed xs (h.1))
    | inr t ↦ rw t ((h.0, t), All-removed xs (h.1))
  ]

apart :
    (d k : Bytes) (w : OrderEdge)
    → from_to d k w ≡ false
    → str_eq w.target k ≡ true
    → str_eq w.source d ≡ false
apart d k w f t = elim (Bool-cases (str_eq w.source d)) [
  | inl e ↦ absurd (cc (f, and_intro _ _ e t))
  | inr e ↦ e
]

release_again :
    (nodes : List OrderNode) (k d : Bytes) (ds : List Bytes) (st : OrderState)
    → release nodes k (d ∷ ds) st ≡ release nodes k ds (release_one nodes k d st)
unfolding release
release_again nodes k d ds st = refl

All-release_one :
    (P : OrderEdge → Type 0) (nodes : List OrderNode) (k d : Bytes) (st : OrderState)
    → All P st.waiting
    → All
        (λ w. P w × (str_eq w.target k ≡ true → str_eq w.source d ≡ false))
        (release_one nodes k d st).waiting
unfolding release_one
All-release_one P nodes k d st a = elim (Bool-cases (waits_for st.waiting d k)) [
  | inr e ↦ rw e (
      All-weaken (λ w. P w × (from_to d k w ≡ false))
        (λ w. P w × (str_eq w.target k ≡ true → str_eq w.source d ≡ false)) st.waiting
        (λ w (p, f). (p, apart d k w f))
        (All-kept P (from_to d k) st.waiting a (unfold waits_for in e)))
  | inl e ↦ rw e (deleted (not (has_unmet met.waiting d) && not (contains st.queued d)))
]
  where
    met : OrderState
    met = record st { waiting = delete_waiting d k st.waiting }

    left :
        All
          (λ w. P w × (str_eq w.target k ≡ true → str_eq w.source d ≡ false))
          (delete_waiting d k st.waiting)
    left =
        unfold delete_waiting in
        All-weaken (λ w. P w × (from_to d k w ≡ false))
          (λ w. P w × (str_eq w.target k ≡ true → str_eq w.source d ≡ false))
          (remove (from_to d k) st.waiting) (λ w (p, f). (p, apart d k w f))
          (All-removed P (from_to d k) st.waiting a)

    deleted :
        (b : Bool)
        → All
            (λ w. P w × (str_eq w.target k ≡ true → str_eq w.source d ≡ false))
            (if b then enqueue (by_key nodes d) met else met).waiting
    deleted true = left
    deleted false = left

pub All-release :
    (P : OrderEdge → Type 0) (nodes : List OrderNode) (k : Bytes) (ds : List Bytes)
    (st : OrderState)
    → All P st.waiting
    → All
        (λ w. P w × (str_eq w.target k ≡ true → contains ds w.source ≡ false))
        (release nodes k ds st).waiting
All-release P nodes k [] st a =
    unfold release in
    All-weaken P (λ w. P w × (str_eq w.target k ≡ true → contains [] w.source ≡ false)) st.waiting
      (λ w p. (p, λ t. unfold contains in refl)) a
All-release P nodes k (d ∷ ds) st a = rw (release_again nodes k d ds st) (
    All-weaken
      (λ w.
        (P w × (str_eq w.target k ≡ true → str_eq w.source d ≡ false))
        × (str_eq w.target k ≡ true → contains ds w.source ≡ false))
      (λ w. P w × (str_eq w.target k ≡ true → contains (d ∷ ds) w.source ≡ false))
      (release nodes k ds (release_one nodes k d st)).waiting
      (λ w ((p, f), g).
        (p, λ t. contains-cons_false d w.source ds (str_eq_sym w.source d (f t)) (g t)))
      (All-release (λ w. P w × (str_eq w.target k ≡ true → str_eq w.source d ≡ false)) nodes k ds
        (release_one nodes k d st) (All-release_one P nodes k d st a)))
