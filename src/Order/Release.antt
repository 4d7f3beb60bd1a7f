-- ===== src/Order/Release.antt =====
-- The round over the dependents of an emitted node keeps the invariant.
use gosmo.Base.{
  ◌≡◌, true, false, not, ◌&&◌, List, [], ◌∷◌, Bytes, if◌then◌else◌, str_eq, str_eq_sound, contains,
  Bool-cases, inl, inr, and_left, and_right, not-true,
}
use gosmo.Order.{
  OrderNode, OrderEdge, from_to, bound_from_to, keys, has_unmet, waits_for, remove, delete_waiting,
  by_key, OrderState, enqueue, release_one, release,
}
use gosmo.Order.Waiting.{contains_func-remove}
use gosmo.Order.Invariant.{
  not_same_target, AreUnmet, Inv, contains-by_key, AllFrom-contains_func, met-Inv, enqueue-Inv,
}

module _ (nodes : List OrderNode) (edges : List OrderEdge) where
  AreUnmet-delete :
      (seen : List Bytes) (ws : List OrderEdge) (d k : Bytes)
      → contains seen k ≡ true
      → AreUnmet nodes edges seen ws
      → AreUnmet nodes edges seen (remove (from_to d k) ws)
  AreUnmet-delete seen ws d k h u e i r b = elim (u e i r b) [
    | inl s ↦ inl s
    | inr u ↦ elim (Bool-cases (str_eq e.target k)) [
      | inl q ↦ inl (rw (str_eq_sound e.target k q) h)
      | inr q ↦ inr (
          contains_func-remove (from_to d k) (bound_from_to e.source e.target) ws
            (λ w t. not_same_target e.source e.target d k w q t) u)
    ]
  ]

  release_one-Inv :
      (seen : List Bytes) (k d : Bytes) (st : OrderState)
      → contains seen k ≡ true
      → Inv nodes edges seen st
      → Inv nodes edges seen (release_one nodes k d st)
  release_one-Inv seen k d st h inv =
      unfold release_one in
      elim (Bool-cases (waits_for st.waiting d k)) [ inr e ↦ rw e inv | inl e ↦ rw e (released e) ]
    where
      met : OrderState
      met = record st { waiting = delete_waiting d k st.waiting }

      met_inv : Inv nodes edges seen met
      met_inv =
          unfold delete_waiting in
          met-Inv nodes edges seen st (from_to d k) inv
            (AreUnmet-delete seen st.waiting d k h inv.unmet)

      is_key : waits_for st.waiting d k ≡ true → contains (keys nodes) d ≡ true
      is_key e =
          unfold waits_for in
          AllFrom-contains_func nodes edges (from_to d k) d st.waiting inv.nodes_only
            (λ w t. str_eq_sound w.source d (and_left _ (str_eq w.target k) t)) e

      released :
          waits_for st.waiting d k ≡ true
          → Inv nodes edges seen (
              if not (has_unmet met.waiting d) && not (contains met.queued d)
              then enqueue (by_key nodes d) met
              else met)
      released e =
          elim (Bool-cases (not (has_unmet met.waiting d) && not (contains met.queued d))) [
            | inr q ↦ rw q met_inv
            | inl q ↦
                let (is_node, is_d) = contains-by_key nodes edges nodes d (is_key e) in
                let no_unmet : has_unmet met.waiting (by_key nodes d).key ≡ false =
                  rw is_d (not-true _ (and_left _ _ q)) in
                let fresh : contains met.queued (by_key nodes d).key ≡ false =
                  rw is_d (not-true _ (and_right (not (has_unmet met.waiting d)) _ q)) in
                rw q
                  (enqueue-Inv nodes edges seen met (by_key nodes d) met_inv is_node no_unmet fresh)
          ]

  pub release-Inv :
      (seen : List Bytes) (k : Bytes) (ds : List Bytes) (st : OrderState)
      → contains seen k ≡ true
      → Inv nodes edges seen st
      → Inv nodes edges seen (release nodes k ds st)
  unfolding release
  release-Inv seen k [] st h inv = inv
  release-Inv seen k (d ∷ ds) st h inv =
      release-Inv seen k ds (release_one nodes k d st) h (release_one-Inv seen k d st h inv)
