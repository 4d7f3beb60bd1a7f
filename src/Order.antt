-- ===== src/Order.antt =====
-- scripter_database_objects_order.go: the order in which the objects of a database are scripted.
pub mod Waiting
pub mod Invariant
pub mod Release
pub mod Sound
pub mod Returned
pub mod Live
pub mod Total
pub mod Acyclic
pub mod Broken
pub mod Warned
pub mod Explained
use Prim.Native.Nat.{Ordering}
use gosmo.Base.{
  ℕ, zero, suc, ◌≡◌, refl, Bool, true, false, not, ◌&&◌, ◌||◌, Option, none, some, List, [], ◌∷◌,
  ◌++◌, map, Bytes, codes, ltb, ◌==◌, if◌then◌else◌, length, str_eq, contains, contains_func,
  Result, ok, err, ◌>>=◌,
}
use gosmo.Restore.Lsn.{compare_text}
use gosmo.Tsql.Quote.{quote_name, qualified_name}

pub record OrderNode : Type 0 where
  pub key : Bytes
  pub rank : ℕ
  pub schema : Bytes
  pub name : Bytes

-- `source` is the field from: the object that needs `target`, the field to.
pub record OrderEdge : Type 0 where
  pub source : Bytes
  pub target : Bytes
  pub bound : Bool

-- a < b on strings
unfoldable pub text_ltb : Bytes → Bytes → Bool
unfolding compare_text
text_ltb a b = elim (compare_text a b) [ Ordering.lt ↦ true | _ ↦ false ]

unfoldable pub less : OrderNode → OrderNode → Bool
unfolding str_eq text_ltb
less a b =
    if not (a.rank == b.rank)
    then ltb a.rank b.rank
    else if not (str_eq a.schema b.schema)
    then text_ltb a.schema b.schema
    else text_ltb a.name b.name

-- A node, and the others of a heap that it is taken from.
pub record Popped : Type 0 where
  pub node : OrderNode
  pub others : List OrderNode

-- heap.Pop on the heap of x and xs: a node that none of the others is less than
unfoldable pub pop_least : OrderNode → List OrderNode → Popped
unfolding less
pop_least x [] = record { node = x; others = [] }
pop_least x (y ∷ ys) =
    let p = pop_least y ys in
    if less p.node x
    then record { node = p.node; others = x ∷ p.others }
    else record { node = x; others = y ∷ ys }

-- waiting[k][t], with its value where `bound_only`: the unmet references, each with its two ends
abbrev pub from_to : Bytes → Bytes → OrderEdge → Bool
from_to s t e = str_eq e.source s && str_eq e.target t

abbrev pub bound_from_to : Bytes → Bytes → OrderEdge → Bool
bound_from_to s t e = e.bound && from_to s t e

-- waiting[e.from][e.to] = waiting[e.from][e.to] || e.bound
unfoldable pub add_waiting : OrderEdge → List OrderEdge → List OrderEdge
unfolding str_eq
add_waiting e [] = e ∷ []
add_waiting e (w ∷ ws) =
    let rest = add_waiting e ws in
    if from_to e.source e.target w then record w { bound = w.bound || e.bound } ∷ ws else w ∷ rest

abbrev pub keys : List OrderNode → List Bytes
keys = map (λ n. n.key)

-- An edge of two nodes of the set, not a self-reference.
unfoldable pub is_reference : List OrderNode → OrderEdge → Bool
unfolding str_eq contains
is_reference nodes e =
    not (str_eq e.source e.target)
    && (contains (keys nodes) e.source && contains (keys nodes) e.target)

-- The loop over the edges that fills `waiting`.
unfoldable pub waiting_of : List OrderNode → List OrderEdge → List OrderEdge → List OrderEdge
unfolding is_reference add_waiting
waiting_of nodes ws [] = ws
waiting_of nodes ws (e ∷ es) =
    waiting_of nodes (if is_reference nodes e then add_waiting e ws else ws) es

-- dependents[k]
unfoldable pub dependents_of : Bytes → List OrderEdge → List Bytes
unfolding str_eq
dependents_of k [] = []
dependents_of k (w ∷ ws) =
    let rest = dependents_of k ws in if str_eq w.target k then w.source ∷ rest else rest

-- len(waiting[k]) > 0
unfoldable pub has_unmet : List OrderEdge → Bytes → Bool
unfolding str_eq
has_unmet ws k = contains_func (λ w. str_eq w.source k) ws

-- _, ok := waiting[d][k]
unfoldable pub waits_for : List OrderEdge → Bytes → Bytes → Bool
unfolding str_eq
waits_for ws d k = contains_func (from_to d k) ws

abbrev pub remove {ℓ} : {A : Type ℓ} → (A → Bool) → List A → List A
remove p [] = []
remove p (x ∷ xs) = if p x then remove p xs else x ∷ remove p xs

-- delete(waiting[d], k)
unfoldable pub delete_waiting : Bytes → Bytes → List OrderEdge → List OrderEdge
unfolding str_eq
delete_waiting d k ws = remove (from_to d k) ws

-- clear(waiting[k])
unfoldable pub clear_waiting : Bytes → List OrderEdge → List OrderEdge
unfolding str_eq
clear_waiting k ws = remove (λ w. str_eq w.source k) ws

-- byKey[k]; a map gives its zero value for a missing key
unfoldable pub by_key : List OrderNode → Bytes → OrderNode
unfolding str_eq
by_key [] k = record { key = []; rank = 0; schema = []; name = [] }
by_key (n ∷ ns) k = let rest = by_key ns k in if str_eq n.key k then n else rest

-- The state of the main loop, without `out` and the warnings.
pub record OrderState : Type 0 where
  pub waiting : List OrderEdge
  pub ready : List OrderNode
  pub queued : List Bytes

-- queued[n.key] = true; heap.Push(&ready, n)
unfoldable pub enqueue : OrderNode → OrderState → OrderState
enqueue n st = record st { ready = n ∷ st.ready; queued = n.key ∷ st.queued }

-- One round of the loop over the dependents of the node with key k.
unfoldable pub release_one : List OrderNode → Bytes → Bytes → OrderState → OrderState
unfolding waits_for delete_waiting has_unmet by_key enqueue contains
release_one nodes k d st =
    if not (waits_for st.waiting d k)
    then st
    else let met = record st { waiting = delete_waiting d k st.waiting } in
      if not (has_unmet met.waiting d) && not (contains st.queued d)
      then enqueue (by_key nodes d) met
      else met

unfoldable pub release : List OrderNode → Bytes → List Bytes → OrderState → OrderState
unfolding release_one
release nodes k [] st = st
release nodes k (d ∷ ds) st = release nodes k ds (release_one nodes k d st)

-- !queued[n.key], and no reference of n that is still unmet is bound
unfoldable pub is_breakable : OrderState → OrderNode → Bool
unfolding contains str_eq
is_breakable st n =
    not (contains st.queued n.key)
    && not (contains_func (λ w. w.bound && str_eq w.source n.key) st.waiting)

-- pick == nil || n.less(*pick)
unfoldable pub is_better : OrderNode → Option OrderNode → Bool
unfolding less
is_better n none = true
is_better n (some p) = less n p

-- The loop that looks for `pick`.
unfoldable pub pick_from : OrderState → Option OrderNode → List OrderNode → Option OrderNode
unfolding is_breakable is_better
pick_from st pick [] = pick
pick_from st pick (n ∷ ns) =
    pick_from st (if is_breakable st n && is_better n pick then some n else pick) ns

unfoldable pub display : OrderNode → Bytes
unfolding str_eq quote_name qualified_name
display n = if str_eq n.schema [] then quote_name n.name else qualified_name n.schema n.name

-- slices.Sort
unfoldable pub insert_text : Bytes → List Bytes → List Bytes
unfolding text_ltb
insert_text t [] = t ∷ []
insert_text t (u ∷ us) =
    let rest = insert_text t us in if text_ltb u t then u ∷ rest else t ∷ u ∷ us

unfoldable pub sort_texts : List Bytes → List Bytes
unfolding insert_text
sort_texts [] = []
sort_texts (t ∷ ts) = insert_text t (sort_texts ts)

-- The warnings for a node whose unmet references are broken.
unfoldable pub warnings_of : List OrderNode → List OrderEdge → OrderNode → List Bytes
unfolding display sort_texts by_key str_eq
warnings_of nodes ws n =
    map (λ b. codes "dependency cycle broken: " ++ display n ++ codes " -> " ++ b)
      (sort_texts
        (map (λ w. display (by_key nodes w.target)) (remove (λ w. not (str_eq w.source n.key)) ws)))

pub data OrderError : Type 0 where
  duplicate_key : Bytes → OrderError
  bound_cycle : List Bytes → OrderError

-- The objects in order, and the warnings.
pub record Ordered : Type 0 where
  pub order : List OrderNode
  pub warnings : List Bytes

-- The node that is taken next, with the state behind it and the warnings before it.
pub record Next : Type 0 where
  pub node : OrderNode
  pub state : OrderState
  pub warned : List Bytes

-- n := heap.Pop(&ready), and the loop over its dependents
unfoldable pub take_node :
    List OrderNode → List (OrderEdge) → List Bytes → OrderNode → List OrderNode → OrderState → Next
unfolding pop_least release dependents_of
take_node nodes references warned x xs st =
    let p = pop_least x xs in
    record {
      node = p.node;
      state =
          release nodes p.node.key (dependents_of p.node.key references)
            (record st { ready = p.others });
      warned = warned;
    }

-- One round of the main loop.
unfoldable pub next_node :
    List OrderNode → List OrderEdge → OrderState → List OrderNode → Result OrderError Next
unfolding take_node pick_from clear_waiting warnings_of sort_texts contains
next_node nodes references st (x ∷ xs) = ok (take_node nodes references [] x xs st)
next_node nodes references st [] = elim (pick_from st none nodes) [
  | none ↦ err (bound_cycle (sort_texts (keys (remove (λ n. contains st.queued n.key) nodes))))
  | some pick ↦ ok (
      take_node nodes references (warnings_of nodes st.waiting pick) pick [] (record {
        waiting = clear_waiting pick.key st.waiting;
        ready = [];
        queued = pick.key ∷ st.queued;
      }))
]

-- The main loop; the number is that of the nodes still to come, len(nodes) - len(out).
unfoldable pub order_from :
    List OrderNode → List OrderEdge → ℕ → OrderState → Result OrderError Ordered
unfolding next_node
order_from nodes references zero st = ok (record { order = []; warnings = [] })
order_from nodes references (suc k) st = next_node nodes references st st.ready >>= (λ next.
    order_from nodes references k next.state >>= (λ rest.
      ok (record { order = next.node ∷ rest.order; warnings = next.warned ++ rest.warnings })))

-- The key of the first node whose key an earlier one has; `seen` are the keys in byKey so far.
unfoldable pub duplicate_from : List Bytes → List OrderNode → Option Bytes
unfolding contains
duplicate_from seen [] = none
duplicate_from seen (n ∷ ns) =
    let rest = duplicate_from (n.key ∷ seen) ns in if contains seen n.key then some n.key else rest

unfoldable pub first_state : List OrderNode → List OrderEdge → OrderState
unfolding has_unmet
first_state nodes ws =
    let ready = remove (λ n. has_unmet ws n.key) nodes in
    record { waiting = ws; ready = ready; queued = keys ready }

unfoldable pub order_objects : List OrderNode → List OrderEdge → Result OrderError Ordered
unfolding duplicate_from waiting_of first_state order_from
order_objects nodes edges = elim (duplicate_from [] nodes) [
  | some k ↦ err (duplicate_key k)
  | none ↦
      let ws = waiting_of nodes [] edges in
      order_from nodes ws (length nodes) (first_state nodes ws)
]
