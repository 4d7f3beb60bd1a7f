-- ===== src/Examples/Objects.antt =====
-- A table, a view that is bound to it, and two procedures that call each other.
use gosmo.Base.{
  Bytes, ℕ, ◌<◌, ap, arith, inl, inr, none, str_eq, if◌then◌else◌, ◌≡◌, refl, true, false, List, [],
  ◌∷◌, codes, ok, length,
}
use gosmo.Order.{duplicate_from, is_reference, OrderNode, OrderEdge, Ordered, order_objects}
use gosmo.Restore.Plan.Sound.{Elem}
use gosmo.Order.Acyclic.{order_objects-total}
use gosmo.Order.Returned.{IsOrder, order_objects-IsOrder}
use gosmo.Order.Explained.{AllExplained, order_objects-AllExplained}

abbrev table : OrderNode
table = record { key = codes "t"; rank = 2; schema = codes "dbo"; name = codes "t" }

abbrev view : OrderNode
view = record { key = codes "v"; rank = 1; schema = codes "dbo"; name = codes "v" }

abbrev outer : OrderNode
outer = record { key = codes "p"; rank = 3; schema = codes "dbo"; name = codes "p" }

abbrev inner : OrderNode
inner = record { key = codes "q"; rank = 3; schema = codes "dbo"; name = codes "q" }

abbrev objects : List OrderNode
objects = outer ∷ view ∷ inner ∷ table ∷ []

abbrev references : List OrderEdge
references =
    record { source = codes "v"; target = codes "t"; bound = true }
    ∷ record { source = codes "p"; target = codes "q"; bound = false }
    ∷ record { source = codes "q"; target = codes "p"; bound = false }
    ∷ record { source = codes "q"; target = codes "gone"; bound = true }
    ∷ []

abbrev ordered : Ordered
ordered = record {
  order = table ∷ view ∷ outer ∷ inner ∷ [];
  warnings = codes "dependency cycle broken: [dbo].[p] -> [dbo].[q]" ∷ [];
}

references_hold : order_objects objects references ≡ ok ordered
unfolding order_objects
references_hold = refl

order_objects-IsOrder_example :
    IsOrder objects references [] (table ∷ view ∷ outer ∷ inner ∷ [])
    × (length (table ∷ view ∷ outer ∷ inner ∷ []) ≡ 4)
order_objects-IsOrder_example = order_objects-IsOrder objects references ordered references_hold

-- The view stands above the table.
abbrev level : Bytes → ℕ
level k = if str_eq k (codes "v") then 1 else 0

below :
    (e : OrderEdge)
    → Elem e references
    → is_reference objects e ≡ true
    → e.bound ≡ true
    → level e.target < level e.source
below e (inl q) r b = rw q (unfold str_eq in omega arith)
below e (inr (inl q)) r b = absurd (cc (ap (λ (e : OrderEdge). e.bound) q, b))
below e (inr (inr (inl q))) r b = absurd (cc (ap (λ (e : OrderEdge). e.bound) q, b))
below e (inr (inr (inr (inl q)))) r b =
    absurd (let z : false ≡ true = unfold is_reference in rw q at r in cc z)
below e (inr (inr (inr (inr i)))) r b = absurd i

no_duplicate : duplicate_from [] objects ≡ none
unfolding duplicate_from
no_duplicate = refl

order_objects-total_example : (r : Ordered) × (order_objects objects references ≡ ok r)
order_objects-total_example = order_objects-total objects references level no_duplicate below

order_objects-AllExplained_example :
    AllExplained objects references
      (codes "dependency cycle broken: [dbo].[p] -> [dbo].[q]" ∷ [])
      []
      (table ∷ view ∷ outer ∷ inner ∷ [])
order_objects-AllExplained_example =
    order_objects-AllExplained objects references ordered references_hold
