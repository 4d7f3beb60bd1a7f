-- ===== src/Order/Broken.antt =====
-- The references that are unmet and the warnings about those that are broken.
use gosmo.Base.{
  ◌≡◌, refl, ap, sym, ◌∙◌, Bool, true, false, not, List, [], ◌∷◌, ◌++◌, ◌⊎◌, map, codes, Bytes,
  str_eq, str_eq_sound, str_eq_refl, contains_func, All, Bool-cases, inl, inr, and_left, and_right,
  or_cases,
}
use gosmo.Restore.Plan.Sound.{Elem}
use gosmo.Order.{
  OrderNode, OrderEdge, from_to, waits_for, remove, by_key, display, text_ltb, insert_text,
  sort_texts, warnings_of,
}
use gosmo.Order.Invariant.{Distinct, by_key_first, by_key_other}

-- Elements of lists.
module _ {A B : Type 0} where
  Elem-map : (f : A → B) (x : A) (xs : List A) → Elem x xs → Elem (f x) (map f xs)
  Elem-map f x [] i = absurd i
  Elem-map f x (y ∷ xs) (inl e) = inl (ap f e)
  Elem-map f x (y ∷ xs) (inr i) = inr (Elem-map f x xs i)

Elem-remove :
    {A : Type 0} (p : A → Bool) (x : A) (xs : List A)
    → Elem x xs
    → p x ≡ false
    → Elem x (remove p xs)
Elem-remove p x [] i h = absurd i
Elem-remove p x (y ∷ xs) i h = elim (Bool-cases (p y)) [
  | inr e ↦ rw e (elim i [ inl q ↦ inl q | inr q ↦ inr (Elem-remove p x xs q h) ])
  | inl e ↦ rw e (elim i [ inl q ↦ absurd (cc (e, h, ap p q)) | inr q ↦ Elem-remove p x xs q h ])
]

insert_text_other :
    (t u : Bytes) (us : List Bytes)
    → text_ltb u t ≡ true
    → insert_text t (u ∷ us) ≡ u ∷ insert_text t us
unfolding insert_text
insert_text_other t u us e = rw e refl

insert_text_here :
    (t u : Bytes) (us : List Bytes) → text_ltb u t ≡ false → insert_text t (u ∷ us) ≡ t ∷ u ∷ us
unfolding insert_text
insert_text_here t u us e = rw e refl

Elem-insert_text : (x t : Bytes) (us : List Bytes) → (x ≡ t) ⊎ Elem x us → Elem x (insert_text t us)
Elem-insert_text x t [] (inl e) = unfold insert_text in inl e
Elem-insert_text x t [] (inr i) = absurd i
Elem-insert_text x t (u ∷ us) h = elim (Bool-cases (text_ltb u t)) [
  | inr e ↦ rw (insert_text_here t u us e) (elim h [ inl q ↦ inl q | inr q ↦ inr q ])
  | inl e ↦ rw (insert_text_other t u us e) (elim h [
    | inl q ↦ inr (Elem-insert_text x t us (inl q))
    | inr q ↦ elim q [ inl q ↦ inl q | inr q ↦ inr (Elem-insert_text x t us (inr q)) ]
  ])
]

Elem-sort_texts : (x : Bytes) (ts : List Bytes) → Elem x ts → Elem x (sort_texts ts)
unfolding sort_texts
Elem-sort_texts x [] i = absurd i
Elem-sort_texts x (t ∷ ts) (inl e) = Elem-insert_text x t (sort_texts ts) (inl e)
Elem-sort_texts x (t ∷ ts) (inr i) =
    Elem-insert_text x t (sort_texts ts) (inr (Elem-sort_texts x ts i))

-- The element that passes a test.
contains_func-Elem :
    {A : Type 0} (p : A → Bool) (xs : List A)
    → contains_func p xs ≡ true
    → (x : A) × Elem x xs × (p x ≡ true)
contains_func-Elem p [] h = absurd (cc h)
contains_func-Elem p (x ∷ xs) h = elim (or_cases (p x) _ h) [
  | inl e ↦ (x, inl refl, e)
  | inr e ↦ (let (y, i, t) = contains_func-Elem p xs e in (y, inr i, t))
]

-- A node is found by its key.
pub by_key_self :
    (ns : List OrderNode) (n : OrderNode) → Distinct ns → Elem n ns → by_key ns n.key ≡ n
by_key_self [] n d i = absurd i
by_key_self (m ∷ ns) n d (inl e) = rw (by_key_first m ns n.key (rw e (str_eq_refl m.key))) (sym e)
by_key_self (m ∷ ns) n d (inr i) =
    rw (by_key_other m ns n.key (differs ns (d.0) i)) (by_key_self ns n (d.1) i)
  where
    differs :
        (ns : List OrderNode)
        → All (λ x. str_eq m.key x.key ≡ false) ns
        → Elem n ns
        → str_eq m.key n.key ≡ false
    differs [] a i = absurd i
    differs (x ∷ xs) a (inl e) = rw e (a.0)
    differs (x ∷ xs) a (inr i) = differs xs (a.1) i

-- The warning about a reference.
abbrev pub warning : List OrderNode → OrderEdge → Bytes
warning nodes e =
    codes "dependency cycle broken: "
    ++ display (by_key nodes e.source)
    ++ codes " -> "
    ++ display (by_key nodes e.target)

-- A reference that was unmet is among the warnings of the node that it is of.
pub Elem-warnings_of :
    (nodes : List OrderNode) (ws : List OrderEdge) (p : OrderNode) (e : OrderEdge)
    → Distinct nodes
    → Elem p nodes
    → e.source ≡ p.key
    → waits_for ws e.source e.target ≡ true
    → Elem (warning nodes e) (warnings_of nodes ws p)
unfolding waits_for warnings_of
Elem-warnings_of nodes ws p e d i s h =
    let (w, j, t) = contains_func-Elem (from_to e.source e.target) ws h in
    let source : w.source ≡ e.source =
      str_eq_sound w.source e.source (and_left _ (str_eq w.target e.target) t) in
    let target : w.target ≡ e.target =
      str_eq_sound w.target e.target (and_right (str_eq w.source e.source) _ t) in
    let kept : not (str_eq w.source p.key) ≡ false = rw (source, s, str_eq_refl p.key) refl in
    let is_p : by_key nodes e.source ≡ p = ap (by_key nodes) s ∙ by_key_self nodes p d i in
    rw (is_p, ← target)
      (Elem-map (λ b. codes "dependency cycle broken: " ++ display p ++ codes " -> " ++ b)
        (display (by_key nodes w.target)) _
        (Elem-sort_texts (display (by_key nodes w.target)) _ (
          Elem-map (λ (w : OrderEdge). display (by_key nodes w.target)) w _
            (Elem-remove (λ w. not (str_eq w.source p.key)) w ws j kept))))
