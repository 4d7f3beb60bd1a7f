-- ===== src/Tsql/Quote/RoundTrip.antt =====
-- A quoted name or literal is read back as it was: by UnquoteName and by doubling alone.
use gosmo.Base.{
  ==_iff, ◌&&◌, ◌≤◌, ℕ, suc, ◌-◌, ◌*◌, ◌≡◌, refl, ap, sym, ◌∙◌, true, false, [], ◌∷◌, ◌++◌, arith,
  Bytes, codes, ◌==◌, length, take, drop, length-append, replace_all, count, Bool-cases, inl, inr,
  ◌⊎◌, ltb, take-append_exact,
}
use gosmo.Tsql.Quote.{quote_name, unquote_inner, unquote_name, first_is, last_is}

-- every q twice
unfoldable pub double : ℕ → Bytes → Bytes
double q [] = []
double q (c ∷ s) = elim (c == q) [ true ↦ q ∷ q ∷ double q s | false ↦ c ∷ double q s ]

pub replace_all-double : (q : ℕ) (s : Bytes) → replace_all s (q ∷ []) (q ∷ q ∷ []) ≡ double q s
unfolding replace_all double
replace_all-double q [] = refl
replace_all-double q (c ∷ s) = ground (arith, replace_all-double q s)

pub undouble : (q : ℕ) (s : Bytes) → replace_all (double q s) (q ∷ q ∷ []) (q ∷ []) ≡ s
unfolding replace_all double
undouble q [] = refl
undouble q (c ∷ s) = ground (arith, undouble q s)

count_pairs :
    (q : ℕ) (s : Bytes) → count (double q s) (q ∷ q ∷ []) * 2 ≡ count (double q s) (q ∷ [])
unfolding count double
count_pairs q [] = refl
count_pairs q (c ∷ s) = ground (arith, count_pairs q s)

last_is-append : (q : ℕ) (s : Bytes) → last_is q (s ++ q ∷ []) ≡ true
last_is-append q [] = ground arith
last_is-append q (c ∷ []) = ground arith
last_is-append q (c ∷ d ∷ s) = last_is-append q (d ∷ s)

pub quote_name-double : (name : Bytes) → quote_name name ≡ b'[' ∷ (double b']' name ++ b']' ∷ [])
unfolding quote_name
quote_name-double name = rw (replace_all-double b']' name)

take_inner :
    (q : ℕ) (inner : Bytes) → take (suc (length (inner ++ q ∷ [])) - 2) (inner ++ q ∷ []) ≡ inner
take_inner q inner =
    let e : suc (length (inner ++ q ∷ [])) - 2 ≡ length inner =
      omega (arith, length-append inner (q ∷ [])) in
    rw e (take-append_exact inner (q ∷ []))

length_inner : (q : ℕ) (inner : Bytes) → ltb (suc (length (inner ++ q ∷ []))) 2 ≡ false
length_inner q inner = ground (arith, length-append inner (q ∷ []))

-- What UnquoteName does with a text between two delimiters.
unquote_name-bracket :
    (inner : Bytes)
    → unquote_name (b'[' ∷ (inner ++ b']' ∷ []))
      ≡ unquote_inner (b'[' ∷ (inner ++ b']' ∷ [])) (codes "]") inner
unfolding unquote_name
unquote_name-bracket inner =
    rw (length_inner b']' inner, last_is-append b']' (b'[' ∷ inner), take_inner b']' inner)

unquote_inner-double : (q : ℕ) (name s : Bytes) → unquote_inner name (q ∷ []) (double q s) ≡ s
unfolding unquote_inner
unquote_inner-double q name s = rw (undouble q s) (ground (arith, count_pairs q s))

-- UnquoteName undoes QuoteName, whatever bytes the name holds.
pub unquote_name-quote_name : (name : Bytes) → unquote_name (quote_name name) ≡ name
unquote_name-quote_name name =
    rw (quote_name-double name, unquote_name-bracket (double b']' name))
      (unquote_inner-double b']' (b'[' ∷ (double b']' name ++ b']' ∷ [])) name)

unfoldable pub double_quoted : Bytes → Bytes
double_quoted s = b'"' ∷ (double b'"' s ++ b'"' ∷ [])

-- Two pair counts agree only where every q stands doubled.
count_pairs_le : (q : ℕ) (s : Bytes) → count s (q ∷ q ∷ []) * 2 ≤ count s (q ∷ [])
unfolding count
count_pairs_le q [] = omega arith
count_pairs_le q (c ∷ []) = ground arith
count_pairs_le q (c ∷ d ∷ s) = ground (arith, count_pairs_le q (d ∷ s), count_pairs_le q s)

double-undouble :
    (q : ℕ) (s : Bytes)
    → count s (q ∷ q ∷ []) * 2 ≡ count s (q ∷ [])
    → double q (replace_all s (q ∷ q ∷ []) (q ∷ [])) ≡ s
unfolding count replace_all double
double-undouble q [] h = refl
double-undouble q (c ∷ []) h = ground arith
double-undouble q (c ∷ d ∷ s) h = ground (
  arith,
  double-undouble q (d ∷ s),
  double-undouble q s,
  count_pairs_le q (d ∷ s),
  count_pairs_le q s,
)

-- The text between a first and a last byte.
last-cut :
    (q d : ℕ) (s : Bytes) → last_is q (d ∷ s) ≡ true → d ∷ s ≡ take (length s) (d ∷ s) ++ q ∷ []
last-cut q d [] l = ground arith
last-cut q d (e ∷ s) l = ap (λ r. d ∷ r) (last-cut q e s l)

ends-cut :
    (o q : ℕ) (name : Bytes)
    → ltb (length name) 2 ≡ false
    → first_is o name ≡ true
    → last_is q name ≡ true
    → name ≡ o ∷ (take (length name - 2) (drop 1 name) ++ q ∷ [])
ends-cut o q [] h f l = cc
ends-cut o q (c ∷ []) h f l = cc
ends-cut o q (c ∷ d ∷ s) h f l =
    let e : suc (suc (length s)) - 2 ≡ length s = omega arith in
    let c_is : c ≡ o = (==_iff c o).0 f in rw (e, ← last-cut q d s l) (ap (λ x. x ∷ d ∷ s) c_is)

-- The three results of UnquoteName by its branch, for one pair of delimiters.
unquote_inner_sound :
    (q : ℕ) (name inner : Bytes)
    → (unquote_inner name (q ∷ []) inner ≡ name)
      ⊎ (double q (unquote_inner name (q ∷ []) inner) ≡ inner)
unfolding unquote_inner
unquote_inner_sound q name inner =
    elim (Bool-cases (count inner (q ∷ q ∷ []) * 2 == count inner (q ∷ []))) [
      | inl e ↦ rw e (inr (double-undouble q inner ((==_iff _ _).0 e)))
      | inr e ↦ rw e (inl refl)
    ]

enclosed :
    (o q : ℕ) (name : Bytes)
    → ltb (length name) 2 ≡ false
    → (first_is o name && last_is q name) ≡ true
    → let inner = take (length name - 2) (drop 1 name) in
      (unquote_inner name (q ∷ []) inner ≡ name)
      ⊎ (o ∷ (double q (unquote_inner name (q ∷ []) inner) ++ q ∷ []) ≡ name)
enclosed o q name h fl =
    let inner = take (length name - 2) (drop 1 name) in
    let cut : name ≡ o ∷ (inner ++ q ∷ []) = ends-cut o q name h (ground arith) (ground arith) in
    elim (unquote_inner_sound q name inner) [
      | inl e ↦ inl e
      | inr e ↦ inr (ap (λ s. o ∷ (s ++ q ∷ [])) e ∙ sym cut)
    ]

-- What UnquoteName returns is its argument as it stood, or a name whose quoted form, in brackets
-- or in double quotes, is the argument.
pub unquote_name_sound :
    (name : Bytes)
    → (unquote_name name ≡ name)
      ⊎ ((quote_name (unquote_name name) ≡ name) ⊎ (double_quoted (unquote_name name) ≡ name))
unfolding unquote_name double_quoted
unquote_name_sound name = elim (Bool-cases (ltb (length name) 2)) [
  | inl short ↦ rw short (inl refl)
  | inr long ↦ elim (Bool-cases (first_is b'[' name && last_is b']' name)) [
    | inl e ↦
        rw (long, e)
          (elim (enclosed b'[' b']' name long e) [
            | inl s ↦ inl s
            | inr s ↦ inr (inl (quote_name-double _ ∙ s))
          ])
    | inr ne ↦ elim (Bool-cases (first_is b'"' name && last_is b'"' name)) [
      | inl e ↦
          rw (long, ne, e)
            (elim (enclosed b'"' b'"' name long e) [ inl s ↦ inl s | inr s ↦ inr (inr s) ])
      | inr ne2 ↦ rw (long, ne, ne2) (inl refl)
    ]
  ]
]
