-- ===== src/Collation/Keys.antt =====
-- When names of ASCII are the same, by the parts of the collation's name.
use gosmo.Base.Utf8.{runes, runes_behind, rune_at, rune_bytes, text_of_runes}
use gosmo.Base.{
  ℕ, ◌+◌, ◌<◌, ◌≡◌, ◌≢◌, refl, sym, ap, ◌∙◌, Bool, true, false, not, ◌&&◌, ◌||◌, List, [], ◌∷◌,
  ◌++◌, map, Bytes, codes, arith, ltb, leb, ◌==◌, if◌then◌else◌, contains_func, All, Lacks, str_eq,
  str_eq_sound, str_eq_refl, ◌↔◌, subst,
}
use gosmo.Names.{to_upper}
use gosmo.Collation.{
  add_to_first, split_tokens, collation_ignores_case, fold_key_rune, name_key, same_name,
}

abbrev pub IsAscii : Bytes → Type 0
IsAscii s = All (λ c. c < 128) s

-- strings.ToLower of ASCII
abbrev pub lower : ℕ → ℕ
lower c = if leb b'A' c && leb c b'Z' then c + 32 else c

-- The parts with an underscore between them.
abbrev pub join_tokens : Bytes → List Bytes → Bytes
join_tokens t [] = t
join_tokens t (u ∷ us) = t ++ (b'_' ∷ join_tokens u us)

-- A part that says that case, or every byte, counts.
abbrev pub tells_case_apart : Bytes → Bool
tells_case_apart t =
    str_eq (map to_upper t) (codes "CS")
    || str_eq (map to_upper t) (codes "BIN")
    || str_eq (map to_upper t) (codes "BIN2")

abbrev pub AreSame : Bool → Bytes → Bytes → Type 0
AreSame true a b = a ≡ b
AreSame false a b = map lower a ≡ map lower b

to_upper-ne-underscore : (c : ℕ) → c ≢ b'_' → (to_upper c == b'_') ≡ false
unfolding to_upper
to_upper-ne-underscore c h = ground (arith, h)

split_tokens_code :
    (c : ℕ) (s : Bytes)
    → (c == b'_') ≡ false
    → split_tokens (c ∷ s) ≡ add_to_first c (split_tokens s)
unfolding split_tokens
split_tokens_code c s e = rw (e, split_tokens) refl

split_tokens_last : (t : Bytes) → Lacks b'_' t → split_tokens (map to_upper t) ≡ map to_upper t ∷ []
unfolding split_tokens
split_tokens_last [] h = refl
split_tokens_last (c ∷ t) h =
    split_tokens_code (to_upper c) (map to_upper t) (to_upper-ne-underscore c h.0)
    ∙ ap (add_to_first (to_upper c)) (split_tokens_last t h.1)

split_tokens_next :
    (t s : Bytes)
    → Lacks b'_' t
    → split_tokens (map to_upper (t ++ (b'_' ∷ s))) ≡ map to_upper t ∷ split_tokens (map to_upper s)
unfolding split_tokens
split_tokens_next [] s h = unfold to_upper in refl
split_tokens_next (c ∷ t) s h =
    split_tokens_code (to_upper c) (map to_upper (t ++ (b'_' ∷ s))) (to_upper-ne-underscore c h.0)
    ∙ ap (add_to_first (to_upper c)) (split_tokens_next t s h.1)

-- The parts are found again.
split_tokens-join_tokens :
    (t : Bytes) (ts : List Bytes)
    → All (Lacks b'_') (t ∷ ts)
    → split_tokens (map to_upper (join_tokens t ts)) ≡ map (map to_upper) (t ∷ ts)
split_tokens-join_tokens t [] h = split_tokens_last t h.0
split_tokens-join_tokens t (u ∷ us) h =
    split_tokens_next t (join_tokens u us) h.0
    ∙ ap (λ xs. map to_upper t ∷ xs) (split_tokens-join_tokens u us h.1)

contains_func-map :
    (p : Bytes → Bool) (f : Bytes → Bytes) (ts : List Bytes)
    → contains_func p (map f ts) ≡ contains_func (λ t. p (f t)) ts
contains_func-map p f [] = refl
contains_func-map p f (t ∷ ts) = ap (λ b. p (f t) || b) (contains_func-map p f ts)

pub collation_ignores_case-join_tokens :
    (t : Bytes) (ts : List Bytes)
    → All (Lacks b'_') (t ∷ ts)
    → collation_ignores_case (join_tokens t ts) ≡ not (contains_func tells_case_apart (t ∷ ts))
unfolding collation_ignores_case
collation_ignores_case-join_tokens t ts h =
    ap
      (λ xs. not (
        contains_func
          (λ t. str_eq t (codes "CS") || str_eq t (codes "BIN") || str_eq t (codes "BIN2")) xs))
      (split_tokens-join_tokens t ts h)
    ∙ ap not (
        contains_func-map
          (λ t. str_eq t (codes "CS") || str_eq t (codes "BIN") || str_eq t (codes "BIN2"))
          (map to_upper) (t ∷ ts))

-- The runes of ASCII are its bytes.
runes_behind_ascii : (s : Bytes) → IsAscii s → runes_behind 0 s ≡ s
unfolding runes_behind rune_at
runes_behind_ascii [] h = refl
runes_behind_ascii (c ∷ s) h =
    let low : ltb c 128 ≡ true = ground (arith, h.0) in rw (low, runes_behind_ascii s h.1) refl

one_byte : (r : ℕ) → r < 128 → rune_bytes r ≡ r ∷ []
unfolding rune_bytes
one_byte r k = ground (arith, k)

text_of_runes-upper :
    (simple_fold : ℕ → ℕ) (s : Bytes)
    → IsAscii s
    → text_of_runes (map (fold_key_rune simple_fold) s) ≡ map to_upper s
unfolding text_of_runes
text_of_runes-upper simple_fold [] h = refl
text_of_runes-upper simple_fold (c ∷ s) h =
    rw (folded c h.0, text_of_runes-upper simple_fold s h.1) refl
  where
    folded : (c : ℕ) → c < 128 → rune_bytes (fold_key_rune simple_fold c) ≡ to_upper c ∷ []
    folded c k =
        let upper : fold_key_rune simple_fold c ≡ to_upper c =
          unfold fold_key_rune to_upper in ground (arith, k) in
        let low : to_upper c < 128 = unfold to_upper in ground (arith, k) in
        rw upper (one_byte (to_upper c) low)

-- Upper case tells the same runes apart as lower case.
lower-of-upper : (c d : ℕ) → to_upper c ≡ to_upper d → lower c ≡ lower d
unfolding to_upper
lower-of-upper c d h = ground (arith, h)

upper-of-lower : (c d : ℕ) → lower c ≡ lower d → to_upper c ≡ to_upper d
unfolding to_upper
upper-of-lower c d h = ground (arith, h)

abbrev pub tail_or_nil : Bytes → Bytes
tail_or_nil [] = []
tail_or_nil (c ∷ s) = s

abbrev pub head_or_zero : Bytes → ℕ
head_or_zero [] = 0
head_or_zero (c ∷ s) = c

-- Two maps that agree on which runes are equal agree on which texts are.
map-inj_of :
    (f g : ℕ → ℕ)
    → ((c d : ℕ) → f c ≡ f d → g c ≡ g d)
    → (a b : Bytes) → map f a ≡ map f b
    → map g a ≡ map g b
map-inj_of f g h [] [] e = refl
map-inj_of f g h [] (d ∷ b) e = absurd (cc e)
map-inj_of f g h (c ∷ a) [] e = absurd (cc e)
map-inj_of f g h (c ∷ a) (d ∷ b) e =
    let first : f c ≡ f d = ap head_or_zero e in
    let rest : map f a ≡ map f b = ap tail_or_nil e in cc (h c d first, map-inj_of f g h a b rest)

module _ (simple_fold : ℕ → ℕ) (collation : Bytes) where
  name_key-ignoring :
      (s : Bytes)
      → IsAscii s
      → collation_ignores_case collation ≡ true
      → name_key simple_fold collation s ≡ map to_upper s
  unfolding name_key runes
  name_key-ignoring s low e =
      rw (e, name_key)
        (ap (λ x. text_of_runes (map (fold_key_rune simple_fold) x)) (runes_behind_ascii s low)
          ∙ text_of_runes-upper simple_fold s low)

  pub name_key-telling :
      (s : Bytes) → collation_ignores_case collation ≡ false → name_key simple_fold collation s ≡ s
  unfolding name_key
  name_key-telling s e = rw (e, name_key) refl

  pub same_keys :
      (a b : Bytes)
      → (same_name simple_fold collation a b ≡ true)
        ↔ (name_key simple_fold collation a ≡ name_key simple_fold collation b)
  unfolding same_name
  same_keys a b = (
    str_eq_sound _ _,
    λ e.
        subst (λ x. str_eq (name_key simple_fold collation a) x ≡ true) e
          (str_eq_refl (name_key simple_fold collation a)),
  )

  same_name-AreSame :
      (a b : Bytes) (apart : Bool)
      → IsAscii a
      → IsAscii b
      → collation_ignores_case collation ≡ not apart
      → (same_name simple_fold collation a b ≡ true) ↔ AreSame apart a b
  same_name-AreSame a b true low_a low_b e =
      let same = same_keys a b in
      let key_a = name_key-telling a e in
      let key_b = name_key-telling b e in
      (λ h. sym key_a ∙ same.0 h ∙ key_b, λ h. same.1 (key_a ∙ h ∙ sym key_b))
  same_name-AreSame a b false low_a low_b e =
      let same = same_keys a b in
      let key_a = name_key-ignoring a low_a e in
      let key_b = name_key-ignoring b low_b e in
      (
        λ h. map-inj_of to_upper lower lower-of-upper a b (sym key_a ∙ same.0 h ∙ key_b),
        λ h. same.1 (key_a ∙ map-inj_of lower to_upper upper-of-lower a b h ∙ sym key_b),
      )

-- Two names of ASCII are the same exactly if they are equal, where a part of the collation's name
-- between underscores is CS, BIN or BIN2 in any case, and exactly if they are equal in lower case
-- where none is.
pub same_name_lem :
    (simple_fold : ℕ → ℕ) (t : Bytes) (ts : List Bytes) (a b : Bytes)
    → All (Lacks b'_') (t ∷ ts)
    → IsAscii a
    → IsAscii b
    → (same_name simple_fold (join_tokens t ts) a b ≡ true)
      ↔ AreSame (contains_func tells_case_apart (t ∷ ts)) a b
same_name_lem simple_fold t ts a b parts low_a low_b =
    same_name-AreSame simple_fold (join_tokens t ts) a b (contains_func tells_case_apart (t ∷ ts))
      low_a low_b (collation_ignores_case-join_tokens t ts parts)
