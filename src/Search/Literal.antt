-- ===== src/Search/Literal.antt =====
-- An escaped text is matched as it stands.
use gosmo.Base.{
  ℕ, ◌≡◌, refl, ap, ◌∙◌, Bool, true, false, not, ◌&&◌, ◌||◌, [], ◌∷◌, ◌++◌, Bytes, arith, ◌==◌,
  has_prefix, contains_text, Bool-cases, inl, inr,
}
use gosmo.Search.{escape_byte, is_wildcard, like_escape, contains_pattern}

-- Some suffix of the text passes the test.
unfoldable pub any_suffix : (Bytes → Bool) → Bytes → Bool
any_suffix f [] = f []
any_suffix f (c ∷ s) = f (c ∷ s) || any_suffix f s

abbrev pub is_end : Bytes → Bool
is_end [] = true
is_end (c ∷ s) = false

-- The text's first character is c, and the rest passes.
unfoldable pub takes : ℕ → (Bytes → Bool) → Bytes → Bool
takes c f [] = false
takes c f (d ∷ s) = c == d && f s

abbrev pub takes_any : (Bytes → Bool) → Bytes → Bool
takes_any f [] = false
takes_any f (d ∷ s) = f s

-- What `LIKE pattern ESCAPE '\'` accepts: % is any text, _ any one character, and the one behind the
-- escape stands for itself. A pattern with a class in brackets is taken to match nothing. The first
-- argument is whether the escape stood in front.
unfoldable pub like : Bool → Bytes → Bytes → Bool
unfolding any_suffix takes
like esc [] = λ s. not esc && is_end s
like true (c ∷ p) = takes c (like false p)
like false (c ∷ p) = elim (c == b'%') [
  | true ↦ any_suffix (like false p)
  | false ↦ elim (c == b'_') [
    | true ↦ takes_any (like false p)
    | false ↦ elim (c == escape_byte) [
      | true ↦ like true p
      | false ↦ elim (c == b'[') [ true ↦ λ s. false | false ↦ takes c (like false p) ]
    ]
  ]
]

any_suffix-end : (s : Bytes) → any_suffix (like false []) s ≡ true
unfolding any_suffix like
any_suffix-end [] = refl
any_suffix-end (c ∷ s) = any_suffix-end s

takes-has_prefix :
    (c : ℕ) (v : Bytes) (f : Bytes → Bool)
    → ((s : Bytes) → f s ≡ has_prefix v s)
    → (s : Bytes) → takes c f s ≡ has_prefix (c ∷ v) s
unfolding takes has_prefix
takes-has_prefix c v f h [] = refl
takes-has_prefix c v f h (d ∷ s) = ap (λ b. c == d && b) (h s)

not_wildcard :
    (c : ℕ)
    → is_wildcard c ≡ false
    → ((c == b'%') ≡ false)
      × ((c == b'_') ≡ false)
      × ((c == escape_byte) ≡ false)
      × ((c == b'[') ≡ false)
unfolding is_wildcard
not_wildcard c h = (ground arith, ground arith, ground arith, ground arith)

-- A character, escaped if it has to be, takes that character.
like_byte :
    (c : ℕ) (v : Bytes)
    → like false (like_escape (c ∷ v) ++ b'%' ∷ [])
      ≡ takes c (like false (like_escape v ++ b'%' ∷ []))
unfolding like_escape
like_byte c v = elim (Bool-cases (is_wildcard c)) [
  | inl e ↦ rw (e, like_escape) (unfold like in refl)
  | inr e ↦
      let n = not_wildcard c e in
      rw (e, like_escape) (unfold like in rw (n.0, n.1, n.2, n.3, like) refl)
]

like_escape-has_prefix : (v s : Bytes) → like false (like_escape v ++ b'%' ∷ []) s ≡ has_prefix v s
unfolding like_escape has_prefix
like_escape-has_prefix [] s = unfold like in any_suffix-end s
like_escape-has_prefix (c ∷ v) s =
    ap (λ f. f s) (like_byte c v)
    ∙ takes-has_prefix c v (like false (like_escape v ++ b'%' ∷ [])) (like_escape-has_prefix v) s

any_suffix-contains_text :
    (f : Bytes → Bool) (v : Bytes)
    → ((s : Bytes) → f s ≡ has_prefix v s)
    → (s : Bytes) → any_suffix f s ≡ contains_text s v
unfolding any_suffix contains_text
any_suffix-contains_text f v h [] = h []
any_suffix-contains_text f v h (c ∷ s) = cc (h (c ∷ s), any_suffix-contains_text f v h s)

-- The pattern that is built from a text matches exactly the texts that contain it, whatever
-- wildcards it holds.
pub contains_pattern-contains_text :
    (value s : Bytes) → like false (contains_pattern value) s ≡ contains_text s value
unfolding contains_pattern like
contains_pattern-contains_text value s =
    any_suffix-contains_text (like false (like_escape value ++ b'%' ∷ [])) value
      (like_escape-has_prefix value) s
