-- ===== src/Tsql/Comment/Lexed.antt =====
-- The lexer reads a comment around a safe name as one span.
use gosmo.Base.Utf8.{runes, rune_bytes, text_of_runes}
use gosmo.Base.{
  ℕ, ◌≤◌, ◌≡◌, refl, Bool, true, false, not, ◌&&◌, Option, none, some, [], ◌∷◌, ◌++◌, Bytes, codes,
  arith, if◌then◌else◌, contains_text, has_prefix, ◌≢◌, List, map, ltb, Bool-cases, inl, inr, Lacks,
}
use gosmo.Tsql.Scan.{
  line_comment, block_comment, push, scan_line, scan_block, scan_as, opener, last_byte, newline,
}
use gosmo.Tsql.Scan.Fuel.{pieces_after, pieces_after_span}
use gosmo.Tsql.Comment.{is_control, comment_safe, makes_pair, space_pairs, block_comment_safe}

scan_line-Lacks :
    (s rest : Bytes)
    → Lacks newline s
    → scan_line (s ++ (newline ∷ rest)) ≡ record { text = s; rest = newline ∷ rest; closed = true }
unfolding scan_line
scan_line-Lacks [] rest h = refl
scan_line-Lacks (c ∷ s) rest h = ground (arith, scan_line-Lacks s rest h.1, h.0)

-- The bytes of a rune that is no line break.
rune_bytes-Lacks : (r : ℕ) → r ≢ newline → Lacks newline (rune_bytes r)
unfolding rune_bytes
rune_bytes-Lacks r h = elim (Bool-cases (ltb r 128)) [
  | inl e ↦ rw e (h, tt)
  | inr e ↦ elim (Bool-cases (ltb r 2048)) [
    | inl f ↦ rw (e, f) (omega arith, (omega arith, tt))
    | inr f ↦ elim (Bool-cases (ltb r 65536)) [
      | inl g ↦ rw (e, f, g) (omega arith, (omega arith, (omega arith, tt)))
      | inr g ↦ rw (e, f, g) (omega arith, (omega arith, (omega arith, (omega arith, tt))))
    ]
  ]
]

Lacks-append : (x : ℕ) (s t : Bytes) → Lacks x s → Lacks x t → Lacks x (s ++ t)
Lacks-append x [] t h k = k
Lacks-append x (c ∷ s) t h k = (h.0, Lacks-append x s t h.1 k)

text_of_runes-Lacks :
    (rs : List ℕ) → Lacks newline (text_of_runes (map (λ r. if is_control r then b' ' else r) rs))
unfolding text_of_runes
text_of_runes-Lacks [] = tt
text_of_runes-Lacks (r ∷ rs) =
    Lacks-append newline (rune_bytes (if is_control r then b' ' else r)) _
      (rune_bytes-Lacks (if is_control r then b' ' else r) (spaced r)) (text_of_runes-Lacks rs)
  where
    spaced : (r : ℕ) → (if is_control r then b' ' else r) ≢ newline
    spaced r = unfold is_control in ground arith

comment_safe-Lacks : (s : Bytes) → Lacks newline (comment_safe s)
unfolding comment_safe
comment_safe-Lacks s = text_of_runes-Lacks (runes s)

-- A line comment around a name made safe ends at its own line break, whatever the name holds, and
-- lexing goes on there.
pub pieces_after-comment_safe :
    (prev : Option ℕ) (name rest : Bytes)
    → pieces_after prev (codes "-- " ++ (comment_safe name ++ (newline ∷ rest)))
      ≡ record { kind = line_comment; text = codes "-- " ++ comment_safe name; closed = true }
        ∷ pieces_after (last_byte prev (codes "-- " ++ comment_safe name)) (newline ∷ rest)
pieces_after-comment_safe prev name rest =
    let run : scan_line (codes "-- " ++ comment_safe name ++ (newline ∷ rest))
        ≡ record { text = codes "-- " ++ comment_safe name; rest = newline ∷ rest; closed = true } =
      scan_line-Lacks (codes "-- " ++ comment_safe name) rest
        (omega arith, (omega arith, (omega arith, comment_safe-Lacks name))) in
    rw
      (pieces_after_span prev b'-' (codes "- " ++ (comment_safe name ++ (newline ∷ rest)))
        {k = line_comment} (unfold opener in refl))
      (unfold scan_as in rw run)

-- No two neighbours, the one before the text included, open or close a comment.
NoPair : Option ℕ → Bytes → Type 0
NoPair prev [] = Unit
NoPair prev (c ∷ s) = (makes_pair prev c ≡ false) × NoPair (some c) s

NoPair-space_pairs : (prev : Option ℕ) (s : Bytes) → NoPair prev (space_pairs prev s)
unfolding space_pairs NoPair
NoPair-space_pairs prev [] = tt
NoPair-space_pairs prev (r ∷ s) = elim (Bool-cases (makes_pair prev r)) [
  | inl e ↦ rw (e, space_pairs) (spaced_left prev, (spaced_right r, NoPair-space_pairs (some r) s))
  | inr e ↦ rw (e, space_pairs) (e, NoPair-space_pairs (some r) s)
]
  where
    spaced_left : (prev : Option ℕ) → makes_pair prev b' ' ≡ false
    spaced_left none = unfold makes_pair in refl
    spaced_left (some p) = unfold makes_pair in ground arith

    spaced_right : (r : ℕ) → makes_pair (some b' ') r ≡ false
    spaced_right r = unfold makes_pair in refl

NoPair-contains_text :
    (prev : Option ℕ) (c : ℕ) (s : Bytes)
    → makes_pair prev c ≡ false
    → contains_text (c ∷ s) (codes "*/") ≡ false
    → contains_text (c ∷ s) (codes "/*") ≡ false
    → NoPair prev (c ∷ s)
unfolding NoPair contains_text has_prefix makes_pair
NoPair-contains_text prev c [] h o k = (h, tt)
NoPair-contains_text prev c (d ∷ s) h o k =
    (h, NoPair-contains_text (some c) d s (ground arith) (ground arith) (ground arith))

-- Bytes from 128 on are of no pair.
high_left : (p r : ℕ) → 128 ≤ p → makes_pair (some p) r ≡ false
unfolding makes_pair
high_left p r h = ground (arith, h)

high_right : (prev : Option ℕ) (r : ℕ) → 128 ≤ r → makes_pair prev r ≡ false
unfolding makes_pair
high_right none r h = refl
high_right (some p) r h = ground (arith, h)

-- The byte before a text, for the rune before it: no pair begins behind either that is none of the other.
abbrev Stands : Option ℕ → Option ℕ → Type 0
Stands prev byte = (r : ℕ) → makes_pair prev r ≡ false → makes_pair byte r ≡ false

NoPair-text_of_runes :
    (prev byte : Option ℕ) (rs : List ℕ)
    → Stands prev byte
    → NoPair prev rs
    → NoPair byte (text_of_runes rs)
unfolding NoPair text_of_runes rune_bytes
NoPair-text_of_runes prev byte [] w h = tt
NoPair-text_of_runes prev byte (r ∷ rs) w h = elim (Bool-cases (ltb r 128)) [
  | inl e ↦ rw e (w r h.0, NoPair-text_of_runes (some r) (some r) rs (λ q k. k) h.1)
  | inr e ↦ elim (Bool-cases (ltb r 2048)) [
    | inl f ↦
        rw (e, f)
          (
            high_right byte _ (omega arith),
            (
              high_right _ _ (omega arith),
              NoPair-text_of_runes (some r) _ rs (λ q k. high_left _ q (omega arith)) h.1,
            ),
          )
    | inr f ↦ elim (Bool-cases (ltb r 65536)) [
      | inl g ↦
          rw (e, f, g)
            (
              high_right byte _ (omega arith),
              (
                high_right _ _ (omega arith),
                (
                  high_right _ _ (omega arith),
                  NoPair-text_of_runes (some r) _ rs (λ q k. high_left _ q (omega arith)) h.1,
                ),
              ),
            )
      | inr g ↦
          rw (e, f, g)
            (
              high_right byte _ (omega arith),
              (
                high_right _ _ (omega arith),
                (
                  high_right _ _ (omega arith),
                  (
                    high_right _ _ (omega arith),
                    NoPair-text_of_runes (some r) _ rs (λ q k. high_left _ q (omega arith)) h.1,
                  ),
                ),
              ),
            )
    ]
  ]
]

NoPair-choice :
    (b : Bool) (s : Bytes)
    → (b ≡ true → NoPair none s)
    → NoPair none (if b then s else text_of_runes (space_pairs none (runes s)))
NoPair-choice true s h = h refl
NoPair-choice false s h =
    NoPair-text_of_runes none none (space_pairs none (runes s)) (λ r k. k)
      (NoPair-space_pairs none (runes s))

NoPair-block_comment_safe : (s : Bytes) → NoPair none (block_comment_safe s)
unfolding block_comment_safe
NoPair-block_comment_safe [] = unfold NoPair contains_text in tt
NoPair-block_comment_safe (c ∷ s) =
    NoPair-choice
      (not (contains_text (c ∷ s) (codes "*/")) && not (contains_text (c ∷ s) (codes "/*"))) (c ∷ s)
      (λ e. NoPair-contains_text none c s (unfold makes_pair in refl) (ground arith) (ground arith))

NoPair-behind_space : (s : Bytes) → NoPair none s → NoPair none (b' ' ∷ s)
unfolding NoPair makes_pair
NoPair-behind_space [] h = (refl, tt)
NoPair-behind_space (c ∷ s) h = (refl, (refl, h.1))

scan_block-NoPair :
    (prev : Option ℕ) (s rest : Bytes)
    → NoPair prev s
    → scan_block 1 (s ++ (b' ' ∷ b'*' ∷ b'/' ∷ rest))
      ≡ record { text = s ++ codes " */"; rest = rest; closed = true }
unfolding NoPair scan_block makes_pair
scan_block-NoPair prev [] rest h = refl
scan_block-NoPair prev (c ∷ []) rest h = ground arith
scan_block-NoPair prev (c ∷ d ∷ s) rest h =
    ground (arith, scan_block-NoPair (some c) (d ∷ s) rest h.1, h.1.0)

-- A block comment around a name made safe is one closed span, whatever the name holds, and lexing
-- goes on behind it.
pub pieces_after-block_comment_safe :
    (prev : Option ℕ) (name rest : Bytes)
    → pieces_after prev (codes "/* " ++ (block_comment_safe name ++ (codes " */" ++ rest)))
      ≡ record {
        kind = block_comment;
        text = codes "/* " ++ (block_comment_safe name ++ codes " */");
        closed = true;
      }
        ∷ pieces_after
            (last_byte prev (codes "/* " ++ (block_comment_safe name ++ codes " */")))
            rest
pieces_after-block_comment_safe prev name rest =
    let front = NoPair-behind_space (block_comment_safe name) (NoPair-block_comment_safe name) in
    let run = scan_block-NoPair none (b' ' ∷ block_comment_safe name) rest front in
    rw
      (pieces_after_span prev b'/'
        (codes "* " ++ (block_comment_safe name ++ (codes " */" ++ rest))) {k = block_comment}
        (unfold opener in refl))
      (unfold scan_as push in rw run)
