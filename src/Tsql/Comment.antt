-- ===== src/Tsql/Comment.antt =====
-- tsql/comment.go: names made safe inside comments. A name is bytes, and the source walks its runes.
pub mod Lexed
use gosmo.Base.Utf8.{runes, text_of_runes}
use gosmo.Base.{
  ℕ, ◌≡◌, refl, Bool, true, false, not, ◌&&◌, ◌||◌, Option, none, some, List, [], ◌∷◌, map, Bytes,
  codes, ltb, leb, ◌==◌, if◌then◌else◌, contains_text,
}

-- unicode.IsControl: the two blocks of control characters and DEL
unfoldable pub is_control : ℕ → Bool
is_control r = ltb r 32 || (leb 127 r && leb r 159)

unfoldable pub comment_safe : Bytes → Bytes
unfolding is_control runes text_of_runes
comment_safe s = text_of_runes (map (λ r. if is_control r then b' ' else r) (runes s))

-- The two runes of a comment's opening or closing.
unfoldable pub makes_pair : Option ℕ → ℕ → Bool
makes_pair none r = false
makes_pair (some p) r = (p == b'*' && r == b'/') || (p == b'/' && r == b'*')

-- The loop of BlockCommentSafe; `prev` is the rune last written.
unfoldable pub space_pairs : Option ℕ → List ℕ → List ℕ
unfolding makes_pair
space_pairs prev [] = []
space_pairs prev (r ∷ s) =
    let rest = space_pairs (some r) s in if makes_pair prev r then b' ' ∷ r ∷ rest else r ∷ rest

unfoldable pub block_comment_safe : Bytes → Bytes
unfolding space_pairs runes text_of_runes
block_comment_safe s =
    if not (contains_text s (codes "*/")) && not (contains_text s (codes "/*"))
    then s
    else text_of_runes (space_pairs none (runes s))

block_test : block_comment_safe (codes "a*/*b") ≡ codes "a* / *b"
unfolding block_comment_safe space_pairs contains_text
block_test = refl

-- NEL, a control character of two bytes, and a byte that no rune is of.
comment_test : comment_safe (65 ∷ 10 ∷ 194 ∷ 133 ∷ 255 ∷ []) ≡ 65 ∷ 32 ∷ 32 ∷ 239 ∷ 191 ∷ 189 ∷ []
unfolding comment_safe
comment_test = refl
