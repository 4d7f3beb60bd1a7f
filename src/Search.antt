-- ===== src/Search.antt =====
-- helpers.go: likeEscape, which search.go, object_filter.go and the securable search put a text
-- into a LIKE pattern by. Texts are lists of code points.
pub mod Literal
use gosmo.Base.{ℕ, ◌≡◌, refl, Bool, true, false, ◌||◌, [], ◌∷◌, ◌++◌, Bytes, codes, ◌==◌}

abbrev pub escape_byte : ℕ
escape_byte = 92

unfoldable pub is_wildcard : ℕ → Bool
is_wildcard c = c == escape_byte || c == b'%' || c == b'_' || c == b'['

-- likeEscaper.Replace
unfoldable pub like_escape : Bytes → Bytes
unfolding is_wildcard
like_escape [] = []
like_escape (c ∷ s) = elim (is_wildcard c) [
  | true ↦ escape_byte ∷ c ∷ like_escape s
  | false ↦ c ∷ like_escape s
]

-- "%" + likeEscape(value) + "%"
unfoldable pub contains_pattern : Bytes → Bytes
unfolding like_escape
contains_pattern value = b'%' ∷ (like_escape value ++ b'%' ∷ [])
