-- ===== src/Tsql/Quote.antt =====
-- tsql/quote.go: quoting of identifiers and literals.
pub mod RoundTrip
pub mod Lexed
use gosmo.Base.{
  ℕ, ◌-◌, ◌*◌, ◌≡◌, refl, Bool, false, ◌&&◌, [], ◌∷◌, ◌++◌, Bytes, codes, ltb, ◌==◌, if◌then◌else◌,
  length, take, drop, str_eq, replace_all, count,
}

unfoldable pub quote_name : Bytes → Bytes
unfolding replace_all
quote_name name = codes "[" ++ replace_all name (codes "]") (codes "]]") ++ codes "]"

unfoldable pub qualified_name : Bytes → Bytes → Bytes
unfolding quote_name str_eq
qualified_name schema name =
    if str_eq schema [] then quote_name name else quote_name schema ++ codes "." ++ quote_name name

unfoldable pub quote_ansi_literal : Bytes → Bytes
unfolding replace_all
quote_ansi_literal s = codes "'" ++ replace_all s (codes "'") (codes "''") ++ codes "'"

unfoldable pub quote_literal : Bytes → Bytes
unfolding quote_ansi_literal
quote_literal s = codes "N" ++ quote_ansi_literal s

-- The part of UnquoteName behind its switch.
unfoldable pub unquote_inner : Bytes → Bytes → Bytes → Bytes
unfolding replace_all count
unquote_inner name closer inner =
    if count inner (closer ++ closer) * 2 == count inner closer
    then replace_all inner (closer ++ closer) closer
    else name

-- name[0] and name[len(name)-1]
abbrev pub first_is : ℕ → Bytes → Bool
first_is b [] = false
first_is b (c ∷ s) = c == b

abbrev pub last_is : ℕ → Bytes → Bool
last_is b [] = false
last_is b (c ∷ []) = c == b
last_is b (c ∷ d ∷ s) = last_is b (d ∷ s)

unfoldable pub unquote_name : Bytes → Bytes
unquote_name name =
    let inner = take (length name - 2) (drop 1 name) in
    if ltb (length name) 2
    then name
    else if first_is b'[' name && last_is b']' name
    then unquote_inner name (codes "]") inner
    else if first_is b'"' name && last_is b'"' name
    then unquote_inner name (codes "\"") inner
    else name

unquote_test : unquote_name (codes "[a]]b]") ≡ codes "a]b"
unfolding unquote_name unquote_inner
unquote_test = refl

unquote_two : unquote_name (codes "[dbo].[t]") ≡ codes "[dbo].[t]"
unfolding unquote_name unquote_inner
unquote_two = refl
