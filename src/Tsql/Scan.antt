-- ===== src/Tsql/Scan.antt =====
-- tsql/scan.go: the lexical walk over T-SQL text. A suffix of the text stands for the index i; the
-- walk yields pieces, and `locate` gives them the Start and End of the source's spans.
pub mod Tiling
pub mod Fuel
pub mod Stable
pub mod Reread
use gosmo.Base.{
  ℕ, zero, suc, ◌+◌, ◌-◌, ◌≡◌, refl, Bool, true, false, not, ◌&&◌, ◌||◌, Option, none, some, List,
  [], ◌∷◌, ◌++◌, Bytes, codes, leb, ◌==◌, if◌then◌else◌, length, take, drop, slice, has_prefix,
  replace_all,
}

pub data SpanKind : Type 0 where
  code line_comment block_comment literal n_literal bracket_ident quoted_ident : SpanKind

-- s[start:stop] is the whole of the span.
pub record Span : Type 0 where
  pub kind : SpanKind
  pub start : ℕ
  pub stop : ℕ
  pub closed : Bool

-- A span by its text.
pub record Piece : Type 0 where
  pub kind : SpanKind
  pub text : Bytes
  pub closed : Bool

abbrev pub apostrophe : ℕ
apostrophe = 39

abbrev pub newline : ℕ
newline = 10

unfoldable pub is_ident_byte : ℕ → Bool
is_ident_byte c =
    c == b'_'
    || c == b'@'
    || c == b'#'
    || c == b'$'
    || (leb b'0' c && leb c b'9')
    || (leb b'a' c && leb c b'z')
    || (leb b'A' c && leb c b'Z')

-- What one inner loop reads: its text, what follows it, and whether it was closed.
pub record Run : Type 0 where
  pub text : Bytes
  pub rest : Bytes
  pub closed : Bool

unfoldable pub push : Bytes → Run → Run
push p r = record r { text = p ++ r.text }

-- scanDelimited, from behind the opening delimiter
unfoldable pub scan_delimited : ℕ → Bytes → Run
unfolding push
scan_delimited closer [] = record { text = []; rest = []; closed = false }
scan_delimited closer (c ∷ []) = record { text = c ∷ []; rest = []; closed = c == closer }
scan_delimited closer (c ∷ d ∷ s) = elim (c == closer) [
  | false ↦ push (c ∷ []) (scan_delimited closer (d ∷ s))
  | true ↦ elim (d == closer) [
    | true ↦ push (c ∷ d ∷ []) (scan_delimited closer s)
    | false ↦ record { text = c ∷ []; rest = d ∷ s; closed = true }
  ]
]

-- a -- comment: up to its newline, or to the end of the text
unfoldable pub scan_line : Bytes → Run
unfolding push
scan_line [] = record { text = []; rest = []; closed = true }
scan_line (c ∷ s) = elim (c == newline) [
  | true ↦ record { text = []; rest = c ∷ s; closed = true }
  | false ↦ push (c ∷ []) (scan_line s)
]

-- the loop of a block comment, from behind its opening; the first argument is `depth`
unfoldable pub scan_block : ℕ → Bytes → Run
unfolding push
scan_block zero s = record { text = []; rest = s; closed = true }
scan_block (suc k) [] = record { text = []; rest = []; closed = false }
scan_block (suc k) (c ∷ []) = record { text = c ∷ []; rest = []; closed = false }
scan_block (suc k) (c ∷ d ∷ s) = elim (c == b'/' && d == b'*') [
  | true ↦ push (c ∷ d ∷ []) (scan_block (suc (suc k)) s)
  | false ↦ elim (c == b'*' && d == b'/') [
    | true ↦ push (c ∷ d ∷ []) (scan_block k s)
    | false ↦ push (c ∷ []) (scan_block (suc k) (d ∷ s))
  ]
]

-- i == 0 || !isIdentByte(s[i-1]); `prev` is s[i-1]
unfoldable pub word_start : Option ℕ → Bool
unfolding is_ident_byte
word_start none = true
word_start (some c) = not (is_ident_byte c)

-- The conditions of the walk's switch: the kind of the span that opens here.
unfoldable pub opener : Option ℕ → Bytes → Option SpanKind
unfolding word_start has_prefix
opener prev [] = none
opener prev (c ∷ s) =
    if c == apostrophe
    then some literal
    else if (c == b'N' || c == b'n') && has_prefix (apostrophe ∷ []) s && word_start prev
    then some n_literal
    else if c == b'['
    then some bracket_ident
    else if c == b'"'
    then some quoted_ident
    else if has_prefix (codes "--") (c ∷ s)
    then some line_comment
    else if has_prefix (codes "/*") (c ∷ s)
    then some block_comment
    else none

-- Its cases: what each reads from the place where it opens.
unfoldable pub scan_as : SpanKind → Bytes → Run
unfolding push
scan_as literal s = push (take 1 s) (scan_delimited apostrophe (drop 1 s))
scan_as n_literal s = push (take 2 s) (scan_delimited apostrophe (drop 2 s))
scan_as bracket_ident s = push (take 1 s) (scan_delimited b']' (drop 1 s))
scan_as quoted_ident s = push (take 1 s) (scan_delimited b'"' (drop 1 s))
scan_as line_comment s = scan_line s
scan_as block_comment s = push (take 2 s) (scan_block 1 (drop 2 s))
scan_as code s = record { text = []; rest = s; closed = true }

-- The pending code, unless it is empty, in front of what follows.
unfoldable pub flush : Bytes → List Piece → List Piece
flush [] ps = ps
flush (c ∷ p) ps = record { kind = code; text = c ∷ p; closed = true } ∷ ps

-- the last byte of a text behind `prev`
unfoldable pub last_byte : Option ℕ → Bytes → Option ℕ
last_byte prev [] = prev
last_byte prev (c ∷ s) = last_byte (some c) s

-- The walk, on fuel: each round takes at least one byte. `pending` is the code span so far.
unfoldable pub walk : ℕ → Option ℕ → Bytes → Bytes → List Piece
unfolding flush last_byte
walk zero prev pending s = []
walk (suc f) prev pending [] = flush pending []
walk (suc f) prev pending (c ∷ s) = elim (opener prev (c ∷ s)) [
  | none ↦ walk f (some c) (pending ++ c ∷ []) s
  | some k ↦
      let run = scan_as k (c ∷ s) in
      flush pending (
        record { kind = k; text = run.text; closed = run.closed }
        ∷ walk f (last_byte prev run.text) [] run.rest)
]

unfoldable pub pieces : Bytes → List Piece
unfolding walk opener scan_as scan_delimited scan_line scan_block
pieces s = walk (suc (length s)) none [] s

unfoldable pub locate : ℕ → List Piece → List Span
locate i [] = []
locate i (p ∷ ps) =
    record { kind = p.kind; start = i; stop = i + length p.text; closed = p.closed }
    ∷ locate (i + length p.text) ps

unfoldable pub spans : Bytes → List Span
spans s = locate 0 (pieces s)

-- s[sp.Start:sp.End]
abbrev pub text_of : Bytes → Span → Bytes
text_of s sp = slice s sp.start sp.stop

unfoldable pub is_literal : SpanKind → Bool
is_literal literal = true
is_literal n_literal = true
is_literal _ = false

-- Unescape of a quoted span with this prefix length and closer
unfoldable pub unquoted : ℕ → ℕ → Span → Bytes → Bytes
unquoted skip closer sp s =
    let to = if sp.closed then sp.stop - 1 else sp.stop in
    replace_all (slice s (sp.start + skip) to) (closer ∷ closer ∷ []) (closer ∷ [])

unfoldable pub unescape_kind : SpanKind → Span → Bytes → Bytes
unescape_kind literal sp s = unquoted 1 apostrophe sp s
unescape_kind n_literal sp s = unquoted 2 apostrophe sp s
unescape_kind bracket_ident sp s = unquoted 1 b']' sp s
unescape_kind quoted_ident sp s = unquoted 1 b'"' sp s
unescape_kind _ sp s = text_of s sp

unfoldable pub unescape : Span → Bytes → Bytes
unfolding unescape_kind
unescape sp s = unescape_kind sp.kind sp s
