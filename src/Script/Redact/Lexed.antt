-- ===== src/Script/Redact/Lexed.antt =====
-- The statement that redactSecrets shows, lexed again.
use gosmo.Base.{
  ℕ, zero, suc, ◌+◌, ◌≡◌, refl, sym, ◌∙◌, Bool, true, false, List, [], ◌∷◌, Option, none, some,
  ◌++◌, append-nil, append_assoc, Bytes, Bool-cases, Option-cases, inl, inr, length, length-append,
}
use gosmo.Tsql.Scan.{
  SpanKind, literal, n_literal, is_literal, Span, Piece, unescape, spans, locate, pieces, opener,
  scan_as, walk, last_byte, flush, apostrophe, word_start,
}
use gosmo.Tsql.Scan.Tiling.{
  texts, texts-pieces, AllPos, AllPos-pieces, piece_as, walk_code, walk_span,
}
use gosmo.Tsql.Scan.Fuel.{pieces_after, pieces_after_span}
use gosmo.Tsql.Quote.Lexed.{
  pieces_after-quote_literal, pieces_after-quote_ansi_literal, unquoted-double,
  quote_literal-double, quote_ansi_literal-double,
}
use gosmo.Tsql.Scan.Stable.{IsAlike}
use gosmo.Tsql.Scan.Reread.{scan_as-IsStable, opener-scan_as}
use gosmo.Tsql.Quote.{quote_literal, quote_ansi_literal, first_is}
use gosmo.Script.Redact.Spliced.{own_span, unescape_at}

abbrev pub own_literal : Bool → Bytes → List Bytes → List Bytes
own_literal true v vs = v ∷ vs
own_literal false v vs = vs

-- The values of the literals of a statement, in their order.
unfoldable pub literals_of : Bytes → List Span → List Bytes
unfolding is_literal unescape
literals_of stmt [] = []
literals_of stmt (sp ∷ sps) =
    own_literal (is_literal sp.kind) (unescape sp stmt) (literals_of stmt sps)

unfoldable pub literals : Bytes → List Bytes
unfolding literals_of spans
literals stmt = literals_of stmt (spans stmt)

-- The same by the pieces.
abbrev pub values : List Piece → List Bytes
values [] = []
values (p ∷ ps) = own_literal (is_literal p.kind) (unescape (own_span p) p.text) (values ps)

literals_of-values :
    (done : Bytes) (ps : List Piece)
    → AllPos ps
    → literals_of (done ++ texts ps) (locate (length done) ps) ≡ values ps
unfolding locate literals_of
literals_of-values done [] h = refl
literals_of-values done (p ∷ ps) (h, hs) =
    let later : literals_of (done ++ (p.text ++ texts ps)) (locate (length done + length p.text) ps)
        ≡ values ps =
      rw (append_assoc, length-append) at (literals_of-values (done ++ p.text) ps hs) in
    rw (unescape_at done (texts ps) p h, later)

pub literals-values : (s : Bytes) → literals s ≡ values (pieces s)
unfolding literals spans
literals-values s = rw (texts-pieces s) at (literals_of-values [] (pieces s) (AllPos-pieces s))

pub values-flush : (p : Bytes) (ps : List Piece) → values (flush p ps) ≡ values ps
unfolding flush is_literal
values-flush [] ps = refl
values-flush (c ∷ p) ps = refl

-- The pending code holds no literal.
pub values-walk :
    (f : ℕ) (prev : Option ℕ) (p q s : Bytes) → values (walk f prev p s) ≡ values (walk f prev q s)
values-walk zero prev p q s = unfold walk in refl
values-walk (suc f) prev p q [] = unfold walk in values-flush p [] ∙ sym (values-flush q [])
values-walk (suc f) prev p q (c ∷ s) = elim (Option-cases (opener prev (c ∷ s))) [
  | inl e ↦
      rw (walk_code f prev p c s e, walk_code f prev q c s e)
        (values-walk f (some c) (p ++ c ∷ []) (q ++ c ∷ []) s)
  | inr (k, e) ↦
      rw (walk_span f prev p c s k e, walk_span f prev q c s k e, values-flush p, values-flush q)
        refl
]

pub values_code :
    (prev : Option ℕ) (c : ℕ) (s : Bytes)
    → opener prev (c ∷ s) ≡ none
    → values (pieces_after prev (c ∷ s)) ≡ values (pieces_after (some c) s)
unfolding pieces_after
values_code prev c s e =
    rw (walk_code (suc (length s)) prev [] c s e)
      (values-walk (suc (length s)) (some c) (c ∷ []) [] s)

-- A span in front of a text that begins as its rest does.
pub span_again :
    (prev : Option ℕ) (k : SpanKind) (c : ℕ) (s r : Bytes)
    → opener prev (c ∷ s) ≡ some k
    → IsAlike (scan_as k (c ∷ s)).rest r
    → pieces_after prev ((scan_as k (c ∷ s)).text ++ r)
      ≡ piece_as k (scan_as k (c ∷ s)) ∷ pieces_after (last_byte prev (scan_as k (c ∷ s)).text) r
span_again prev k c s r e a =
    opened ((scan_as k (c ∷ s)).text ++ r) (opener-scan_as prev k c s r e)
    ∙ rw (scan_as-IsStable prev k c s e r a) refl
  where
    opened :
        (u : Bytes)
        → opener prev u ≡ some k
        → pieces_after prev u
          ≡ piece_as k (scan_as k u)
            ∷ pieces_after (last_byte prev (scan_as k u).text) (scan_as k u).rest
    opened [] h = (let z : none ≡ some k = unfold opener in h in absurd (cc z))
    opened (d ∷ u) h = pieces_after_span prev d u h

-- The value of a literal that was quoted.
value_quoted :
    (v : Bytes)
    → unescape
        (own_span (record { kind = n_literal; text = quote_literal v; closed = true }))
        (quote_literal v)
      ≡ v
unfolding unescape
value_quoted v =
    rw (quote_literal-double v)
      (rw append-nil at (unquoted-double n_literal (b'N' ∷ apostrophe ∷ []) 39 v []))

value_quoted_ansi :
    (v : Bytes)
    → unescape
        (own_span (record { kind = literal; text = quote_ansi_literal v; closed = true }))
        (quote_ansi_literal v)
      ≡ v
unfolding unescape
value_quoted_ansi v =
    rw (quote_ansi_literal-double v)
      (rw append-nil at (unquoted-double literal (apostrophe ∷ []) 39 v []))

quote_literal_code :
    (prev : Option ℕ) (v rest : Bytes)
    → word_start prev ≡ false
    → values (pieces_after prev (quote_literal v ++ rest))
      ≡ values (pieces_after (some b'N') (quote_ansi_literal v ++ rest))
unfolding quote_literal
quote_literal_code prev v rest w = values_code prev b'N' (quote_ansi_literal v ++ rest) no_span
  where
    no_span : opener prev (b'N' ∷ (quote_ansi_literal v ++ rest)) ≡ none
    no_span = unfold opener quote_ansi_literal in rw w refl

-- A quoted literal stands for its value, even where its N is a part of the word in front of it.
pub values_quoted :
    (prev : Option ℕ) (v rest : Bytes)
    → first_is apostrophe rest ≡ false
    → values (pieces_after prev (quote_literal v ++ rest))
      ≡ v ∷ values (pieces_after (some apostrophe) rest)
unfolding is_literal
values_quoted prev v rest h = elim (Bool-cases (word_start prev)) [
  | inl w ↦ rw (pieces_after-quote_literal prev v rest w h, value_quoted v) refl
  | inr w ↦
      rw
        (
          quote_literal_code prev v rest w,
          pieces_after-quote_ansi_literal (some b'N') v rest h,
          value_quoted_ansi v,
        )
        refl
]
