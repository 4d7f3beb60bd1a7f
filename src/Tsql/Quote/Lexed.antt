-- ===== src/Tsql/Quote/Lexed.antt =====
-- The lexer reads a quoted name or literal as one span, whatever the quoted text holds.
use gosmo.Base.{
  ℕ, ◌+◌, ◌-◌, ◌≡◌, refl, true, false, [], ◌∷◌, ◌++◌, append_assoc, arith, Bytes, ◌==◌, length,
  length-append, Bool-cases, inl, inr, Option, none, some, drop-append_exact, take-append_exact,
}
use gosmo.Tsql.Scan.{
  unquoted, SpanKind, n_literal, literal, bracket_ident, Span, push, scan_delimited, scan_as,
  opener, word_start, last_byte, apostrophe, spans, unescape, locate,
}
use gosmo.Tsql.Scan.Fuel.{pieces_after, pieces_after_span, pieces_after_lem}
use gosmo.Tsql.Quote.{quote_name, quote_literal, quote_ansi_literal, first_is}
use gosmo.Tsql.Quote.RoundTrip.{double, quote_name-double, replace_all-double, undouble}

pub scan_delimited_other :
    (q c : ℕ) (s : Bytes)
    → (c == q) ≡ false
    → scan_delimited q (c ∷ s) ≡ push (c ∷ []) (scan_delimited q s)
unfolding scan_delimited
scan_delimited_other q c [] h = rw h
scan_delimited_other q c (d ∷ s) h = rw (h, scan_delimited)

pub scan_delimited_pair :
    (q : ℕ) (s : Bytes) → scan_delimited q (q ∷ q ∷ s) ≡ push (q ∷ q ∷ []) (scan_delimited q s)
unfolding scan_delimited
scan_delimited_pair q s = ground arith

pub scan_delimited_end :
    (q : ℕ) (rest : Bytes)
    → first_is q rest ≡ false
    → scan_delimited q (q ∷ rest) ≡ record { text = q ∷ []; rest = rest; closed = true }
unfolding scan_delimited
scan_delimited_end q [] h = ground arith
scan_delimited_end q (c ∷ rest) h = ground arith

pub scan_delimited-double :
    (q : ℕ) (v rest : Bytes)
    → first_is q rest ≡ false
    → scan_delimited q (double q v ++ (q ∷ rest))
      ≡ record { text = double q v ++ q ∷ []; rest = rest; closed = true }
unfolding double
scan_delimited-double q [] rest h = scan_delimited_end q rest h
scan_delimited-double q (c ∷ v) rest h = elim (Bool-cases (c == q)) [
  | inl e ↦
      rw
        (
          e,
          double,
          scan_delimited_pair q (double q v ++ (q ∷ rest)),
          scan_delimited-double q v rest h,
        )
        (unfold push in refl)
  | inr e ↦
      rw
        (
          e,
          double,
          scan_delimited_other q c (double q v ++ (q ∷ rest)) e,
          scan_delimited-double q v rest h,
        )
        (unfold push in refl)
]

pub last_byte-append : (prev : Option ℕ) (s : Bytes) (c : ℕ) → last_byte prev (s ++ c ∷ []) ≡ some c
unfolding last_byte
last_byte-append prev [] c = refl
last_byte-append prev (d ∷ s) c = last_byte-append (some d) s c

-- A span that opens with the bytes c ∷ p and is delimited by q, around any text with q doubled.
pub pieces_after_quoted :
    (prev : Option ℕ) (k : SpanKind) (c : ℕ) (p : Bytes) (q : ℕ) (v rest : Bytes)
    → opener prev (c ∷ p ++ (double q v ++ (q ∷ rest))) ≡ some k
    → ((s : Bytes) → scan_as k (c ∷ p ++ s) ≡ push (c ∷ p) (scan_delimited q s))
    → first_is q rest ≡ false
    → pieces_after prev (c ∷ p ++ (double q v ++ (q ∷ rest)))
      ≡ record { kind = k; text = c ∷ p ++ (double q v ++ q ∷ []); closed = true }
        ∷ pieces_after (some q) rest
pieces_after_quoted prev k c p q v rest opens scans h =
    let run : scan_as k (c ∷ p ++ (double q v ++ (q ∷ rest)))
        ≡ push (c ∷ p) (record { text = double q v ++ q ∷ []; rest = rest; closed = true }) =
      rw (scans (double q v ++ (q ∷ rest)), scan_delimited-double q v rest h) refl in
    let last : last_byte prev (c ∷ p ++ (double q v ++ q ∷ [])) ≡ some q =
      rw (← append_assoc (c ∷ p) (double q v) (q ∷ []))
        (last_byte-append prev (c ∷ p ++ double q v) q) in
    rw (pieces_after_span prev c (p ++ (double q v ++ (q ∷ rest))) opens, run)
      (unfold push in rw last)

-- A quoted name, whatever its bytes, is one closed bracketed span, and lexing goes on behind it,
-- if the text behind it does not begin with the closing bracket.
pub pieces_after-quote_name :
    (prev : Option ℕ) (name rest : Bytes)
    → first_is b']' rest ≡ false
    → pieces_after prev (quote_name name ++ rest)
      ≡ record { kind = bracket_ident; text = quote_name name; closed = true }
        ∷ pieces_after (some b']') rest
unfolding scan_as opener
pieces_after-quote_name prev name rest h =
    rw (quote_name-double name, append_assoc (double b']' name) (b']' ∷ []) rest)
      (pieces_after_quoted prev bracket_ident b'[' [] b']' name rest refl (λ s. refl) h)

-- The same for a literal with no N.
pub pieces_after-quote_ansi_literal :
    (prev : Option ℕ) (v rest : Bytes)
    → first_is apostrophe rest ≡ false
    → pieces_after prev (quote_ansi_literal v ++ rest)
      ≡ record { kind = literal; text = quote_ansi_literal v; closed = true }
        ∷ pieces_after (some apostrophe) rest
unfolding scan_as opener quote_ansi_literal
pieces_after-quote_ansi_literal prev v rest h =
    rw (replace_all-double apostrophe v, append_assoc (double apostrophe v) (apostrophe ∷ []) rest)
      (pieces_after_quoted prev literal apostrophe [] apostrophe v rest refl (λ s. refl) h)

-- And for one with an N, where a word may begin.
pub pieces_after-quote_literal :
    (prev : Option ℕ) (v rest : Bytes)
    → word_start prev ≡ true
    → first_is apostrophe rest ≡ false
    → pieces_after prev (quote_literal v ++ rest)
      ≡ record { kind = n_literal; text = quote_literal v; closed = true }
        ∷ pieces_after (some apostrophe) rest
unfolding scan_as quote_literal quote_ansi_literal
pieces_after-quote_literal prev v rest w h =
    let opens : opener prev (b'N' ∷ apostrophe ∷ (double apostrophe v ++ (apostrophe ∷ rest)))
        ≡ some n_literal =
      unfold opener in rw w in
    rw (replace_all-double apostrophe v, append_assoc (double apostrophe v) (apostrophe ∷ []) rest)
      (pieces_after_quoted prev n_literal b'N' (apostrophe ∷ []) apostrophe v rest opens (λ s. refl)
        h)

-- The value between a prefix and the closer of a closed span at the front of a text.
pub unquoted-double :
    (k : SpanKind) (p : Bytes) (q : ℕ) (v rest : Bytes)
    → unquoted
        (length p)
        q
        (record { kind = k; start = 0; stop = length (p ++ (double q v ++ q ∷ [])); closed = true })
        ((p ++ (double q v ++ q ∷ [])) ++ rest)
      ≡ v
unfolding unquoted
unquoted-double k p q v rest =
    let len : length (p ++ (double q v ++ q ∷ [])) - 1 - (0 + length p) ≡ length (double q v) =
      omega (arith, length-append p (double q v ++ q ∷ []), length-append (double q v) (q ∷ [])) in
    let start : 0 + length p ≡ length p = omega arith in
    rw
      (
        len,
        start,
        append_assoc p (double q v ++ q ∷ []) rest,
        drop-append_exact p ((double q v ++ q ∷ []) ++ rest),
        append_assoc (double q v) (q ∷ []) rest,
        take-append_exact (double q v) (q ∷ rest),
      )
      (undouble q v)

pub quote_ansi_literal-double :
    (v : Bytes) → quote_ansi_literal v ≡ apostrophe ∷ (double apostrophe v ++ apostrophe ∷ [])
unfolding quote_ansi_literal
quote_ansi_literal-double v = rw (replace_all-double apostrophe v)

pub quote_literal-double :
    (v : Bytes) → quote_literal v ≡ b'N' ∷ apostrophe ∷ (double apostrophe v ++ apostrophe ∷ [])
unfolding quote_literal quote_ansi_literal
quote_literal-double v = rw (replace_all-double apostrophe v)

-- The span at the front of a text.
abbrev pub front : SpanKind → Bytes → Span
front k text = record { kind = k; start = 0; stop = length text; closed = true }

-- A quoted literal in front of text that does not begin with a quote is exactly one closed Unicode
-- literal span whose value is the text that was quoted, and the spans behind it are those of what
-- follows it.
pub spans-quote_literal :
    (v rest : Bytes)
    → first_is apostrophe rest ≡ false
    → (spans (quote_literal v ++ rest)
        ≡ front n_literal (quote_literal v)
          ∷ locate (length (quote_literal v)) (pieces_after (some apostrophe) rest))
      × (unescape (front n_literal (quote_literal v)) (quote_literal v ++ rest) ≡ v)
unfolding spans locate unescape
spans-quote_literal v rest h =
    let whole : length (quote_literal v) ≡ 0 + length (quote_literal v) = omega arith in
    (
      rw (pieces_after_lem, pieces_after-quote_literal none v rest (unfold word_start in refl) h)
          (rw (← whole)),
      rw (quote_literal-double v)
          (unquoted-double n_literal (b'N' ∷ apostrophe ∷ []) apostrophe v rest),
    )

-- A quoted name in front of text that does not begin with a closing bracket is exactly one closed
-- bracketed span whose value is the name, and the spans behind it are those of what follows it.
pub spans-quote_name :
    (name rest : Bytes)
    → first_is b']' rest ≡ false
    → (spans (quote_name name ++ rest)
        ≡ front bracket_ident (quote_name name)
          ∷ locate (length (quote_name name)) (pieces_after (some b']') rest))
      × (unescape (front bracket_ident (quote_name name)) (quote_name name ++ rest) ≡ name)
unfolding spans locate unescape
spans-quote_name name rest h =
    let whole : length (quote_name name) ≡ 0 + length (quote_name name) = omega arith in
    (
      rw (pieces_after_lem, pieces_after-quote_name none name rest h) (rw (← whole)),
      rw (quote_name-double name) (unquoted-double bracket_ident (b'[' ∷ []) b']' name rest),
    )
