-- ===== src/Tsql/Scan/Tiling.antt =====
-- The spans tile the text: no byte is lost, none is read twice, and no code span is empty.
use gosmo.Base.{
  take-drop-append, ℕ, zero, suc, ◌+◌, ◌≤◌, ◌<◌, ◌≡◌, refl, ap, ◌≢◌, inl, inr, Option, none, some,
  List, [], ◌∷◌, ◌++◌, append_assoc, arith, Bytes, Option-cases, All, map, length, length-append,
  take-append-drop, slice,
}
use gosmo.Tsql.Scan.{
  SpanKind, code, line_comment, block_comment, literal, n_literal, bracket_ident, quoted_ident,
  opener, scan_as, Span, Piece, Run, scan_delimited, scan_line, scan_block, flush, last_byte, walk,
  pieces, locate, spans, text_of,
}

pub scan_delimited-append :
    (q : ℕ) (s : Bytes) → (scan_delimited q s).text ++ (scan_delimited q s).rest ≡ s
unfolding scan_delimited
scan_delimited-append q [] = refl
scan_delimited-append q (c ∷ []) = refl
scan_delimited-append q (c ∷ d ∷ s) =
    ground (arith, scan_delimited-append q (d ∷ s), scan_delimited-append q s)

pub scan_line-append : (s : Bytes) → (scan_line s).text ++ (scan_line s).rest ≡ s
unfolding scan_line
scan_line-append [] = refl
scan_line-append (c ∷ s) = ground (arith, scan_line-append s)

pub scan_block-append : (k : ℕ) (s : Bytes) → (scan_block k s).text ++ (scan_block k s).rest ≡ s
unfolding scan_block
scan_block-append zero s = refl
scan_block-append (suc k) [] = refl
scan_block-append (suc k) (c ∷ []) = refl
scan_block-append (suc k) (c ∷ d ∷ s) = ground (
  arith,
  scan_block-append (suc k) (d ∷ s),
  scan_block-append k s,
  scan_block-append (suc (suc k)) s,
)

split_length : (a b s : Bytes) → a ++ b ≡ s → length a + length b ≡ length s
split_length a b s h = omega (arith, ap length h, length-append a b)

-- What a case of the switch reads is in front of its rest.
pub scan_as-append : (k : SpanKind) (s : Bytes) → (scan_as k s).text ++ (scan_as k s).rest ≡ s
unfolding scan_as
scan_as-append code s = refl
scan_as-append line_comment s = scan_line-append s
scan_as-append block_comment s = rw (append_assoc, scan_block-append) (take-append-drop 2 s)
scan_as-append literal s = rw (append_assoc, scan_delimited-append) (take-append-drop 1 s)
scan_as-append n_literal s = rw (append_assoc, scan_delimited-append) (take-append-drop 2 s)
scan_as-append bracket_ident s = rw (append_assoc, scan_delimited-append) (take-append-drop 1 s)
scan_as-append quoted_ident s = rw (append_assoc, scan_delimited-append) (take-append-drop 1 s)

opener-line_comment :
    (prev : Option ℕ) (c : ℕ) (s : Bytes) → opener prev (c ∷ s) ≡ some line_comment → c ≡ b'-'
unfolding opener
opener-line_comment prev c s h = ground arith

pub opener-ne-code : (prev : Option ℕ) (s : Bytes) → opener prev s ≢ some code
unfolding opener
opener-ne-code prev [] h = cc
opener-ne-code prev (c ∷ s) h = ground arith

-- Whatever opens takes at least one byte.
pub scan_as_pos :
    (prev : Option ℕ) (k : SpanKind) (c : ℕ) (s : Bytes)
    → opener prev (c ∷ s) ≡ some k
    → 0 < length (scan_as k (c ∷ s)).text
unfolding scan_as
scan_as_pos prev code c s h = absurd (opener-ne-code prev (c ∷ s) h)
scan_as_pos prev line_comment c s h =
    unfold scan_line in ground (arith, opener-line_comment prev c s h)
scan_as_pos prev block_comment c s h = omega arith
scan_as_pos prev literal c s h = omega arith
scan_as_pos prev n_literal c s h = omega arith
scan_as_pos prev bracket_ident c s h = omega arith
scan_as_pos prev quoted_ident c s h = omega arith

pub scan_as-rest-lt :
    (prev : Option ℕ) (k : SpanKind) (c : ℕ) (s : Bytes)
    → opener prev (c ∷ s) ≡ some k
    → length (scan_as k (c ∷ s)).rest ≤ length s
scan_as-rest-lt prev k c s h = omega (
  arith,
  scan_as_pos prev k c s h,
  split_length (scan_as k (c ∷ s)).text (scan_as k (c ∷ s)).rest (c ∷ s) (scan_as-append k (c ∷ s)),
)

-- One round of the walk.
abbrev pub piece_as : SpanKind → Run → Piece
piece_as k r = record { kind = k; text = r.text; closed = r.closed }

pub walk_code :
    (f : ℕ) (prev : Option ℕ) (pending : Bytes) (c : ℕ) (s : Bytes)
    → opener prev (c ∷ s) ≡ none
    → walk (suc f) prev pending (c ∷ s) ≡ walk f (some c) (pending ++ c ∷ []) s
unfolding walk
walk_code f prev pending c s e = rw (e, walk)

pub walk_span :
    (f : ℕ) (prev : Option ℕ) (pending : Bytes) (c : ℕ) (s : Bytes) (k : SpanKind)
    → opener prev (c ∷ s) ≡ some k
    → walk (suc f) prev pending (c ∷ s)
      ≡ flush pending (
          piece_as k (scan_as k (c ∷ s))
          ∷ walk f (last_byte prev (scan_as k (c ∷ s)).text) [] (scan_as k (c ∷ s)).rest)
unfolding walk
walk_span f prev pending c s k e = rw (e, walk)

abbrev pub texts : List Piece → Bytes
texts [] = []
texts (p ∷ ps) = p.text ++ texts ps

pub texts-flush : (p : Bytes) (ps : List Piece) → texts (flush p ps) ≡ p ++ texts ps
unfolding flush
texts-flush [] ps = refl
texts-flush (c ∷ p) ps = refl

pub texts-walk :
    (f : ℕ) (prev : Option ℕ) (pending s : Bytes)
    → length s < f
    → texts (walk f prev pending s) ≡ pending ++ s
texts-walk zero prev pending s h = absurd (omega arith)
texts-walk (suc f) prev pending [] h = unfold walk in texts-flush pending []
texts-walk (suc f) prev pending (c ∷ s) h = elim (Option-cases (opener prev (c ∷ s))) [
  | inl e ↦
      rw (walk_code f prev pending c s e, texts-walk f (some c) (pending ++ c ∷ []) s (omega arith))
        (append_assoc pending (c ∷ []) s)
  | inr (k, e) ↦ rw (
    walk_span f prev pending c s k e,
    texts-flush,
    texts-walk f (last_byte prev (scan_as k (c ∷ s)).text) [] (scan_as k (c ∷ s)).rest
        (omega (arith, scan_as-rest-lt prev k c s e)),
    scan_as-append k (c ∷ s),
  )
]

pub texts-pieces : (s : Bytes) → texts (pieces s) ≡ s
unfolding pieces
texts-pieces s = texts-walk (suc (length s)) none [] s (omega arith)

-- The spans follow one another from i to n, and none of them is empty.
abbrev pub Tiles : ℕ → List Span → ℕ → Type 0
Tiles i [] n = i ≡ n
Tiles i (sp ∷ sps) n = (sp.start ≡ i) × (sp.start < sp.stop) × Tiles sp.stop sps n

abbrev pub AllPos : List Piece → Type 0
AllPos = All (λ p. 0 < length p.text)

AllPos-flush : (p : Bytes) (ps : List Piece) → AllPos ps → AllPos (flush p ps)
unfolding flush
AllPos-flush [] ps h = h
AllPos-flush (c ∷ p) ps h = (omega arith, h)

AllPos-walk : (f : ℕ) (prev : Option ℕ) (pending s : Bytes) → AllPos (walk f prev pending s)
AllPos-walk zero prev pending s = unfold walk in tt
AllPos-walk (suc f) prev pending [] = unfold walk in AllPos-flush pending [] tt
AllPos-walk (suc f) prev pending (c ∷ s) = elim (Option-cases (opener prev (c ∷ s))) [
  | inl e ↦ rw (walk_code f prev pending c s e) (AllPos-walk f (some c) (pending ++ c ∷ []) s)
  | inr (k, e) ↦
      let rest =
        AllPos-walk f (last_byte prev (scan_as k (c ∷ s)).text) [] (scan_as k (c ∷ s)).rest in
      rw (walk_span f prev pending c s k e)
        (AllPos-flush pending _ (scan_as_pos prev k c s e, rest))
]

Tiles-locate : (i : ℕ) (ps : List Piece) → AllPos ps → Tiles i (locate i ps) (i + length (texts ps))
unfolding locate
Tiles-locate i [] h = omega arith
Tiles-locate i (p ∷ ps) (h, hs) =
    let e : i + length p.text + length (texts ps) ≡ i + length (p.text ++ texts ps) =
      omega (arith, length-append p.text (texts ps)) in
    (refl, omega arith, rw e at (Tiles-locate (i + length p.text) ps hs))

pub AllPos-pieces : (s : Bytes) → AllPos (pieces s)
unfolding pieces
AllPos-pieces s = AllPos-walk (suc (length s)) none [] s

-- The spans of a text follow one another from its first byte to its last with no gap and no
-- overlap, and none of them is empty.
pub spans-Tiles : (s : Bytes) → Tiles 0 (spans s) (length s)
unfolding spans pieces
spans-Tiles s =
    let t = Tiles-locate 0 (pieces s) (AllPos-pieces s) in
    let e : 0 + length (texts (pieces s)) ≡ length s = omega (arith, ap length (texts-pieces s)) in
    rw e at t

text_of-locate :
    (done : Bytes) (ps : List Piece)
    → map (text_of (done ++ texts ps)) (locate (length done) ps) ≡ map (λ p. p.text) ps
unfolding locate
text_of-locate done [] = refl
text_of-locate done (p ∷ ps) =
    let here : slice (done ++ (p.text ++ texts ps)) (length done) (length done + length p.text)
        ≡ p.text =
      take-drop-append done p.text (texts ps) in
    let later : map (text_of (done ++ (p.text ++ texts ps)))
          (locate (length done + length p.text) ps)
        ≡ map (λ p. p.text) ps =
      rw (append_assoc, length-append) at (text_of-locate (done ++ p.text) ps) in
    cc (here, later)

-- The text that a span of `spans s` marks off is the text of its piece.
text_of-spans : (s : Bytes) → map (text_of s) (spans s) ≡ map (λ p. p.text) (pieces s)
unfolding spans
text_of-spans s = rw (texts-pieces s) at (text_of-locate [] (pieces s))
