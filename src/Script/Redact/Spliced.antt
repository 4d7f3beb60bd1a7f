-- ===== src/Script/Redact/Spliced.antt =====
-- The loop of redactSecrets gives the pieces of the statement back, each secret one replaced.
use gosmo.Base.{
  ℕ, zero, suc, ◌+◌, ◌-◌, ◌≤◌, ◌<◌, ◌≡◌, refl, ◌∙◌, Bool, true, false, List, [], ◌∷◌, ◌++◌,
  append-nil, append_assoc, arith, Bytes, Bool-cases, inl, inr, if◌then◌else◌, length,
  length-append, take, drop, slice, drop-append_exact, take-drop-append,
}
use gosmo.Tsql.Scan.{
  SpanKind, code, line_comment, block_comment, literal, n_literal, bracket_ident, quoted_ident,
  Span, Piece, unescape, unquoted, unescape_kind, spans, locate, pieces,
}
use gosmo.Tsql.Scan.Tiling.{texts, texts-pieces, AllPos, AllPos-pieces}
use gosmo.Tsql.Quote.{quote_literal}
use gosmo.Script.Redact.{is_secret, redact_from, redact_secrets}

take_left : (n : ℕ) (b c : Bytes) → n ≤ length b → take n (b ++ c) ≡ take n b
take_left zero b c h = refl
take_left (suc n) [] c h = absurd (omega arith)
take_left (suc n) (x ∷ b) c h = rw (take_left n b c (omega arith))

slice_left : (b c : Bytes) (from to : ℕ) → to ≤ length b → slice (b ++ c) from to ≡ slice b from to
slice_left b c zero to h = let e : to - zero ≡ to = omega arith in rw e (take_left to b c h)
slice_left [] c (suc from) to h = let e : to - suc from ≡ 0 = omega arith in rw e
slice_left (x ∷ b) c (suc from) zero h = let e : 0 - suc from ≡ 0 = omega arith in rw e
slice_left (x ∷ b) c (suc from) (suc to) h =
    let e : suc to - suc from ≡ to - from = omega arith in
    rw e (slice_left b c from to (omega arith))

slice-append :
    (a s : Bytes) (from to : ℕ) → slice (a ++ s) (length a + from) (length a + to) ≡ slice s from to
slice-append a s from to =
    let e : length a + to - (length a + from) ≡ to - from = omega arith in
    rw (e, drop_past a s from)
  where
    drop_past : (a s : Bytes) (n : ℕ) → drop (length a + n) (a ++ s) ≡ drop n s
    drop_past [] s n = (let e : 0 + n ≡ n = omega arith in rw e)
    drop_past (x ∷ a) s n =
        (let e : suc (length a) + n ≡ suc (length a + n) = omega arith in rw e (drop_past a s n))

-- A part that ends inside the middle of a text is a part of the middle.
slice-middle :
    (a b c : Bytes) (from to : ℕ)
    → to ≤ length b
    → slice (a ++ (b ++ c)) (length a + from) (length a + to) ≡ slice b from to
slice-middle a b c from to h = slice-append a (b ++ c) from to ∙ slice_left b c from to h

-- The span that a piece makes in its own text, and behind i bytes.
abbrev pub span_at : ℕ → Piece → Span
span_at i p = record { kind = p.kind; start = i; stop = i + length p.text; closed = p.closed }

abbrev pub own_span : Piece → Span
own_span p = record { kind = p.kind; start = 0; stop = length p.text; closed = p.closed }

unquoted_at :
    (n q : ℕ) (k : SpanKind) (closed : Bool) (a t b : Bytes)
    → 0 < length t
    → unquoted n q
        (record { kind = k; start = length a; stop = length a + length t; closed = closed })
        (a ++ (t ++ b))
      ≡ unquoted n q (record { kind = k; start = 0; stop = length t; closed = closed }) t
unfolding unquoted
unquoted_at n q k true a t b h =
    let e : length a + length t - 1 ≡ length a + (length t - 1) = omega arith in
    let z : 0 + n ≡ n = omega arith in rw (e, z, slice-middle a t b n (length t - 1) (omega arith))
unquoted_at n q k false a t b h =
    let z : 0 + n ≡ n = omega arith in rw (z, slice-middle a t b n (length t) (omega arith))

pub unescape_at :
    (a b : Bytes) (p : Piece)
    → 0 < length p.text
    → unescape (span_at (length a) p) (a ++ (p.text ++ b)) ≡ unescape (own_span p) p.text
unfolding unescape
unescape_at a b p h = by_kind p.kind
  where
    here :
        slice (a ++ (p.text ++ b)) (length a) (length a + length p.text)
        ≡ slice p.text 0 (length p.text)
    here =
        let z : length a + 0 ≡ length a = omega arith in
        rw z at (slice-middle a p.text b 0 (length p.text) (omega arith))

    by_kind :
        (k : SpanKind)
        → unescape_kind k (span_at (length a) p) (a ++ (p.text ++ b))
          ≡ unescape_kind k (own_span p) p.text
    by_kind literal = unquoted_at 1 39 p.kind p.closed a p.text b h
    by_kind n_literal = unquoted_at 2 39 p.kind p.closed a p.text b h
    by_kind bracket_ident = unquoted_at 1 93 p.kind p.closed a p.text b h
    by_kind quoted_ident = unquoted_at 1 34 p.kind p.closed a p.text b h
    by_kind code = here
    by_kind line_comment = here
    by_kind block_comment = here

-- A piece of the statement as it is shown: quoted anew when it is a literal of a secret.
unfoldable pub redact_piece : Bytes → List Bytes → Piece → Bytes
unfolding is_secret
redact_piece placeholder secrets p =
    if is_secret secrets p.text (own_span p) then quote_literal placeholder else p.text

abbrev pub shown : Bytes → List Bytes → List Piece → Bytes
shown placeholder secrets [] = []
shown placeholder secrets (p ∷ ps) =
    redact_piece placeholder secrets p ++ shown placeholder secrets ps

is_secret_at :
    (secrets : List Bytes) (a b : Bytes) (p : Piece)
    → 0 < length p.text
    → is_secret secrets (a ++ (p.text ++ b)) (span_at (length a) p)
      ≡ is_secret secrets p.text (own_span p)
unfolding is_secret
is_secret_at secrets a b p h = rw (unescape_at a b p h)

-- stmt[last:sp.Start]
between : (a b c : Bytes) → slice (a ++ (b ++ c)) (length a) (length (a ++ b)) ≡ b
between a b c = rw (length-append a b) (take-drop-append a b c)

module _ (placeholder : Bytes) (secrets : List Bytes) where
  redact_end :
      (out a b : Bytes)
      → (length a ≡ 0 → out ≡ [])
      → redact_from (a ++ b) placeholder secrets out (length a) [] ≡ out ++ b
  unfolding redact_from
  redact_end out [] b h = rw (h refl)
  redact_end out (x ∷ a) b h = ground (arith, drop-append_exact a b)

  redact_replaced :
      (stmt out : Bytes) (last : ℕ) (sp : Span) (sps : List Span)
      → is_secret secrets stmt sp ≡ true
      → redact_from stmt placeholder secrets out last (sp ∷ sps)
        ≡ redact_from stmt placeholder secrets
            (out ++ (slice stmt last sp.start ++ quote_literal placeholder))
            sp.stop
            sps
  unfolding redact_from
  redact_replaced stmt out last sp sps e = rw (e, redact_from) refl

  redact_kept :
      (stmt out : Bytes) (last : ℕ) (sp : Span) (sps : List Span)
      → is_secret secrets stmt sp ≡ false
      → redact_from stmt placeholder secrets out last (sp ∷ sps)
        ≡ redact_from stmt placeholder secrets out last sps
  unfolding redact_from
  redact_kept stmt out last sp sps e = rw (e, redact_from) refl

  -- The loop, when a is behind `last` and b between `last` and the spans that are left.
  redact_from-shown :
      (out a b : Bytes) (ps : List Piece)
      → AllPos ps
      → (length a ≡ 0 → out ≡ [])
      → redact_from
          (a ++ (b ++ texts ps))
          placeholder
          secrets
          out
          (length a)
          (locate (length (a ++ b)) ps)
        ≡ out ++ (b ++ shown placeholder secrets ps)
  unfolding locate redact_piece
  redact_from-shown out a b [] pos start = rw (append-nil b) (redact_end out a b start)
  redact_from-shown out a b (p ∷ ps) (h, pos) start =
      elim (Bool-cases (is_secret secrets p.text (own_span p))) [
        | inl e ↦
            let whole : ((a ++ b) ++ p.text) ++ texts ps ≡ a ++ (b ++ (p.text ++ texts ps)) =
              rw (append_assoc, append_assoc) refl in
            let stop : length ((a ++ b) ++ p.text) ≡ length (a ++ b) + length p.text =
              length-append (a ++ b) p.text in
            let again = rw (append-nil ((a ++ b) ++ p.text)) at (
              redact_from-shown (out ++ (b ++ quote_literal placeholder)) ((a ++ b) ++ p.text) [] ps
                pos (λ z. absurd (omega (arith, stop)))) in
            rw
              (
                redact_replaced (a ++ (b ++ (p.text ++ texts ps))) out (length a)
                    (span_at (length (a ++ b)) p) (locate (length (a ++ b) + length p.text) ps)
                    (same e),
                between a b (p.text ++ texts ps),
                e,
                ← stop,
                ← whole,
                again,
              )
              (rw (append_assoc, append_assoc) refl)
        | inr e ↦
            let stop : length (a ++ (b ++ p.text)) ≡ length (a ++ b) + length p.text =
              omega
                (arith, length-append a (b ++ p.text), length-append b p.text, length-append a b) in
            rw
              (
                redact_kept (a ++ (b ++ (p.text ++ texts ps))) out (length a)
                    (span_at (length (a ++ b)) p) (locate (length (a ++ b) + length p.text) ps)
                    (same e),
                e,
                ← stop,
                ← append_assoc b p.text (texts ps),
                redact_from-shown out a (b ++ p.text) ps pos start,
              )
              (rw append_assoc refl)
      ]
    where
      same :
          {v : Bool}
          → is_secret secrets p.text (own_span p) ≡ v
          → is_secret secrets (a ++ (b ++ (p.text ++ texts ps))) (span_at (length (a ++ b)) p) ≡ v
      same e =
          rw (← append_assoc a b (p.text ++ texts ps), is_secret_at secrets (a ++ b) (texts ps) p h)
            e

-- The statement that is shown is the statement with each literal of a secret, and nothing else,
-- quoted anew from the placeholder: the pieces of the lexical walk, in their order, each secret
-- one replaced.
pub redact_secrets-shown :
    (stmt placeholder : Bytes) (secrets : List Bytes)
    → redact_secrets stmt placeholder secrets ≡ shown placeholder secrets (pieces stmt)
unfolding redact_secrets spans
redact_secrets-shown stmt placeholder secrets =
    rw (texts-pieces stmt) at (
      redact_from-shown placeholder secrets [] [] [] (pieces stmt) (AllPos-pieces stmt) (λ z. refl))
