-- ===== src/Tsql/Scan/Reread.antt =====
-- What opens at a span opens again at its text, and what is read there is read again.
use gosmo.Base.{
  ℕ, ◌≡◌, ◌≢◌, refl, false, ◌⊎◌, inl, inr, Option, none, some, [], ◌∷◌, ◌++◌, arith, Bytes,
  Bool-cases, ◌==◌,
}
use gosmo.Tsql.Scan.{
  SpanKind, code, line_comment, block_comment, literal, n_literal, bracket_ident, quoted_ident,
  opener, scan_as, Run, push, scan_delimited, scan_line, scan_block, last_byte,
}
use gosmo.Tsql.Scan.Tiling.{opener-ne-code}
use gosmo.Tsql.Scan.Stable.{
  IsAlike, IsStable, push-IsStable, scan_delimited_two, scan_delimited_last,
  scan_delimited-IsStable, scan_line_other, scan_line-IsStable, scan_block-IsStable,
}
use gosmo.Tsql.Quote.{first_is}
use gosmo.Tsql.Quote.Lexed.{scan_delimited_other}

-- A span of these kinds opens with two bytes.
short_n_literal : (prev : Option ℕ) (c : ℕ) → opener prev (c ∷ []) ≢ some n_literal
unfolding opener
short_n_literal prev c h = ground arith

short_line_comment : (prev : Option ℕ) (c : ℕ) → opener prev (c ∷ []) ≢ some line_comment
unfolding opener
short_line_comment prev c h = ground arith

short_block_comment : (prev : Option ℕ) (c : ℕ) → opener prev (c ∷ []) ≢ some block_comment
unfolding opener
short_block_comment prev c h = ground arith

pub scan_as-IsStable :
    (prev : Option ℕ) (k : SpanKind) (c : ℕ) (s : Bytes)
    → opener prev (c ∷ s) ≡ some k
    → IsStable (scan_as k) (scan_as k (c ∷ s))
unfolding scan_as
scan_as-IsStable prev code c s h = absurd (opener-ne-code prev (c ∷ s) h)
scan_as-IsStable prev line_comment c s h = scan_line-IsStable (c ∷ s)
scan_as-IsStable prev literal c s h =
    push-IsStable (c ∷ []) (scan_as literal) (scan_delimited 39) (scan_delimited 39 s) (λ r. refl)
      (scan_delimited-IsStable 39 s refl)
scan_as-IsStable prev bracket_ident c s h =
    push-IsStable (c ∷ []) (scan_as bracket_ident) (scan_delimited 93) (scan_delimited 93 s)
      (λ r. refl) (scan_delimited-IsStable 93 s refl)
scan_as-IsStable prev quoted_ident c s h =
    push-IsStable (c ∷ []) (scan_as quoted_ident) (scan_delimited 34) (scan_delimited 34 s)
      (λ r. refl) (scan_delimited-IsStable 34 s refl)
scan_as-IsStable prev n_literal c [] h = absurd (short_n_literal prev c h)
scan_as-IsStable prev n_literal c (d ∷ s) h =
    push-IsStable (c ∷ d ∷ []) (scan_as n_literal) (scan_delimited 39) (scan_delimited 39 s)
      (λ r. refl) (scan_delimited-IsStable 39 s refl)
scan_as-IsStable prev block_comment c [] h = absurd (short_block_comment prev c h)
scan_as-IsStable prev block_comment c (d ∷ s) h =
    push-IsStable (c ∷ d ∷ []) (scan_as block_comment) (scan_block 1) (scan_block 1 s) (λ r. refl)
      (scan_block-IsStable 1 s)

-- What opens at two bytes does not depend on what stands behind them.
opener_two :
    (prev : Option ℕ) (c d : ℕ) (s r : Bytes) {k : _}
    → opener prev (c ∷ d ∷ s) ≡ some k
    → opener prev (c ∷ d ∷ r) ≡ some k
unfolding opener
opener_two prev c d s r h = h

line_two :
    (prev : Option ℕ) (c d : ℕ) (s : Bytes)
    → opener prev (c ∷ d ∷ s) ≡ some line_comment
    → (c ≡ b'-') × (d ≡ b'-')
unfolding opener
line_two prev c d s h = ground arith

pub opener-scan_as :
    (prev : Option ℕ) (k : SpanKind) (c : ℕ) (s r : Bytes)
    → opener prev (c ∷ s) ≡ some k
    → opener prev ((scan_as k (c ∷ s)).text ++ r) ≡ some k
unfolding scan_as opener
opener-scan_as prev code c s r h = absurd (opener-ne-code prev (c ∷ s) h)
opener-scan_as prev literal c s r h = ground arith
opener-scan_as prev bracket_ident c s r h = ground arith
opener-scan_as prev quoted_ident c s r h = ground arith
opener-scan_as prev n_literal c [] r h = absurd (short_n_literal prev c h)
opener-scan_as prev n_literal c (d ∷ s) r h =
    opener_two prev c d s ((scan_delimited 39 s).text ++ r) h
opener-scan_as prev block_comment c [] r h = absurd (short_block_comment prev c h)
opener-scan_as prev block_comment c (d ∷ s) r h =
    opener_two prev c d s ((scan_block 1 s).text ++ r) h
opener-scan_as prev line_comment c [] r h = absurd (short_line_comment prev c h)
opener-scan_as prev line_comment c (d ∷ s) r h =
    let two = line_two prev c d s h in
    rw (scan_line_other c (d ∷ s) (ground (arith, two)), scan_line_other d s (ground (arith, two)))
      (unfold push in opener_two prev c d s ((scan_line s).text ++ r) h)

-- Code stays code in front of a text that begins alike.
pub opener-none :
    (prev : Option ℕ) (c : ℕ) (s r : Bytes)
    → opener prev (c ∷ s) ≡ none
    → IsAlike s r
    → opener prev (c ∷ r) ≡ none
unfolding opener
opener-none prev c [] r h a = rw a h
opener-none prev c (d ∷ s) [] h a = absurd a
opener-none prev c (d ∷ s) (e ∷ r) h a = ground (arith, a)

abbrev pub EndsIn : ℕ → Option ℕ → Run → Type 0
EndsIn q prev run = (run.rest ≡ []) ⊎ (last_byte prev run.text ≡ some q)

EndsIn-push_one :
    (q c : ℕ) (prev : Option ℕ) (run : Run)
    → EndsIn q (some c) run
    → EndsIn q prev (push (c ∷ []) run)
unfolding push last_byte
EndsIn-push_one q c prev run h = h

EndsIn-push_two :
    (q c d : ℕ) (prev : Option ℕ) (run : Run)
    → EndsIn q (some d) run
    → EndsIn q prev (push (c ∷ d ∷ []) run)
unfolding push last_byte
EndsIn-push_two q c d prev run h = h

-- A delimited span ends in its closer, which the rest does not begin with, or at the end.
pub first_is-scan_delimited : (q : ℕ) (s : Bytes) → first_is q (scan_delimited q s).rest ≡ false
unfolding scan_delimited
first_is-scan_delimited q [] = refl
first_is-scan_delimited q (c ∷ []) = refl
first_is-scan_delimited q (c ∷ d ∷ s) =
    ground (arith, first_is-scan_delimited q (d ∷ s), first_is-scan_delimited q s)

pub last_byte-scan_delimited :
    (prev : Option ℕ) (q : ℕ) (s : Bytes) → EndsIn q prev (scan_delimited q s)
last_byte-scan_delimited prev q [] = inl (unfold scan_delimited in refl)
last_byte-scan_delimited prev q (c ∷ []) = inl (unfold scan_delimited in refl)
last_byte-scan_delimited prev q (c ∷ d ∷ s) = elim (Bool-cases (c == q)) [
  | inr o ↦ rw (scan_delimited_other q c (d ∷ s) o) (
      EndsIn-push_one q c prev (scan_delimited q (d ∷ s))
        (last_byte-scan_delimited (some c) q (d ∷ s)))
  | inl e ↦ elim (Bool-cases (d == q)) [
    | inl f ↦
        rw (scan_delimited_two q c d s e f)
          (EndsIn-push_two q c d prev (scan_delimited q s) (last_byte-scan_delimited (some d) q s))
    | inr o ↦ inr (rw (scan_delimited_last q c d s e o) (unfold last_byte in ground (arith, e)))
  ]
]
