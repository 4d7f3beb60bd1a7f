-- ===== src/Script/Redact/Literals.antt =====
-- How a literal begins, how it ends, and what stands behind it.
use gosmo.Base.{
  ℕ, ◌<◌, ◌≡◌, refl, sym, subst, Bool, true, false, List, [], ◌∷◌, map, Option, some, ◌++◌, arith,
  Bytes, inl, inr, ◌⊎◌, length,
}
use gosmo.Tsql.Scan.{
  SpanKind, code, line_comment, block_comment, literal, n_literal, bracket_ident, quoted_ident,
  is_literal, opener, scan_as, last_byte, apostrophe, Run, push, scan_delimited,
}
use gosmo.Tsql.Scan.Tiling.{scan_as_pos, scan_as-append}
use gosmo.Tsql.Scan.Fuel.{pieces_after, pieces_after-nil}
use gosmo.Tsql.Scan.Stable.{IsAlike}
use gosmo.Tsql.Scan.Reread.{first_is-scan_delimited, last_byte-scan_delimited, EndsIn}
use gosmo.Tsql.Quote.{quote_literal, quote_ansi_literal, first_is}
use gosmo.Script.Redact.Lexed.{values, own_literal}

pub text_front :
    (prev : Option ℕ) (k : SpanKind) (c : ℕ) (s : Bytes)
    → opener prev (c ∷ s) ≡ some k
    → (t : Bytes) × ((scan_as k (c ∷ s)).text ≡ c ∷ t)
text_front prev k c s e =
    go (scan_as k (c ∷ s)).text (scan_as_pos prev k c s e) (scan_as-append k (c ∷ s))
  where
    go :
        (t : Bytes)
        → 0 < length t
        → t ++ (scan_as k (c ∷ s)).rest ≡ c ∷ s
        → (u : Bytes) × (t ≡ c ∷ u)
    go [] h e = absurd (omega arith)
    go (d ∷ t) h e = (t, ground (arith, e))

-- A quoted literal begins as a literal does.
pub literal_front :
    (prev : Option ℕ) (k : SpanKind) (c : ℕ) (s v r : Bytes)
    → is_literal k ≡ true
    → opener prev (c ∷ s) ≡ some k
    → IsAlike (c ∷ s) (quote_literal v ++ r)
unfolding quote_literal is_literal
literal_front prev literal c s v r l e =
    (let q : c ≡ apostrophe = unfold opener in ground arith in inr (inl q, refl))
literal_front prev n_literal c s v r l e = n_front (unfold opener in ground arith)
  where
    n_front : (c ≡ b'N') ⊎ (c ≡ b'n') → IsAlike (c ∷ s) (b'N' ∷ (quote_ansi_literal v ++ r))
    n_front (inl e) = inl (sym e)
    n_front (inr e) = inr (inr e, refl)
literal_front prev code c s v r l e = cc
literal_front prev line_comment c s v r l e = cc
literal_front prev block_comment c s v r l e = cc
literal_front prev bracket_ident c s v r l e = cc
literal_front prev quoted_ident c s v r l e = cc

-- A literal ends in its quote, which the text behind it does not begin with.
pub literal_run :
    (prev : Option ℕ) (k : SpanKind) (c : ℕ) (s : Bytes)
    → is_literal k ≡ true
    → (first_is apostrophe (scan_as k (c ∷ s)).rest ≡ false)
      × EndsIn apostrophe prev (scan_as k (c ∷ s))
unfolding is_literal scan_as push last_byte scan_delimited
literal_run prev literal c s l =
    (first_is-scan_delimited apostrophe s, last_byte-scan_delimited (some c) apostrophe s)
literal_run prev n_literal c [] l = (refl, inl refl)
literal_run prev n_literal c (d ∷ s) l =
    (first_is-scan_delimited apostrophe s, last_byte-scan_delimited (some d) apostrophe s)
literal_run prev code c s l = cc
literal_run prev line_comment c s l = cc
literal_run prev block_comment c s l = cc
literal_run prev bracket_ident c s l = cc
literal_run prev quoted_ident c s l = cc

pub first_is-IsAlike :
    (s r : Bytes) → IsAlike s r → first_is apostrophe s ≡ false → first_is apostrophe r ≡ false
first_is-IsAlike [] r a h = rw a refl
first_is-IsAlike (c ∷ s) [] a h = refl
first_is-IsAlike (c ∷ s) (d ∷ r) a h = ground (arith, a)

pub after_literal :
    (prev : Option ℕ) (run : Run) (r : Bytes)
    → EndsIn apostrophe prev run
    → IsAlike run.rest r
    → values (pieces_after (some apostrophe) r) ≡ values (pieces_after (last_byte prev run.text) r)
after_literal prev run r (inr e) a = rw e refl
after_literal prev run r (inl e) a =
    let empty : r ≡ [] = subst (λ s. IsAlike s r) e a in
    rw (empty, pieces_after-nil, pieces_after-nil) refl

pub map-own_literal :
    (h : Bytes → Bytes) (b : Bool) (v : Bytes) (vs : List Bytes)
    → map h (own_literal b v vs) ≡ own_literal b (h v) (map h vs)
map-own_literal h true v vs = refl
map-own_literal h false v vs = refl
