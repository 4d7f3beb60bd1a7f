-- ===== src/Tsql/Scan/Fuel.antt =====
-- The walk does not depend on its fuel, as long as there is more of it than text.
use gosmo.Base.{
  ℕ, zero, suc, ◌<◌, ◌≡◌, refl, inl, inr, Option, none, some, [], ◌∷◌, ◌++◌, arith, Bytes, List,
  Option-cases, length,
}
use gosmo.Tsql.Scan.{Piece, opener, scan_as, flush, last_byte, walk, pieces}
use gosmo.Tsql.Scan.Tiling.{scan_as-rest-lt, walk_code, walk_span, piece_as}

pub walk_fuel :
    (f g : ℕ) (prev : Option ℕ) (pending s : Bytes)
    → length s < f
    → length s < g
    → walk f prev pending s ≡ walk g prev pending s
walk_fuel zero g prev pending s h k = absurd (omega arith)
walk_fuel (suc f) zero prev pending s h k = absurd (omega arith)
walk_fuel (suc f) (suc g) prev pending [] h k = unfold walk in refl
walk_fuel (suc f) (suc g) prev pending (c ∷ s) h k = elim (Option-cases (opener prev (c ∷ s))) [
  | inl e ↦
      rw (walk_code f prev pending c s e, walk_code g prev pending c s e)
        (walk_fuel f g (some c) (pending ++ c ∷ []) s (omega arith) (omega arith))
  | inr (kind, e) ↦
      let run = scan_as kind (c ∷ s) in
      let le = scan_as-rest-lt prev kind c s e in
      rw (
        walk_span f prev pending c s kind e,
        walk_span g prev pending c s kind e,
        walk_fuel f g (last_byte prev run.text) [] run.rest (omega (arith, le)) (omega (arith, le)),
      )
]

-- The pieces of a text that stands behind the byte `prev`.
unfoldable pub pieces_after : Option ℕ → Bytes → List Piece
pieces_after prev s = walk (suc (length s)) prev [] s

pub pieces_after_lem : (s : Bytes) → pieces s ≡ pieces_after none s
unfolding pieces pieces_after
pieces_after_lem s = refl

pub pieces_after-nil : (prev : Option ℕ) → pieces_after prev [] ≡ []
unfolding pieces_after walk flush
pieces_after-nil prev = refl

pub pieces_after_span :
    (prev : Option ℕ) (c : ℕ) (s : Bytes) {k : _}
    → opener prev (c ∷ s) ≡ some k
    → pieces_after prev (c ∷ s)
      ≡ piece_as k (scan_as k (c ∷ s))
        ∷ pieces_after (last_byte prev (scan_as k (c ∷ s)).text) (scan_as k (c ∷ s)).rest
unfolding pieces_after flush
pieces_after_span prev c s {k} e =
    let run = scan_as k (c ∷ s) in
    rw (
      walk_span (suc (length s)) prev [] c s k e,
      walk_fuel (suc (length s)) (suc (length run.rest)) (last_byte prev run.text) [] run.rest
          (omega (arith, scan_as-rest-lt prev k c s e)) (omega arith),
    )
