-- ===== src/Script/Redact.antt =====
-- script.go: redactSecrets, the form of a statement that its observers are shown.
pub mod Spliced
pub mod Lexed
pub mod Literals
pub mod Hidden
use gosmo.Base.{
  ℕ, ◌≡◌, refl, Bool, true, false, not, ◌&&◌, List, [], ◌∷◌, ◌++◌, Bytes, codes, ◌==◌,
  if◌then◌else◌, str_eq, contains, slice, drop,
}
use gosmo.Tsql.Scan.{Span, is_literal, unescape, unquoted, spans, locate, pieces}
use gosmo.Tsql.Quote.{quote_literal}

-- sp.IsLiteral(), v != "" and slices.Contains(secrets, v), where v is sp.Unescape(stmt)
unfoldable pub is_secret : List Bytes → Bytes → Span → Bool
unfolding is_literal str_eq contains
is_secret secrets stmt sp =
    let v = unescape sp stmt in is_literal sp.kind && (not (str_eq v []) && contains secrets v)

-- The loop over the spans, with `out` and `last`, and what stands behind it.
unfoldable pub redact_from : Bytes → Bytes → List Bytes → Bytes → ℕ → List Span → Bytes
unfolding is_secret quote_literal
redact_from stmt placeholder secrets out last [] = if last == 0 then stmt else out ++ drop last stmt
redact_from stmt placeholder secrets out last (sp ∷ sps) = elim (is_secret secrets stmt sp) [
  | true ↦
      redact_from stmt placeholder secrets
        (out ++ (slice stmt last sp.start ++ quote_literal placeholder)) sp.stop sps
  | false ↦ redact_from stmt placeholder secrets out last sps
]

unfoldable pub redact_secrets : Bytes → Bytes → List Bytes → Bytes
unfolding redact_from spans unescape
redact_secrets stmt placeholder secrets = redact_from stmt placeholder secrets [] 0 (spans stmt)

-- A literal of a secret is replaced; one that only begins with the secret is not.
redact_test :
    redact_secrets (codes "x = N'a', f = N'a''b'") (codes "<p>") (codes "a" ∷ [])
    ≡ codes "x = N'<p>', f = N'a''b'"
unfolding redact_secrets locate pieces unquoted
redact_test = refl
