-- ===== src/Examples/Redaction.antt =====
-- A statement with two secrets, one of them the beginning of another literal.
use gosmo.Base.{◌≡◌, refl, false, true, List, [], ◌∷◌, Bytes, codes, map, str_eq, contains}
use gosmo.Tsql.Scan.{pieces}
use gosmo.Script.Redact.{redact_secrets}
use gosmo.Script.Redact.Spliced.{shown, redact_secrets-shown}
use gosmo.Script.Redact.Lexed.{literals}
use gosmo.Script.Redact.Hidden.{hide, literals-redact_secrets, secret_not_shown}

abbrev statement : Bytes
statement =
    codes
      "CREATE LOGIN [a'b] WITH PASSWORD = N'it''s' OLD_PASSWORD = 'old' /* 'old' */, FILE = N'old''s'"

abbrev secrets : List Bytes
secrets = codes "it's" ∷ codes "old" ∷ []

abbrev placeholder : Bytes
placeholder = codes "<insert password here>"

redact_secrets-shown_example :
    redact_secrets statement placeholder secrets ≡ shown placeholder secrets (pieces statement)
redact_secrets-shown_example = redact_secrets-shown statement placeholder secrets

literals-redact_secrets_example :
    literals (redact_secrets statement placeholder secrets)
    ≡ map (hide placeholder secrets) (literals statement)
literals-redact_secrets_example = literals-redact_secrets statement placeholder secrets

no_secret : contains secrets placeholder ≡ false
unfolding contains str_eq
no_secret = refl

is_secret_value : contains secrets (codes "old") ≡ true
unfolding contains str_eq
is_secret_value = refl

not_empty : str_eq (codes "old") [] ≡ false
unfolding str_eq
not_empty = refl

secret_not_shown_example :
    contains (literals (redact_secrets statement placeholder secrets)) (codes "old") ≡ false
secret_not_shown_example =
    secret_not_shown statement placeholder (codes "old") secrets no_secret is_secret_value not_empty
