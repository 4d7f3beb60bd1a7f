-- ===== src/Examples/Patterns.antt =====
-- A search for a text with wildcards, and names in two cases.
use gosmo.Base.{ℕ, refl, [], ◌∷◌, str_eq, arith, ◌≡◌, ◌↔◌, true, false, codes, contains_text}
use gosmo.Search.{contains_pattern}
use gosmo.Search.Literal.{like, contains_pattern-contains_text}
use gosmo.Base.Utf8.{runes, text_of_runes}
use gosmo.Names.{to_upper}
use gosmo.Collation.{collation_ignores_case, same_name}
use gosmo.Collation.Keys.{AreSame, join_tokens, same_name_lem}

contains_pattern-contains_text_example :
    like false (contains_pattern (codes "a_[%")) (codes "xa_[%y")
    ≡ contains_text (codes "xa_[%y") (codes "a_[%")
contains_pattern-contains_text_example =
    contains_pattern-contains_text (codes "a_[%") (codes "xa_[%y")

-- No rune but the letters folds.
abbrev no_fold : ℕ → ℕ
no_fold r = r

same_name_lem_example :
    (same_name no_fold
        (join_tokens (codes "Latin1") (codes "CI" ∷ []))
        (codes "Sales")
        (codes "sales")
      ≡ true)
    ↔ AreSame false (codes "Sales") (codes "sales")
unfolding str_eq to_upper
same_name_lem_example =
    same_name_lem no_fold (codes "Latin1") (codes "CI" ∷ []) (codes "Sales") (codes "sales")
      (
        (
          omega arith,
          (omega arith, (omega arith, (omega arith, (omega arith, (omega arith, tt))))),
        ),
        ((omega arith, (omega arith, tt)), tt),
      )
      (omega arith, (omega arith, (omega arith, (omega arith, (omega arith, tt)))))
      (omega arith, (omega arith, (omega arith, (omega arith, (omega arith, tt)))))

case_apart_test :
    same_name no_fold
      (join_tokens (codes "Latin1") (codes "cs" ∷ []))
      (codes "Sales")
      (codes "sales")
    ≡ false
unfolding same_name collation_ignores_case runes text_of_runes str_eq
case_apart_test = refl
