-- ===== src/Restore/Lsn.antt =====
-- CompareLSN: decimal text of up to 25 digits, compared by length and then digit by digit.
pub mod Order
use Prim.Native.Nat.{compare, Ordering}
use gosmo.Base.{ℕ, ◌≡◌, refl, List, [], ◌∷◌, Bytes, codes, ◌==◌, length, true, false}

-- cmp.Or on two comparisons
abbrev pub then_by : Ordering → Ordering → Ordering
then_by Ordering.eq r = r
then_by Ordering.lt r = Ordering.lt
then_by Ordering.gt r = Ordering.gt

-- strings.Compare
unfoldable pub compare_text : Bytes → Bytes → Ordering
compare_text [] [] = Ordering.eq
compare_text [] (d ∷ t) = Ordering.lt
compare_text (c ∷ s) [] = Ordering.gt
compare_text (c ∷ s) (d ∷ t) = then_by (compare c d) (compare_text s t)

-- strings.TrimLeft(s, "0")
unfoldable pub trim_zeros : Bytes → Bytes
trim_zeros [] = []
trim_zeros (c ∷ s) = elim (c == b'0') [ true ↦ trim_zeros s | false ↦ c ∷ s ]

unfoldable pub compare_lsn : Bytes → Bytes → Ordering
compare_lsn a b =
    let a' = trim_zeros a in
    let b' = trim_zeros b in then_by (compare (length a') (length b')) (compare_text a' b')

compare_lsn_test : compare_lsn (codes "00100") (codes "99") ≡ Ordering.gt
unfolding compare_lsn trim_zeros compare_text
compare_lsn_test = refl
