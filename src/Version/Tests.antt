-- ===== src/Version/Tests.antt =====
-- Two operand versions.
use open_liberty_operator.Common.{codes, ℤ, pos, some, ◌≡◌, refl}
use open_liberty_operator.Version.{compare_operand_version, is_valid_operand_version}
use open_liberty_operator.Version.Compare.{sign, lex, numbers, compare_operand_version-lex}
use open_liberty_operator.Version.Order.{flip, compare_operand_version_swap}

compare_operand_version-lex_example :
    (d : ℤ) × (compare_operand_version (codes "v1_10_0") (codes "v1_4_0") ≡ some d)
    × (sign d ≡ lex (numbers (codes "v1_10_0")) (numbers (codes "v1_4_0")))
unfolding is_valid_operand_version
compare_operand_version-lex_example =
    compare_operand_version-lex (codes "v1_10_0") (codes "v1_4_0") refl refl

compare_operand_version_swap_example :
    (d e : ℤ) × (compare_operand_version (codes "v1_10_0") (codes "v1_4_0") ≡ some d)
    × (compare_operand_version (codes "v1_4_0") (codes "v1_10_0") ≡ some e)
    × (sign e ≡ flip (sign d))
    × ((d ≡ pos 0) → numbers (codes "v1_10_0") ≡ numbers (codes "v1_4_0"))
    × (numbers (codes "v1_10_0") ≡ numbers (codes "v1_4_0") → d ≡ pos 0)
unfolding is_valid_operand_version
compare_operand_version_swap_example =
    compare_operand_version_swap (codes "v1_10_0") (codes "v1_4_0") refl refl
