-- ===== src/Tests/Text.antt =====
-- network/string_utils.h and the description of a table on small inputs.
use uhp_sql.Common.{◌≡◌, refl, some, [], ◌∷◌, arith, codes}
use uhp_sql.StringUtils.{is_blank, trim_left, trim_right, string_split, strings_join}
use uhp_sql.StringUtils.RoundTrip as RoundTrip
use uhp_sql.Meta.{TableColumn, int, varchar, describe, get_col_from_str}
use uhp_sql.Meta.Describe as Describe

string_split-strings_join_example :
    string_split (strings_join (codes "7" ∷ codes "ann" ∷ []) (codes "$$")) (codes "$$")
    ≡ codes "7" ∷ codes "ann" ∷ []
unfolding is_blank trim_left trim_right
string_split-strings_join_example =
    RoundTrip.string_split-strings_join b'$' (codes "$") (codes "7" ∷ codes "ann" ∷ []) refl (
      record { left = refl; right = refl; apart = omega arith },
      (record { left = refl; right = refl; apart = omega arith }, λ e. cc),
    )

abbrev id_column : TableColumn
id_column = record { col_name = codes "id"; col_type = int; val = [] }

abbrev name_column : TableColumn
name_column = record { col_name = codes "name"; col_type = varchar; val = [] }

get_col_from_str-describe_example :
    get_col_from_str (describe (id_column ∷ name_column ∷ [])) ≡ some (id_column ∷ name_column ∷ [])
get_col_from_str-describe_example =
    Describe.get_col_from_str-describe id_column (name_column ∷ [])
      ((plain_id, refl), ((plain_name, refl), tt))
  where
    plain_id : Describe.IsPlain (codes "id")
    plain_id = omega arith

    plain_name : Describe.IsPlain (codes "name")
    plain_name = omega arith
