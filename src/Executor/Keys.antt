-- ===== src/Executor/Keys.antt =====
-- The strings that go to the store for a row: its key and its joined columns.
use uhp_sql.Common.{
  ◌≡◌, refl, ◌∙◌, true, false, Bool, List, [], ◌∷◌, ◌++◌, Bytes, codes, bytes_eq, bytes_eq-append,
  All,
}
use uhp_sql.StringUtils.{join_from, strings_join}
use uhp_sql.Store.{NoNul, NoNul-append, NoNul-byte, NoNul-text}
use uhp_sql.Catalog.{DataBase}
use uhp_sql.Executor.Rows.{data_key}

NoNul-join_from : (b : Bool) (v : List Bytes) → All NoNul v → NoNul (join_from b v (codes "$$"))
unfolding join_from
NoNul-join_from b [] h = tt
NoNul-join_from true (p ∷ v) (hp, h) =
    NoNul-append p (join_from false v (codes "$$")) hp (NoNul-join_from false v h)
NoNul-join_from false (p ∷ v) (hp, h) =
    let rest = join_from false v (codes "$$") in
    NoNul-byte b'$' (b'$' ∷ (p ++ rest)) refl
      (NoNul-byte b'$' (p ++ rest) refl (NoNul-append p rest hp (NoNul-join_from false v h)))

pub NoNul-strings_join : (v : List Bytes) → All NoNul v → NoNul (strings_join v (codes "$$"))
unfolding strings_join
NoNul-strings_join v h = NoNul-join_from true v h

pub NoNul-data_key :
    (b : DataBase) (tab value : Bytes)
    → NoNul b.db_name
    → NoNul tab
    → NoNul value
    → NoNul (data_key b tab value)
NoNul-data_key b tab value hb ht hv =
    NoNul-append (codes "data_") _ (NoNul-text (codes "data_") refl) (
      NoNul-append b.db_name _ hb (
        NoNul-byte _ _ refl (
          NoNul-append tab _ ht (NoNul-append (codes "_p_") _ (NoNul-text (codes "_p_") refl) hv))))

-- Two rows of a table have the same key only where they have the same value.
pub bytes_eq-data_key :
    (b : DataBase) (tab v w : Bytes) → bytes_eq (data_key b tab v) (data_key b tab w) ≡ bytes_eq v w
bytes_eq-data_key b tab v w =
    bytes_eq-append (codes "data_") (behind_data v) (behind_data w)
    ∙ bytes_eq-append b.db_name (codes "_" ++ behind_db v) (codes "_" ++ behind_db w)
    ∙ bytes_eq-append (codes "_") (behind_db v) (behind_db w)
    ∙ bytes_eq-append tab (codes "_p_" ++ v) (codes "_p_" ++ w)
    ∙ bytes_eq-append (codes "_p_") v w
  where
    behind_db : Bytes → Bytes
    behind_db u = tab ++ (codes "_p_" ++ u)

    behind_data : Bytes → Bytes
    behind_data u = b.db_name ++ (codes "_" ++ behind_db u)
