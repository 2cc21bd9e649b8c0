-- ===== src/FieldType.antt =====
-- network/type.h and the constants of network/common.h: column types and their codes on the wire.
pub mod RoundTrip
use uhp_sql.Common.{ℕ, bit_and, Bool, not, List, [], ◌∷◌, ◌==◌, if◌then◌else◌}

-- `std::map::operator[]`: a missing key reads as a value-initialised element.
abbrev pub at_key {ℓ} : {V : Type ℓ} → V → ℕ → List (ℕ × V) → V
at_key zero_value k [] = zero_value
at_key zero_value k ((j, v) ∷ m) = if j == k then v else at_key zero_value k m

abbrev pub mysql_unsigned : ℕ
mysql_unsigned = 32

abbrev pub mysql_binary : ℕ
mysql_binary = 128

abbrev pub mysql_enum : ℕ
mysql_enum = 256

abbrev pub mysql_set : ℕ
mysql_set = 2048

-- `MYSQL_TO_TYPE_MAP`. The entries name the `TYPE_` constants of network/common.h by value: 257
-- TYPE_INT8, 259 INT16, 263 INT32, 1035 FLOAT32, 1036 FLOAT64, 0 NULL_TYPE, 2061 TIMESTAMP, 265
-- INT64, 261 INT24, 2062 DATE, 2063 TIME, 2064 DATETIME, 785 YEAR, 2073 BIT, 2078 JSON, 18
-- DECIMAL, 6163 TEXT, 6165 VARCHAR, 6167 CHAR, 2077 GEOMETRY.
abbrev pub mysql_to_type_map : List (ℕ × ℕ)
mysql_to_type_map =
    (1, 257)
    ∷ (2, 259)
    ∷ (3, 263)
    ∷ (4, 1035)
    ∷ (5, 1036)
    ∷ (6, 0)
    ∷ (7, 2061)
    ∷ (8, 265)
    ∷ (9, 261)
    ∷ (10, 2062)
    ∷ (11, 2063)
    ∷ (12, 2064)
    ∷ (13, 785)
    ∷ (16, 2073)
    ∷ (245, 2078)
    ∷ (246, 18)
    ∷ (249, 6163)
    ∷ (250, 6163)
    ∷ (251, 6163)
    ∷ (252, 6163)
    ∷ (253, 6165)
    ∷ (254, 6167)
    ∷ (255, 2077)
    ∷ []

-- `TYPE_TO_MYSQL`: for a `TYPE_` constant, the code on the wire and the flags.
abbrev pub type_to_mysql : List (ℕ × (ℕ × ℕ))
type_to_mysql =
    (257, (1, 0))
    ∷ (770, (1, mysql_unsigned))
    ∷ (259, (2, 0))
    ∷ (772, (2, mysql_unsigned))
    ∷ (263, (3, 0))
    ∷ (776, (3, mysql_unsigned))
    ∷ (1035, (4, 0))
    ∷ (1036, (5, 0))
    ∷ (0, (6, mysql_binary))
    ∷ (2061, (7, 0))
    ∷ (265, (8, 0))
    ∷ (778, (8, mysql_unsigned))
    ∷ (261, (9, 0))
    ∷ (774, (9, mysql_unsigned))
    ∷ (2062, (10, mysql_binary))
    ∷ (2063, (11, mysql_binary))
    ∷ (2064, (12, mysql_binary))
    ∷ (785, (13, mysql_unsigned))
    ∷ (2073, (16, mysql_unsigned))
    ∷ (2078, (245, 0))
    ∷ (18, (246, 0))
    ∷ (6163, (252, 0))
    ∷ (10260, (252, mysql_binary))
    ∷ (6165, (253, 0))
    ∷ (10262, (253, mysql_binary))
    ∷ (6167, (254, 0))
    ∷ (10264, (254, mysql_binary))
    ∷ (2074, (254, mysql_enum))
    ∷ (2075, (254, mysql_set))
    ∷ (2077, (255, 0))
    ∷ []

-- `(flags & mask) != 0`
abbrev pub has_flag : ℕ → ℕ → Bool
has_flag flags mask = not (bit_and flags mask == 0)

-- The `switch` of `MySQLToType`.
refine_type : ℕ → ℕ → ℕ
refine_type typ flags =
    if typ == 257
    then (if has_flag flags mysql_unsigned then 770 else 257)
    else if typ == 259
    then (if has_flag flags mysql_unsigned then 772 else 259)
    else if typ == 263
    then (if has_flag flags mysql_unsigned then 776 else 263)
    else if typ == 265
    then (if has_flag flags mysql_unsigned then 778 else 265)
    else if typ == 261
    then (if has_flag flags mysql_unsigned then 774 else 261)
    else if typ == 6163
    then (if has_flag flags mysql_binary then 10260 else 6163)
    else if typ == 6165
    then (if has_flag flags mysql_binary then 10262 else 6165)
    else if typ == 6167
    then (if has_flag flags mysql_binary
        then 10264
        else if has_flag flags mysql_enum
        then 2074
        else if has_flag flags mysql_set
        then 2075
        else 6167)
    else typ

unfoldable pub mysql_to_type : ℕ → ℕ → ℕ
unfolding refine_type
mysql_to_type mysql_type flags = refine_type (at_key 0 mysql_type mysql_to_type_map) flags

-- `TYPE_TO_MYSQL[type].first` and `.second`.
unfoldable pub wire_code : ℕ → ℕ
wire_code type = (at_key (0, 0) type type_to_mysql).0

unfoldable pub wire_flags : ℕ → ℕ
wire_flags type = (at_key (0, 0) type type_to_mysql).1
