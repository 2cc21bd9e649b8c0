-- ===== src/FieldType/RoundTrip.antt =====
-- The two tables of network/type.h agree.
use uhp_sql.Common.{
  ℕ, ◌^◌, ◌<◌, ◌≡◌, ◌⊎◌, inl, inr, List, [], ◌∷◌, arith, ◌==◌, ==_iff, Bool, true, false,
  if◌then◌else◌, Bool-cases, All,
}
use mathlib.Core.Path.{subst}
use uhp_sql.FieldType.{at_key, type_to_mysql, mysql_to_type, wire_code, wire_flags}

-- Whether the table has an entry for the key.
abbrev pub HasKey {ℓ} : {V : Type ℓ} → ℕ → List (ℕ × V) → Type 0
HasKey k [] = ⊥
HasKey k ((j, v) ∷ m) = (j ≡ k) ⊎ HasKey k m

abbrev pub has_key {ℓ} : {V : Type ℓ} → ℕ → List (ℕ × V) → Bool
has_key k [] = false
has_key k ((j, v) ∷ m) = if j == k then true else has_key k m

pub has_key-HasKey {ℓ} : {V : Type ℓ} (k : ℕ) (m : List (ℕ × V)) → has_key k m ≡ true → HasKey k m
has_key-HasKey k [] h = cc
has_key-HasKey k ((j, v) ∷ m) h = elim (Bool-cases (j == k)) [
  | inl e ↦ inl ((==_iff j k).0 e)
  | inr e ↦ inr (has_key-HasKey k m (rw e at h))
]

HasKey-tail {ℓ} :
    {V : Type ℓ} {j k : ℕ} (m : List (ℕ × V)) → (j ≡ k) ⊎ HasKey k m → ¬ (j ≡ k) → HasKey k m
HasKey-tail m (inl p) ne = absurd (ne p)
HasKey-tail m (inr r) ne = r

-- What holds of every entry of a table holds of what a lookup finds.
at_key_sound {ℓ κ} :
    {V : Type ℓ} (P : ℕ → V → Type κ) (d : V) (k : ℕ) (m : List (ℕ × V))
    → All (λ e. P e.0 e.1) m
    → HasKey k m
    → P k (at_key d k m)
at_key_sound P d k [] h has = absurd has
at_key_sound P d k ((j, v) ∷ m) (hv, hm) has = elim (Bool-cases (j == k)) [
  | inl e ↦ rw e (subst (λ t. P t v) ((==_iff j k).0 e) hv)
  | inr e ↦ rw e (at_key_sound P d k m hm (HasKey-tail m has (λ p. cc (e, (==_iff j k).1 p))))
]

-- The type that a client reads back from the code and the flags of a column is the column's type,
-- for every type that the server's table has.
pub mysql_to_type-wire :
    (t : ℕ) → HasKey t type_to_mysql → mysql_to_type (wire_code t) (wire_flags t) ≡ t
unfolding mysql_to_type wire_code wire_flags
mysql_to_type-wire t has =
    at_key_sound (λ k v. mysql_to_type v.0 v.1 ≡ k) (0, 0) t type_to_mysql (omega arith) has

-- The code fits a byte and the flags fit sixteen bits.
pub wire_fits : (t : ℕ) → HasKey t type_to_mysql → (wire_code t < 2 ^ 8) × (wire_flags t < 2 ^ 16)
unfolding wire_code wire_flags
wire_fits t has =
    at_key_sound (λ k v. (v.0 < 2 ^ 8) × (v.1 < 2 ^ 16)) (0, 0) t type_to_mysql (omega arith) has
