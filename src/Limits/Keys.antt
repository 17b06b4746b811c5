-- ===== src/Limits/Keys.antt =====
-- The row that an upsert on a key leaves there.
use master_dns.Common.{
  ◌≡◌, refl, inl, inr, true, ◌&&◌, Option, none, some, String, List, [], ◌∷◌, Bool-cases, arith,
}
use master_dns.Common.Text.{str_eq, str_eq_iff}
use master_dns.Limits.Buckets.{Row, has_key, same_region, find_row, upsert}

pub str_eq_refl : (a : String) → str_eq a a ≡ true
str_eq_refl a = (str_eq_iff a a).1 refl

same_region_refl : (region : Option String) → same_region region region ≡ true
same_region_refl none = refl
same_region_refl (some region) = str_eq_refl region

pub has_key_refl :
    (id : String) (region : Option String) → (str_eq id id && same_region region region) ≡ true
has_key_refl id region = ground (arith, str_eq_refl id, same_region_refl region)

pub find_row-upsert {ℓ} :
    (P : Row → Type ℓ) (fresh : Row) (change : Row → Row)
    → ((row : Row) → has_key fresh.rule_id fresh.region (change row) ≡ true)
    → P fresh
    → ((row : Row) → P (change row))
    → (rows : List Row)
    → (row : Row) × (find_row fresh.rule_id fresh.region (upsert fresh change rows) ≡ some row)
      × P row
unfolding find_row upsert
find_row-upsert P fresh change keyed p q [] =
    (fresh, rw (has_key_refl fresh.rule_id fresh.region) refl, p)
find_row-upsert P fresh change keyed p q (row ∷ rows) =
    elim (Bool-cases (has_key fresh.rule_id fresh.region row)) [
      | inl e ↦ (change row, rw (e, keyed row) refl, q row)
      | inr e ↦
          let (found, there, r) = find_row-upsert P fresh change keyed p q rows in
          (found, rw (e, e) there, r)
    ]
