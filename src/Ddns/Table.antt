-- ===== src/Ddns/Table.antt =====
-- Rows of which no two are live in one family and state.
use master_dns.Common.{
  ℕ, ◌≡◌, refl, sym, ap, ◌∙◌, subst, Bool, true, false, not, ◌&&◌, Option, none, some, String, List,
  [], ◌∷◌, inl, inr, Bool-cases, if◌then◌else◌, arith,
}
use mathlib.Core.Option.{some-injective}
use master_dns.Common.Text.{str_eq, str_eq_iff}
use master_dns.Strategy.Types.{AddressFamily, v4, v6}
use master_dns.Strategy.Candidates.{same_family}
use master_dns.Ddns.Addresses.{
  AddressState, candidate, current, previous, AddressRow, same_state, is_live, find_live,
  retire_row, retire,
}

abbrev pub lacks_id : String → List AddressRow → Bool
lacks_id id [] = true
lacks_id id (row ∷ rows) = not (str_eq row.id id) && lacks_id id rows

-- The ids are distinct, and each family has one row at most in each live state.
abbrev pub IsTable : List AddressRow → Type 0
IsTable [] = Unit
IsTable (row ∷ rows) =
    (lacks_id row.id rows ≡ true)
    × (same_state row.state previous ≡ false → find_live row.family row.state rows ≡ none)
    × IsTable rows

true-false : ◌≡◌ {A = Bool} true false → ⊥
true-false e = cc

some-none : {A : Type 0} {a : A} → ◌≡◌ {A = Option A} (some a) none → ⊥
some-none e = cc

both_first : (a b : Bool) → (a && b) ≡ true → a ≡ true
both_first a b h = ground arith

both_second : (a b : Bool) → (a && b) ≡ true → b ≡ true
both_second a b h = ground arith

not_same : (same rest : Bool) → (not same && rest) ≡ true → same ≡ false
not_same same rest h = ground arith

rest_lacks : (same rest : Bool) → (not same && rest) ≡ true → rest ≡ true
rest_lacks same rest h = ground arith

str_eq_sym : (a b : String) → str_eq a b ≡ false → str_eq b a ≡ false
str_eq_sym a b h = elim (Bool-cases (str_eq b a)) [
  | inl e ↦ absurd (true-false ((sym ((str_eq_iff a b).1 (sym ((str_eq_iff b a).0 e)))) ∙ h))
  | inr e ↦ e
]

retire_row-id : (id : String) (now : ℕ) (row : AddressRow) → (retire_row id now row).id ≡ row.id
retire_row-id id now row = elim (Bool-cases (str_eq row.id id)) [
  | inl e ↦ rw e refl
  | inr e ↦ rw e refl
]

retire-lacking :
    (id : String) (now : ℕ) (rows : List AddressRow)
    → lacks_id id rows ≡ true
    → retire id now rows ≡ rows
retire-lacking id now [] h = refl
retire-lacking id now (row ∷ rows) h = rw (not_same (str_eq row.id id) (lacks_id id rows) h) (
    ap (λ rest. row ∷ rest)
      (retire-lacking id now rows (rest_lacks (str_eq row.id id) (lacks_id id rows) h)))

pub lacks_id-retire :
    (other id : String) (now : ℕ) (rows : List AddressRow)
    → lacks_id other (retire id now rows) ≡ lacks_id other rows
lacks_id-retire other id now [] = refl
lacks_id-retire other id now (row ∷ rows) =
    rw (retire_row-id id now row, lacks_id-retire other id now rows) refl

-- A row that is found is not one whose id the rows lack.
found_elsewhere :
    (family : AddressFamily) (state : AddressState) (id : String) (rows : List AddressRow)
    (found : AddressRow)
    → find_live family state rows ≡ some found
    → lacks_id id rows ≡ true
    → str_eq id found.id ≡ false
found_elsewhere family state id [] found e h = cc
found_elsewhere family state id (row ∷ rows) found e h =
    elim (Bool-cases (is_live family state row)) [
      | inl t ↦
          subst (λ x. str_eq id x.id ≡ false) (some-injective _ _ (rw t at e))
            (str_eq_sym row.id id (not_same (str_eq row.id id) (lacks_id id rows) h))
      | inr t ↦
          found_elsewhere family state id rows found (rw t at e)
            (rest_lacks (str_eq row.id id) (lacks_id id rows) h)
    ]

str_eq_refl : (a : String) → str_eq a a ≡ true
str_eq_refl a = (str_eq_iff a a).1 refl

pub same_family_lem : (a b : AddressFamily) → same_family a b ≡ true → a ≡ b
same_family_lem v4 v4 h = refl
same_family_lem v6 v6 h = refl
same_family_lem v4 v6 h = cc
same_family_lem v6 v4 h = cc

same_state_lem : (a b : AddressState) → same_state a b ≡ true → a ≡ b
same_state_lem candidate candidate h = refl
same_state_lem current current h = refl
same_state_lem previous previous h = refl
same_state_lem candidate current h = cc
same_state_lem candidate previous h = cc
same_state_lem current candidate h = cc
same_state_lem current previous h = cc
same_state_lem previous candidate h = cc
same_state_lem previous current h = cc

previous_dead :
    (state : AddressState) → same_state state previous ≡ false → same_state previous state ≡ false
previous_dead candidate h = refl
previous_dead current h = refl
previous_dead previous h = h

retired_dead :
    (family : AddressFamily) (state : AddressState) (now : ℕ) (row : AddressRow)
    → same_state state previous ≡ false
    → is_live family state (record row { state = previous; replaced_at = some now }) ≡ false
retired_dead family state now row live = rw (previous_dead state live) (ground arith)

head_dead :
    (family : AddressFamily) (state : AddressState) (row : AddressRow) (rows : List AddressRow)
    → find_live family state (row ∷ rows) ≡ none
    → is_live family state row ≡ false
head_dead family state row rows e = elim (Bool-cases (is_live family state row)) [
  | inl t ↦ absurd (some-none (rw t at e))
  | inr t ↦ t
]

tail_none :
    (family : AddressFamily) (state : AddressState) (row : AddressRow) (rows : List AddressRow)
    → find_live family state (row ∷ rows) ≡ none
    → find_live family state rows ≡ none
tail_none family state row rows e = rw (head_dead family state row rows e) at e

-- The rows after a live one have none like it.
single_at :
    (family : AddressFamily) (state : AddressState) (row : AddressRow) (rows : List AddressRow)
    → is_live family state row ≡ true
    → same_state state previous ≡ false
    → (same_state row.state previous ≡ false → find_live row.family row.state rows ≡ none)
    → find_live family state rows ≡ none
single_at family state row rows t live single =
    let f =
      same_family_lem row.family family
        (both_first (same_family row.family family) (same_state row.state state) t) in
    let st =
      same_state_lem row.state state
        (both_second (same_family row.family family) (same_state row.state state) t) in
    subst (λ g. find_live g state rows ≡ none) f
      (subst (λ x. find_live row.family x rows ≡ none) st
        (single (ap (λ x. same_state x previous) st ∙ live)))

pub none-retire :
    (family : AddressFamily) (state : AddressState) (id : String) (now : ℕ) (rows : List AddressRow)
    → same_state state previous ≡ false
    → find_live family state rows ≡ none
    → find_live family state (retire id now rows) ≡ none
none-retire family state id now [] live e = refl
none-retire family state id now (row ∷ rows) live e =
    let off = head_dead family state row rows e in
    let rest = none-retire family state id now rows live (tail_none family state row rows e) in
    elim (Bool-cases (str_eq row.id id)) [
      | inl t ↦ rw (t, retired_dead family state now row live) rest
      | inr t ↦ rw (t, off) rest
    ]

pub retire-found :
    (family : AddressFamily) (state : AddressState) (now : ℕ) (rows : List AddressRow)
    (found : AddressRow)
    → same_state state previous ≡ false
    → IsTable rows
    → find_live family state rows ≡ some found
    → find_live family state (retire found.id now rows) ≡ none
retire-found family state now [] found live table e = cc
retire-found family state now (row ∷ rows) found live (own, single, table) e =
    elim (Bool-cases (is_live family state row)) [
      | inl t ↦
          subst (λ x. find_live family state (retire x.id now (row ∷ rows)) ≡ none)
            (some-injective _ _ (rw t at e))
            (rw
              (
                str_eq_refl row.id,
                retired_dead family state now row live,
                retire-lacking row.id now rows own,
              )
              (single_at family state row rows t live single))
      | inr t ↦
          rw (found_elsewhere family state row.id rows found (rw t at e) own, t)
            (retire-found family state now rows found live table (rw t at e))
    ]

same_head :
    (test : Bool) (row : AddressRow) {a b : Option AddressRow}
    → a ≡ b
    → (if test then some row else a) ≡ (if test then some row else b)
same_head test row e = ap (λ x. if test then some row else x) e

apart_dead :
    (family other : AddressFamily) (state state_ : AddressState) (row : AddressRow)
    → is_live family state row ≡ true
    → (same_family family other && same_state state state_) ≡ false
    → is_live other state_ row ≡ false
apart_dead family other state state_ row t apart =
    let f =
      same_family_lem row.family family
        (both_first (same_family row.family family) (same_state row.state state) t) in
    let st =
      same_state_lem row.state state
        (both_second (same_family row.family family) (same_state row.state state) t) in
    subst (λ g. (same_family g other && same_state row.state state_) ≡ false) (sym f)
      (subst (λ x. (same_family family other && same_state x state_) ≡ false) (sym st) apart)

retire_row-single :
    (id : String) (now : ℕ) (row : AddressRow) (rows : List AddressRow)
    → (same_state row.state previous ≡ false → find_live row.family row.state rows ≡ none)
    → same_state (retire_row id now row).state previous ≡ false
    → find_live (retire_row id now row).family (retire_row id now row).state (retire id now rows)
      ≡ none
retire_row-single id now row rows single = elim (Bool-cases (str_eq row.id id)) [
  | inl e ↦ rw e (λ live. absurd (true-false live))
  | inr e ↦ rw e (λ live. none-retire row.family row.state id now rows live (single live))
]

-- Other families and states find what they found.
pub retire-other :
    (family other : AddressFamily) (state state_ : AddressState) (now : ℕ) (rows : List AddressRow)
    (found : AddressRow)
    → same_state state_ previous ≡ false
    → (same_family family other && same_state state state_) ≡ false
    → IsTable rows
    → find_live family state rows ≡ some found
    → find_live other state_ (retire found.id now rows) ≡ find_live other state_ rows
retire-other family other state state_ now [] found live apart table e = cc
retire-other family other state state_ now (row ∷ rows) found live apart (own, single, table) e =
    elim (Bool-cases (is_live family state row)) [
      | inl t ↦
          subst
            (λ x.
              find_live other state_ (retire x.id now (row ∷ rows))
              ≡ find_live other state_ (row ∷ rows))
            (some-injective _ _ (rw t at e))
            (rw
              (
                str_eq_refl row.id,
                retired_dead other state_ now row live,
                retire-lacking row.id now rows own,
                apart_dead family other state state_ row t apart,
              )
              refl)
      | inr t ↦ rw (found_elsewhere family state row.id rows found (rw t at e) own) (
          same_head (is_live other state_ row) row
            (retire-other family other state state_ now rows found live apart table (rw t at e)))
    ]

pub IsTable-retire :
    (id : String) (now : ℕ) (rows : List AddressRow) → IsTable rows → IsTable (retire id now rows)
IsTable-retire id now [] table = tt
IsTable-retire id now (row ∷ rows) (own, single, table) = (
  rw (retire_row-id id now row, lacks_id-retire row.id id now rows) own,
  retire_row-single id now row rows single,
  IsTable-retire id now rows table,
)
