-- ===== src/Ddns/Publishing.antt =====
-- What an endpoint publishes and has under check, in each family, apart from the rows.
use master_dns.Common.{
  ℕ, ◌≡◌, refl, sym, ap, ◌∙◌, subst, Bool, true, false, ◌&&◌, Option, none, some, String, List, inl,
  inr, Bool-cases, if◌then◌else◌, arith,
}
use master_dns.Common.Text.{str_eq, str_eq_iff}
use master_dns.Strategy.Types.{AddressFamily, v4, v6}
use master_dns.Strategy.Candidates.{same_family}
use master_dns.Ddns.Addresses.{
  AddressState, candidate, current, previous, AddressRow, same_state, find_live, Report,
  retire_found, withdraw, new_row, is_at, keep_candidate, create_candidate,
}
use master_dns.Ddns.Table.{
  same_family_lem, lacks_id, IsTable, lacks_id-retire, retire-found, retire-other, IsTable-retire,
}

-- The address that is published and the one that is under check.
abbrev pub Standing : Type 0
Standing = Option String × Option String

abbrev pub is_text : Option String → String → Bool
is_text none address = false
is_text (some text) address = str_eq text address

-- What a report means: null withdraws both; the published address ends a check; any other is put
-- under check, and what is published stays.
abbrev pub publish : Standing → Option String → Standing
publish (published, checking) none = (none, none)
publish (published, checking) (some address) =
    if is_text published address then (published, none) else (published, some address)

abbrev pub address_of : Option AddressRow → Option String
address_of none = none
address_of (some row) = some row.address

abbrev pub view : AddressFamily → List AddressRow → Standing
view family rows =
    (address_of (find_live family current rows), address_of (find_live family candidate rows))

abbrev pub publish_if : Bool → Standing → Option String → Standing
publish_if true standing address = publish standing address
publish_if false standing address = standing

-- The rows after a row that was found, or none, is retired.
abbrev IsRetired : AddressFamily → AddressState → List AddressRow → List AddressRow → Type 0
IsRetired family state before after =
    IsTable after
    × (find_live family state after ≡ none)
    × ((other : AddressFamily) (state_ : AddressState)
        → same_state state_ previous ≡ false
        → (same_family family other && same_state state state_) ≡ false
        → find_live other state_ after ≡ find_live other state_ before)
    × ((id : String) → lacks_id id before ≡ true → lacks_id id after ≡ true)

retire_found-IsRetired :
    (family : AddressFamily) (state : AddressState) (now : ℕ) (r : Report)
    (found : Option AddressRow)
    → same_state state previous ≡ false
    → IsTable r.rows
    → find_live family state r.rows ≡ found
    → IsRetired family state r.rows (retire_found found now r).rows
retire_found-IsRetired family state now r none live table e =
    (table, e, (λ other state_ l a. refl), λ id h. h)
retire_found-IsRetired family state now r (some row) live table e = (
  IsTable-retire row.id now r.rows table,
  retire-found family state now r.rows row live table e,
  (λ other state_ l a. retire-other family other state state_ now r.rows row l a table e),
  λ id h. lacks_id-retire id row.id now r.rows ∙ h,
)

-- The rows keep their order, and each family is published as the report means.
abbrev pub IsPublished : AddressFamily → Option String → List AddressRow → List AddressRow → Type 0
IsPublished family address before after =
    IsTable after
    × ((other : AddressFamily)
        → view other after ≡ publish_if (same_family family other) (view other before) address)

pair_lem : {a b c d : Option String} → a ≡ c → b ≡ d → ◌≡◌ {A = Standing} (a, b) (c, d)
pair_lem p q = rw (p, q) refl

same_family_refl : (family : AddressFamily) → same_family family family ≡ true
same_family_refl v4 = refl
same_family_refl v6 = refl

-- Views of the other family, where both of its rows are as they were.
others_same :
    (family : AddressFamily) (address : Option String) (before after : List AddressRow)
    → IsTable after
    → (view family after ≡ publish (view family before) address)
    → ((other : AddressFamily)
        → same_family family other ≡ false
        → view other after ≡ view other before)
    → IsPublished family address before after
others_same family address before after table own others = (table, λ other. go other)
  where
    go :
        (other : AddressFamily)
        → view other after ≡ publish_if (same_family family other) (view other before) address
    go other = elim (Bool-cases (same_family family other)) [
      | inl e ↦ rw e (
          subst (λ f. view f after ≡ publish (view f before) address)
            (same_family_lem family other e) own)
      | inr e ↦ rw e (others other e)
    ]

live_current : same_state current previous ≡ false
live_current = refl

apart_family : (a b : Bool) → a ≡ false → (a && b) ≡ false
apart_family a b e = ground arith

apart_state : (a : Bool) → (a && false) ≡ false
apart_state a = ground arith

pub withdraw-IsPublished :
    (now : ℕ) (family : AddressFamily) (r : Report)
    → IsTable r.rows
    → IsPublished family none r.rows
        (withdraw now family
          (find_live family current r.rows)
          (find_live family candidate r.rows)
          r).rows
withdraw-IsPublished now family r table =
    let first = retire_found (find_live family candidate r.rows) now r in
    let (table1, gone1, kept1, ids1) =
      retire_found-IsRetired family candidate now r (find_live family candidate r.rows) refl table
        refl in
    let (table2, gone2, kept2, ids2) =
      retire_found-IsRetired family current now first (find_live family current r.rows) refl table1
        (kept1 family current refl (apart_state (same_family family family))) in
    others_same family none r.rows _ table2
      (pair_lem (ap address_of gone2) (
        ap address_of
          (kept2 family candidate refl (apart_state (same_family family family)) ∙ gone1)))
      (λ other e.
        pair_lem
          (ap address_of (
            kept2 other current refl (apart_family (same_family family other) true e)
            ∙ kept1 other current refl (apart_family (same_family family other) false e)))
          (ap address_of (
            kept2 other candidate refl (apart_family (same_family family other) false e)
            ∙ kept1 other candidate refl (apart_family (same_family family other) true e))))

is_at_text :
    (row : Option AddressRow) (address : String)
    → is_at row address ≡ is_text (address_of row) address
is_at_text none address = refl
is_at_text (some row) address = refl

at_address :
    (row : Option AddressRow) (address : String)
    → is_at row address ≡ true
    → address_of row ≡ some address
at_address none address e = cc
at_address (some row) address e = ap some ((str_eq_iff row.address address).0 e)

pub keep_candidate_rows :
    (row : Option AddressRow) (r : Report) → (keep_candidate row r).rows ≡ r.rows
keep_candidate_rows none r = refl
keep_candidate_rows (some row) r = refl

-- The published address is reported: the check ends.
pub confirm-IsPublished :
    (now : ℕ) (family : AddressFamily) (address : String) (r : Report)
    → IsTable r.rows
    → is_at (find_live family current r.rows) address ≡ true
    → IsPublished family
        (some address)
        r.rows
        (retire_found (find_live family candidate r.rows) now r).rows
confirm-IsPublished now family address r table e =
    let (table1, gone1, kept1, ids1) =
      retire_found-IsRetired family candidate now r (find_live family candidate r.rows) refl table
        refl in
    others_same family (some address) r.rows _ table1
      (rw (sym (is_at_text (find_live family current r.rows) address) ∙ e) (
        pair_lem
          (ap address_of (kept1 family current refl (apart_state (same_family family family))))
          (ap address_of gone1)))
      (λ other o.
        pair_lem
          (ap address_of
            (kept1 other current refl (apart_family (same_family family other) false o)))
          (ap address_of
            (kept1 other candidate refl (apart_family (same_family family other) true o))))

-- The address under check is reported again.
pub keep-IsPublished :
    (family : AddressFamily) (address : String) (r : Report)
    → IsTable r.rows
    → is_at (find_live family current r.rows) address ≡ false
    → is_at (find_live family candidate r.rows) address ≡ true
    → IsPublished family (some address) r.rows r.rows
keep-IsPublished family address r table off e =
    others_same family (some address) r.rows r.rows table
      (rw (sym (is_at_text (find_live family current r.rows) address) ∙ off)
        (pair_lem refl (at_address (find_live family candidate r.rows) address e)))
      (λ other o. refl)

-- Another address is reported.
pub create-IsPublished :
    (now : ℕ) (fresh : String) (family : AddressFamily) (address : String) (r : Report)
    → IsTable r.rows
    → lacks_id fresh r.rows ≡ true
    → is_at (find_live family current r.rows) address ≡ false
    → IsPublished family
        (some address)
        r.rows
        (create_candidate
          (new_row fresh family address now)
          (retire_found (find_live family candidate r.rows) now r)).rows
create-IsPublished now fresh family address r table own off =
    let (table1, gone1, kept1, ids1) =
      retire_found-IsRetired family candidate now r (find_live family candidate r.rows) refl table
        refl in
    others_same family (some address) r.rows
      (create_candidate (new_row fresh family address now)
        (retire_found (find_live family candidate r.rows) now r)).rows
      (ids1 fresh own, (λ l. gone1), table1)
      (rw
        (sym (is_at_text (find_live family current r.rows) address) ∙ off, same_family_refl family)
        (pair_lem
          (ap address_of (kept1 family current refl (apart_state (same_family family family))))
          refl))
      (λ other o. rw (o) (
        pair_lem
          (ap address_of
            (kept1 other current refl (apart_family (same_family family other) false o)))
          (ap address_of
            (kept1 other candidate refl (apart_family (same_family family other) true o)))))
