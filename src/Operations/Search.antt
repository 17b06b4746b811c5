-- ===== src/Operations/Search.antt =====
-- The search through a paged listing is a search through all of its records.
use master_dns.Common.{
  ℕ, zero, suc, ◌≤◌, ◌≡◌, refl, Bool, Option, none, some, String, List, [], ◌∷◌, ◌++◌, length,
  Result, ok, arith, Bool-cases, Option-cases, inl, inr,
}
use master_dns.Operations.Errors.{ProviderError}
use master_dns.Operations.Types.{ProviderRecord}
use master_dns.Operations.Remote.{Page, find_match, next_cursor, find_matching_record}

-- The pages of a listing from a cursor on, to the last one.
pub data Pages (listing : Option String → Result ProviderError Page)
    : Option String → List (List ProviderRecord) → Type 0 where
  last :
      (cursor : Option String) (page : Page)
      → listing cursor ≡ ok page
      → next_cursor page.next_cursor ≡ none
      → Pages listing cursor (page.items ∷ [])
  more :
      (cursor : Option String) (page : Page) (next : String) (rest : List (List ProviderRecord))
      → listing cursor ≡ ok page
      → next_cursor page.next_cursor ≡ some next
      → Pages listing (some next) rest
      → Pages listing cursor (page.items ∷ rest)

abbrev pub concat : List (List ProviderRecord) → List ProviderRecord
concat [] = []
concat (page ∷ pages) = page ++ concat pages

some-none : {A : Type 0} {a : A} → ◌≡◌ {A = Option A} (some a) none → ⊥
some-none e = cc

no_room : {n : ℕ} → suc n ≤ 0 → ⊥
no_room h = omega arith

find_match-front :
    (wanted : ProviderRecord → Bool) (front back : List ProviderRecord) (found : ProviderRecord)
    → find_match wanted front ≡ some found
    → find_match wanted (front ++ back) ≡ some found
find_match-front wanted [] back found e = cc
find_match-front wanted (x ∷ front) back found e = elim (Bool-cases (wanted x)) [
  | inl t ↦ rw t (rw t at e)
  | inr t ↦ rw t (find_match-front wanted front back found (rw t at e))
]

find_match-back :
    (wanted : ProviderRecord → Bool) (front back : List ProviderRecord)
    → find_match wanted front ≡ none
    → find_match wanted (front ++ back) ≡ find_match wanted back
find_match-back wanted [] back e = refl
find_match-back wanted (x ∷ front) back e = elim (Bool-cases (wanted x)) [
  | inl t ↦ absurd (some-none (rw t at e))
  | inr t ↦ rw t (find_match-back wanted front back (rw t at e))
]

-- The search through a listing whose pages end ends too, after as many pages at most, and its
-- result is that of a search through the records of all pages: the first match, or none.
pub find_matching_record_lem :
    (fuel : ℕ) (listing : Option String → Result ProviderError Page)
    (wanted : ProviderRecord → Bool) (cursor : Option String) (pages : List (List ProviderRecord))
    → Pages listing cursor pages
    → length pages ≤ fuel
    → find_matching_record fuel listing wanted cursor ≡ ok (find_match wanted (concat pages))
unfolding find_matching_record
find_matching_record_lem zero listing wanted cursor pages (last c page e n) h = absurd (no_room h)
find_matching_record_lem zero listing wanted cursor pages (more c page next rest e n p) h =
    absurd (no_room h)
find_matching_record_lem (suc fuel) listing wanted cursor pages (last c page e n) h =
    elim (Option-cases (find_match wanted page.items)) [
      | inl absent ↦ rw (e, absent, n, find_match-back wanted page.items [] absent) refl
      | inr (found, there) ↦ rw (e, there, find_match-front wanted page.items [] found there) refl
    ]
find_matching_record_lem (suc fuel) listing wanted cursor pages (more c page next rest e n p) h =
    elim (Option-cases (find_match wanted page.items)) [
      | inl absent ↦
          rw (e, absent, n, find_match-back wanted page.items (concat rest) absent)
            (find_matching_record_lem fuel listing wanted (some next) rest p (omega arith))
      | inr (found, there) ↦
          rw (e, there, find_match-front wanted page.items (concat rest) found there) refl
    ]
