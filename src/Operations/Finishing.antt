-- ===== src/Operations/Finishing.antt =====
-- A step that is finished stays so, in every update that the worker makes.
use master_dns.Common.{
  ◌≡◌, refl, Bool, true, false, Option, none, some, String, List, [], ◌∷◌, inl, inr, Bool-cases,
  if◌then◌else◌, arith,
}
use master_dns.Operations.Types.{Step}
use master_dns.Operations.Tables.{is_finished, is_open_with, has_id, find_step, update_steps}

-- The step with the id is finished, or there is none.
abbrev pub done_row : Option Step → Bool
done_row none = true
done_row (some s) = is_finished s.status

abbrev pub IsDone : List Step → String → Type 0
IsDone steps id = done_row (find_step id steps) ≡ true

abbrev pub updated : (Step → Bool) → (Step → Step) → Step → Step
updated which change s = if which s then change s else s

-- A change of other columns than the id.
abbrev pub KeepsId : (Step → Step) → Type 0
KeepsId change = (s : Step) → (change s).id ≡ s.id

updated-id :
    (which : Step → Bool) (change : Step → Step) → KeepsId change → KeepsId (updated which change)
updated-id which change keeps s = elim (Bool-cases (which s)) [
  | inl e ↦ rw e (keeps s)
  | inr e ↦ rw e refl
]

module _ (which : Step → Bool) (change : Step → Step) (keeps : KeepsId change) where
  pub update_steps-IsDone :
      (steps : List Step) (id : String)
      → ((s : Step) → has_id id s ≡ true → is_finished (updated which change s).status ≡ true)
      → IsDone (update_steps which change steps) id
  update_steps-IsDone [] id finishes = refl
  update_steps-IsDone (s ∷ steps) id finishes = elim (Bool-cases (has_id id s)) [
    | inl e ↦ rw (updated-id which change keeps s, e) (finishes s e)
    | inr e ↦ rw (updated-id which change keeps s, e) (update_steps-IsDone steps id finishes)
  ]

  pub update_steps-keeps :
      ((s : Step)
        → is_finished s.status ≡ true
        → is_finished (updated which change s).status ≡ true)
      → (steps : List Step) (id : String) → IsDone steps id
      → IsDone (update_steps which change steps) id
  update_steps-keeps finishes [] id h = refl
  update_steps-keeps finishes (s ∷ steps) id h = elim (Bool-cases (has_id id s)) [
    | inl e ↦ rw (updated-id which change keeps s, e) (finishes s (rw e at h))
    | inr e ↦
        rw (updated-id which change keeps s, e) (update_steps-keeps finishes steps id (rw e at h))
  ]

pub closed : (id : String) (s : Step) → is_finished s.status ≡ true → is_open_with id s ≡ false
closed id s h = ground arith

-- An update of open rows only.
pub open-keeps :
    (id : String) (change : Step → Step) (s : Step)
    → is_finished s.status ≡ true
    → is_finished (updated (is_open_with id) change s).status ≡ true
open-keeps id change s h = rw (closed id s h) h

-- An update that finishes what it touches.
pub closing-keeps :
    (which : Step → Bool) (change : Step → Step)
    → ((s : Step) → is_finished (change s).status ≡ true)
    → (s : Step) → is_finished s.status ≡ true
    → is_finished (updated which change s).status ≡ true
closing-keeps which change closes s h = elim (Bool-cases (which s)) [
  | inl e ↦ rw e (closes s)
  | inr e ↦ rw e h
]

-- An update that finishes the open rows with an id leaves all of its rows finished.
pub ending-finishes :
    (id : String) (change : Step → Step)
    → ((s : Step) → is_finished (change s).status ≡ true)
    → (s : Step) → has_id id s ≡ true
    → is_finished (updated (is_open_with id) change s).status ≡ true
ending-finishes id change closes s h = elim (Bool-cases (is_finished s.status)) [
  | inl e ↦ rw (closed id s e) e
  | inr e ↦ rw (h, e) (closes s)
]
