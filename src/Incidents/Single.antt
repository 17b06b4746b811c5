-- ===== src/Incidents/Single.antt =====
-- A slot never has two open incidents.
use master_dns.Common.{
  ◌≡◌, refl, sym, subst, inl, inr, ℕ, ◌≤◌, Bool, true, false, none, some, List, [], ◌∷◌, String,
  find, count_if, update_where, Bool-cases, arith,
}
use mathlib.Core.Option.{some-injective}
use master_dns.Common.Text.{str_eq, str_eq_iff, includes}
use master_dns.Schedules.Types.{is_complete}
use master_dns.Incidents.Types.{RotationIncident, Tables}
use master_dns.Incidents.Opening.{is_open_in}
use master_dns.Incidents.Terminating.{PublicationChild, Effects}
use master_dns.Incidents.Additions.{ids, find_id, Change, kept, added, replaced}
use master_dns.Incidents.Changes.{Step, Step-Change}

-- The ids of a table are distinct.
abbrev pub AreDistinct : List String → Type 0
AreDistinct [] = Unit
AreDistinct (x ∷ xs) = (includes xs x ≡ false) × AreDistinct xs

abbrev replace : RotationIncident → List RotationIncident → List RotationIncident
replace j incidents = update_where (λ x. str_eq x.id j.id) (λ x. j) incidents

same_text : (a : String) → str_eq a a ≡ true
same_text a = (str_eq_iff a a).1 refl

ids-replace : (j : RotationIncident) (xs : List RotationIncident) → ids (replace j xs) ≡ ids xs
ids-replace j [] = refl
ids-replace j (x ∷ xs) = elim (Bool-cases (str_eq x.id j.id)) [
  | inl e ↦ rw (e, ids-replace j xs, (str_eq_iff x.id j.id).0 e) refl
  | inr e ↦ rw (e, ids-replace j xs) refl
]

Change-AreDistinct :
    (xs ys : List RotationIncident) → Change xs ys → AreDistinct (ids xs) → AreDistinct (ids ys)
Change-AreDistinct xs _ kept d = d
Change-AreDistinct xs _ (added i absent fresh) d = (fresh, d)
Change-AreDistinct xs _ (replaced i j found opened id slot left) d =
    subst AreDistinct (sym (ids-replace j xs)) d

count_none :
    (q : RotationIncident → Bool) (xs : List RotationIncident)
    → find q xs ≡ none
    → count_if q xs ≡ 0
count_none q [] h = refl
count_none q (x ∷ xs) h = elim (Bool-cases (q x)) [
  | inl e ↦ absurd (some_not_none (rw e at h))
  | inr e ↦ rw e (count_none q xs (rw e at h))
]
  where
    some_not_none : {i : RotationIncident} → some i ≡ none → ⊥
    some_not_none e = cc

replace_absent :
    (j : RotationIncident) (xs : List RotationIncident)
    → includes (ids xs) j.id ≡ false
    → replace j xs ≡ xs
replace_absent j [] h = refl
replace_absent j (x ∷ xs) h = elim (Bool-cases (str_eq x.id j.id)) [
  | inl e ↦ absurd (true_not_false (rw e at h))
  | inr e ↦ rw (e, replace_absent j xs (rw e at h)) refl
]
  where
    true_not_false : true ≡ false → ⊥
    true_not_false e = cc

found_head :
    (i x : RotationIncident) (xs : List RotationIncident)
    → find_id i.id (x ∷ xs) ≡ some i
    → str_eq x.id i.id ≡ true
    → x ≡ i
found_head i x xs found e = some-injective _ _ (rw e at found)

found_tail :
    (i x : RotationIncident) (xs : List RotationIncident)
    → find_id i.id (x ∷ xs) ≡ some i
    → str_eq x.id i.id ≡ false
    → find_id i.id xs ≡ some i
found_tail i x xs found e = rw e at found

module _ (slot : String) where
  -- An open incident of a slot is replaced by one of the slot.
  count_head :
      (i j : RotationIncident) (xs : List RotationIncident)
      → is_complete i.status ≡ false
      → j.slot_id ≡ i.slot_id
      → count_if (is_open_in slot) (j ∷ xs) ≤ count_if (is_open_in slot) (i ∷ xs)
  count_head i j xs opened same = rw (same, opened) (ground arith)

  count_after :
      (x : RotationIncident) (xs ys : List RotationIncident)
      → count_if (is_open_in slot) xs ≤ count_if (is_open_in slot) ys
      → count_if (is_open_in slot) (x ∷ xs) ≤ count_if (is_open_in slot) (x ∷ ys)
  count_after x xs ys h = ground arith

  count_added :
      (i : RotationIncident) (xs : List RotationIncident)
      → find (is_open_in i.slot_id) xs ≡ none
      → is_open_in slot i ≡ true
      → count_if (is_open_in slot) (i ∷ xs) ≤ 1
  count_added i xs absent e =
      rw
        (
          e,
          subst (λ k. count_if (is_open_in k) xs ≡ 0) ((str_eq_iff i.slot_id slot).0 (ground arith))
              (count_none (is_open_in i.slot_id) xs absent),
        )
        (omega arith)

  count-replace :
      (i j : RotationIncident) (xs : List RotationIncident)
      → AreDistinct (ids xs)
      → find_id i.id xs ≡ some i
      → is_complete i.status ≡ false
      → j.id ≡ i.id
      → j.slot_id ≡ i.slot_id
      → count_if (is_open_in slot) (replace j xs) ≤ count_if (is_open_in slot) xs
  count-replace i j [] d found opened id same = omega arith
  count-replace i j (x ∷ xs) (fresh, d) found opened id same =
      elim (Bool-cases (str_eq x.id j.id)) [
        | inl e ↦
            rw
              (
                e,
                replace_absent j xs
                    (subst (λ k. includes (ids xs) k ≡ false) ((str_eq_iff x.id j.id).0 e) fresh),
              )
              (subst
                (λ y. count_if (is_open_in slot) (j ∷ xs) ≤ count_if (is_open_in slot) (y ∷ xs))
                (sym (found_head i x xs found (subst (λ k. str_eq x.id k ≡ true) id e)))
                (count_head i j xs opened same))
        | inr e ↦ rw e (
            count_after x (replace j xs) xs (
              count-replace i j xs d
                (found_tail i x xs found (subst (λ k. str_eq x.id k ≡ false) id e)) opened id same))
      ]

  Change-count :
      (xs ys : List RotationIncident)
      → Change xs ys
      → AreDistinct (ids xs)
      → count_if (is_open_in slot) xs ≤ 1
      → count_if (is_open_in slot) ys ≤ 1
  Change-count xs _ kept d h = h
  Change-count xs _ (added i absent fresh) d h = elim (Bool-cases (is_open_in slot i)) [
    | inl e ↦ count_added i xs absent e
    | inr e ↦ rw e h
  ]
  Change-count xs _ (replaced i j found opened id same left) d h =
      let m = count-replace i j xs d found opened id same in omega arith

-- Any number of steps.
pub data Reach (is_ip : String → ℕ) (scheduled_event : ℕ → ℕ → String)
    (operation_key : PublicationChild → String) : Tables → Effects → Tables → Effects → Type 0 where
  here : (t : Tables) (e : Effects) → Reach is_ip scheduled_event operation_key t e t e
  then_ :
      (t u v : Tables) (e f g : Effects)
      → Step is_ip scheduled_event operation_key t e u f
      → Reach is_ip scheduled_event operation_key u f v g
      → Reach is_ip scheduled_event operation_key t e v g

module _ (is_ip : String → ℕ) (scheduled_event : ℕ → ℕ → String)
    (operation_key : PublicationChild → String) where
  -- Through any sequence of openings, for a failed check, a schedule or a user, of resumptions and of
  -- terminations, each on whatever context it read, a slot that has at most one open incident keeps
  -- at most one, and the ids of incidents stay distinct. The id of an incident that is opened must be
  -- new.
  pub Reach-single :
      (slot : String) (t u : Tables) (e f : Effects)
      → Reach is_ip scheduled_event operation_key t e u f
      → AreDistinct (ids t.incidents)
      → count_if (is_open_in slot) t.incidents ≤ 1
      → (count_if (is_open_in slot) u.incidents ≤ 1) × AreDistinct (ids u.incidents)
  Reach-single slot t _ e _ (here _ _) d h = (h, d)
  Reach-single slot t v e g (then_ _ u _ _ f _ step rest) d h =
      let change = Step-Change is_ip scheduled_event operation_key t u e f step in
      Reach-single slot u v f g rest (Change-AreDistinct t.incidents u.incidents change d)
        (Change-count slot t.incidents u.incidents change d h)
