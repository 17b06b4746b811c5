-- ===== src/Incidents/Cancelling.antt =====
-- The operations and the leases that a termination finds, from the rows that name the incident.
use mathlib.Core.List.{Memᴰ, append_assoc}
use master_dns.Common.{
  ◌≡◌, refl, sym, ap, ◌∙◌, subst, inl, inr, Bool, true, false, ◌||◌, Option, some, List, [], ◌∷◌,
  ◌++◌, map, filter, String, update_where, Bool-cases,
}
use master_dns.Common.Text.{str_eq, str_eq_iff, includes}
use master_dns.Incidents.Evidence.{is_id}
use master_dns.Incidents.Terminating.{
  PublicationChild, RotationPublication, OperationRow, Effects, publications_of, children_of,
  if_some, child_operations, known_operations, cancelled_operations,
}

-- The publication is the incident's.
abbrev pub IsPublicationOf : String → Effects → RotationPublication → Type 0
IsPublicationOf id e p = Memᴰ p e.publications × (p.incident_id ≡ some id)

-- An operation of a publication of the incident: the publication or one of its children names it, or
-- it has the durable key of a child.
pub data BelongsTo (operation_key : PublicationChild → String) (id : String) (e : Effects)
    (o : OperationRow) : Type 0 where
  by_publication :
      (p : RotationPublication)
      → IsPublicationOf id e p
      → p.operation_id ≡ some o.id
      → str_eq o.id "" ≡ false
      → BelongsTo operation_key id e o
  by_child :
      (p : RotationPublication) (x : PublicationChild)
      → IsPublicationOf id e p
      → Memᴰ x p.children
      → x.operation_id ≡ some o.id
      → str_eq o.id "" ≡ false
      → BelongsTo operation_key id e o
  by_key :
      (p : RotationPublication) (x : PublicationChild)
      → IsPublicationOf id e p
      → Memᴰ x p.children
      → operation_key x ≡ o.idempotency_key
      → Memᴰ o e.operations
      → BelongsTo operation_key id e o

module _ {ℓ} {A : Type ℓ} where
  pub filter-mem :
      (q : A → Bool) (xs : List A) (x : A) → Memᴰ x xs → q x ≡ true → Memᴰ x (filter q xs)
  filter-mem q [] x m h = elim m [ ]
  filter-mem q (y ∷ ys) x (Memᴰ.head e) h = rw (ap q (sym e) ∙ h) (Memᴰ.head e)
  filter-mem q (y ∷ ys) x (Memᴰ.tail m) h = elim (Bool-cases (q y)) [
    | inl e ↦ rw e (Memᴰ.tail (filter-mem q ys x m h))
    | inr e ↦ rw e (filter-mem q ys x m h)
  ]

  pub map-includes :
      (f : A → String) (xs : List A) (x : A) → Memᴰ x xs → includes (map f xs) (f x) ≡ true
  map-includes f [] x m = elim m [ ]
  map-includes f (y ∷ ys) x (Memᴰ.head e) = rw ((str_eq_iff (f y) (f x)).1 (ap f (sym e))) refl
  map-includes f (y ∷ ys) x (Memᴰ.tail m) = or_true (str_eq (f y) (f x)) (map-includes f ys x m)
    where
      or_true : (b : Bool) {c : Bool} → c ≡ true → (b || c) ≡ true
      or_true true h = refl
      or_true false h = h

  -- What is chosen is changed in its place.
  pub update_where-mem :
      (q : A → Bool) (f : A → A) (xs : List A) (x : A)
      → Memᴰ x xs
      → q x ≡ true
      → Memᴰ (f x) (update_where q f xs)
  update_where-mem q f [] x m h = elim m [ ]
  update_where-mem q f (y ∷ ys) x (Memᴰ.head e) h = rw (ap q (sym e) ∙ h) (Memᴰ.head (ap f e))
  update_where-mem q f (y ∷ ys) x (Memᴰ.tail m) h = Memᴰ.tail (update_where-mem q f ys x m h)

includes_left :
    (xs ys : List String) (a : String) → includes xs a ≡ true → includes (xs ++ ys) a ≡ true
includes_left [] ys a h = cc
includes_left (x ∷ xs) ys a h = elim (Bool-cases (str_eq x a)) [
  | inl e ↦ rw e refl
  | inr e ↦ rw e (includes_left xs ys a (rw e at h))
]

includes_right :
    (xs ys : List String) (a : String) → includes ys a ≡ true → includes (xs ++ ys) a ≡ true
includes_right [] ys a h = h
includes_right (x ∷ xs) ys a h = elim (Bool-cases (str_eq x a)) [
  | inl e ↦ rw e refl
  | inr e ↦ rw e (includes_right xs ys a h)
]

named :
    (own : Option String) (a : String)
    → own ≡ some a
    → str_eq a "" ≡ false
    → includes (if_some own) a ≡ true
named own a e filled = rw (e, filled, (str_eq_iff a a).1 refl) refl

child-named :
    (xs : List PublicationChild) (x : PublicationChild) (a : String)
    → Memᴰ x xs
    → x.operation_id ≡ some a
    → str_eq a "" ≡ false
    → includes (child_operations xs) a ≡ true
child-named [] x a m own filled = elim m [ ]
child-named (y ∷ ys) x a (Memᴰ.head e) own filled =
    includes_left (if_some y.operation_id) (child_operations ys) a
      (named y.operation_id a (ap (λ z. z.operation_id) (sym e) ∙ own) filled)
child-named (y ∷ ys) x a (Memᴰ.tail m) own filled =
    includes_right (if_some y.operation_id) (child_operations ys) a
      (child-named ys x a m own filled)

-- A publication that names an operation itself, or by its children.
known :
    (ps : List RotationPublication) (p : RotationPublication) (a : String)
    → Memᴰ p ps
    → includes (if_some p.operation_id ++ child_operations p.children) a ≡ true
    → includes (known_operations ps) a ≡ true
known [] p a m h = elim m [ ]
known (q ∷ qs) p a (Memᴰ.head e) h =
    subst (λ ids. includes ids a ≡ true)
      (append_assoc (if_some q.operation_id) (child_operations q.children) (known_operations qs))
      (includes_left (if_some q.operation_id ++ child_operations q.children) (known_operations qs) a
        (subst (λ z. includes (if_some z.operation_id ++ child_operations z.children) a ≡ true) e
          h))
known (q ∷ qs) p a (Memᴰ.tail m) h =
    includes_right (if_some q.operation_id) (child_operations q.children ++ known_operations qs) a
      (includes_right (child_operations q.children) (known_operations qs) a (known qs p a m h))

append-mem_left :
    (xs ys : List PublicationChild) (x : PublicationChild) → Memᴰ x xs → Memᴰ x (xs ++ ys)
append-mem_left [] ys x m = elim m [ ]
append-mem_left (z ∷ zs) ys x (Memᴰ.head e) = Memᴰ.head e
append-mem_left (z ∷ zs) ys x (Memᴰ.tail m) = Memᴰ.tail (append-mem_left zs ys x m)

append-mem_right :
    (xs ys : List PublicationChild) (x : PublicationChild) → Memᴰ x ys → Memᴰ x (xs ++ ys)
append-mem_right [] ys x m = m
append-mem_right (z ∷ zs) ys x m = Memᴰ.tail (append-mem_right zs ys x m)

children-mem :
    (ps : List RotationPublication) (p : RotationPublication) (x : PublicationChild)
    → Memᴰ p ps
    → Memᴰ x p.children
    → Memᴰ x (children_of ps)
children-mem [] p x m n = elim m [ ]
children-mem (q ∷ qs) p x (Memᴰ.head e) m =
    append-mem_left q.children (children_of qs) x (subst (λ z. Memᴰ x z.children) e m)
children-mem (q ∷ qs) p x (Memᴰ.tail n) m =
    append-mem_right q.children (children_of qs) x (children-mem qs p x n m)

pub own_id_true : (own : Option String) (id : String) → own ≡ some id → is_id own id ≡ true
own_id_true own id e = rw e ((str_eq_iff id id).1 refl)

module _ (operation_key : PublicationChild → String) (id : String) (e : Effects) where
  own-mem : (p : RotationPublication) → IsPublicationOf id e p → Memᴰ p (publications_of id e)
  own-mem p (m, own) =
      filter-mem (λ q. is_id q.incident_id id) e.publications p m (own_id_true p.incident_id id own)

  -- The operations that belong to the incident are cancelled.
  pub cancelled-BelongsTo :
      (o : OperationRow)
      → BelongsTo operation_key id e o
      → includes (cancelled_operations operation_key id e) o.id ≡ true
  cancelled-BelongsTo o (by_publication p own names filled) =
      includes_left (known_operations (publications_of id e)) _ o.id (
        known (publications_of id e) p o.id (own-mem p own) (
          includes_left (if_some p.operation_id) (child_operations p.children) o.id
            (named p.operation_id o.id names filled)))
  cancelled-BelongsTo o (by_child p x own m names filled) =
      includes_left (known_operations (publications_of id e)) _ o.id (
        known (publications_of id e) p o.id (own-mem p own) (
          includes_right (if_some p.operation_id) (child_operations p.children) o.id
            (child-named p.children x o.id m names filled)))
  cancelled-BelongsTo o (by_key p x own m key there) =
      includes_right (known_operations (publications_of id e)) _ o.id (
        map-includes (λ y. y.id) _ o
          (filter-mem
            (λ y.
              includes (map operation_key (children_of (publications_of id e))) y.idempotency_key)
            e.operations o there
            (subst (λ k. includes (map operation_key (children_of (publications_of id e))) k ≡ true)
              key
              (map-includes operation_key (children_of (publications_of id e)) x
                (children-mem (publications_of id e) p x (own-mem p own) m)))))
