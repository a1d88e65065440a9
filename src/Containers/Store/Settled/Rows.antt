-- ===== src/Containers/Store/Settled/Rows.antt =====
-- Rows that are inserted, filtered and looked for.
use edgehog_device_runtime.Base.{
  ℕ, ◌==◌, ==_iff, ◌≡◌, refl, sym, ◌∙◌, Bool, true, false, Bool-cases, ◌&&◌, ◌||◌, any, List, [],
  ◌∷◌, ◌++◌, All, All-append, arith, inl, inr,
}
use edgehog_device_runtime.Containers.Resource.{ResourceType}
use edgehog_device_runtime.Containers.Store.{
  type_discrete, same_type, ResourceRow, same_resource, Store, filter, insert_or_ignore, insert_all,
  has_resource, insert_resource, ContainerRow, same_container,
}

module _ {ℓ} {A : Type ℓ} where
  pub any-append : (p : A → Bool) (xs ys : List A) → any p (xs ++ ys) ≡ (any p xs || any p ys)
  any-append p [] ys = refl
  any-append p (x ∷ xs) ys = elim (Bool-cases (p x)) [
    | inl e ↦ rw e refl
    | inr e ↦ rw e (any-append p xs ys)
  ]

  pub All-filter {κ} :
      (P : A → Type κ) (p : A → Bool) (xs : List A) → All P xs → All P (filter p xs)
  unfolding filter
  All-filter P p [] h = tt
  All-filter P p (x ∷ xs) h = elim (Bool-cases (p x)) [
    | inl e ↦ rw e (h.0, All-filter P p xs h.1)
    | inr e ↦ rw e (All-filter P p xs h.1)
  ]

  pub filter-All : (p : A → Bool) (xs : List A) → All (λ x. p x ≡ true) (filter p xs)
  unfolding filter
  filter-All p [] = tt
  filter-All p (x ∷ xs) = elim (Bool-cases (p x)) [
    | inl e ↦ rw e (e, filter-All p xs)
    | inr e ↦ rw e (filter-All p xs)
  ]

  pub All-both {κ ι} :
      (P : A → Type κ) (Q : A → Type ι) (xs : List A)
      → All P xs
      → All Q xs
      → All (λ x. P x × Q x) xs
  All-both P Q [] h k = tt
  All-both P Q (x ∷ xs) h k = ((h.0, k.0), All-both P Q xs h.1 k.1)

  pub insert_or_ignore-All {κ} :
      (P : A → Type κ) (c : A → A → Bool) (x : A) (xs : List A)
      → P x
      → All P xs
      → All P (insert_or_ignore c x xs)
  insert_or_ignore-All P c x xs h k = elim (Bool-cases (any (c x) xs)) [
    | inl e ↦ rw e k
    | inr e ↦ rw e (All-append P xs (x ∷ []) k (h, tt))
  ]

  pub insert_all-All {κ} :
      (P : A → Type κ) (c : A → A → Bool) (ys xs : List A)
      → All P ys
      → All P xs
      → All P (insert_all c ys xs)
  unfolding insert_all
  insert_all-All P c [] xs h k = k
  insert_all-All P c (y ∷ ys) xs h k =
      insert_all-All P c ys _ h.1 (insert_or_ignore-All P c y xs h.0 k)

or_false : (b : Bool) → (b || false) ≡ b
or_false true = refl
or_false false = refl

pub same_type_iff : (a b : ResourceType) → same_type a b ≡ true → a ≡ b
same_type_iff a b h = elim (type_discrete a b) [ yes p ↦ p | no n ↦ absurd (ground (arith, h, n)) ]

-- What is there after a row was inserted: what was there before, and the row.
module _ (k q : ResourceType) (r i : ℕ) (s : Store) where
  abbrev is_row : Bool
  is_row = same_type k q && r == i

  stays :
      (rows : List ResourceRow)
      → any (same_resource (record { kind = k; id = r })) rows ≡ true
      → is_row ≡ true
      → any (same_resource (record { kind = q; id = i })) rows ≡ true
  stays rows h e = ground (arith, h, same_type_iff k q, ==_iff r i, e)

  pub has_resource-insert_resource :
      has_resource q i (insert_resource k r s) ≡ (has_resource q i s || is_row)
  has_resource-insert_resource =
      elim (Bool-cases (any (same_resource (record { kind = k; id = r })) s.resources)) [
        | inr e ↦ rw e (
            any-append (same_resource (record { kind = q; id = i })) s.resources _
            ∙ rw (or_false is_row) refl)
        | inl e ↦ elim (Bool-cases is_row) [
          | inl p ↦ rw (e, p, stays s.resources e p) refl
          | inr p ↦ rw (e, p) (sym (or_false _))
        ]
      ]

pub has_container-insert :
    (c : ContainerRow) (rows : List ContainerRow) (q : ℕ)
    → any (λ x. x.id == q) (insert_or_ignore same_container c rows)
      ≡ (any (λ x. x.id == q) rows || c.id == q)
has_container-insert c rows q = elim (Bool-cases (any (same_container c) rows)) [
  | inr e ↦ rw e (any-append (λ x. x.id == q) rows _ ∙ rw (or_false (c.id == q)) refl)
  | inl e ↦ elim (Bool-cases (c.id == q)) [
    | inl p ↦ rw (e, p, ← (==_iff c.id q).0 p, e) refl
    | inr p ↦ rw (e, p) (sym (or_false _))
  ]
]
