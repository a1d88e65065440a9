-- ===== src/Jobs/Pick.antt =====
-- The row that a query of src/jobs/mod.rs picks by its order.
use edgehog_device_runtime.Base.{
  ◌≡◌, refl, ap, inl, inr, Bool, true, false, Option, none, some, [], ◌∷◌, ◌++◌, All, arith, ◌≤ℤ◌,
  leb_ℤ, ℤ, Bool-cases, if◌then◌else◌,
}
use edgehog_device_runtime.Jobs.{Row, Table, older, first_by}

module _ (test : Row → Bool) (rank : Row → ℤ) where
  -- no row that passes the test comes before this one
  abbrev pub IsLeast : Row → Table → Type 0
  IsLeast r t = All (λ s. test s ≡ true → rank r ≤ℤ rank s) t

  abbrev pub Picks : Table → Option Row → Type 0
  Picks t none = All (λ s. test s ≡ false) t
  Picks t (some r) =
      (before after : Table) × (t ≡ before ++ (r ∷ after)) × (test r ≡ true) × IsLeast r t

  IsLeast-le : (r s : Row) (t : Table) → rank r ≤ℤ rank s → IsLeast s t → IsLeast r t
  IsLeast-le r s [] l h = tt
  IsLeast-le r s (u ∷ t) l h = ((λ p. let q = h.0 p in omega (arith, q, l)), IsLeast-le r s t l h.1)

  -- a row in front, with the test and the comparison decided
  older-Picks :
      (r s : Row) (t : Table) (b : Bool)
      → leb_ℤ (rank r) (rank s) ≡ b
      → test r ≡ true
      → Picks t (some s)
      → Picks (r ∷ t) (some (if b then r else s))
  older-Picks r s t true e p (before, after, split, q, least) =
      ([], t, refl, p, ((λ _. omega arith), IsLeast-le r s t (ground arith) least))
  older-Picks r s t false e p (before, after, split, q, least) =
      (r ∷ before, after, ap (λ l. r ∷ l) split, q, ((λ _. ground arith), least))

  IsLeast-none : (r : Row) (t : Table) → Picks t none → IsLeast r t
  IsLeast-none r [] h = tt
  IsLeast-none r (s ∷ t) h = let e = h.0 in ((λ p. absurd (cc)), IsLeast-none r t h.1)

  none-Picks : (r : Row) (t : Table) → test r ≡ true → Picks t none → Picks (r ∷ t) (some r)
  none-Picks r t p none_before =
      ([], t, refl, p, ((λ _. omega arith), IsLeast-none r t none_before))

  skip-Picks : (r : Row) (t : Table) (o : Option Row) → test r ≡ false → Picks t o → Picks (r ∷ t) o
  skip-Picks r t none e p = (e, p)
  skip-Picks r t (some s) e (before, after, split, q, least) =
      (r ∷ before, after, ap (λ l. r ∷ l) split, q, ((λ p. absurd (cc)), least))

  pick-Picks :
      (r : Row) (t : Table) (o : Option Row)
      → test r ≡ true
      → Picks t o
      → Picks (r ∷ t) (some (older rank r o))
  pick-Picks r t none e p = none-Picks r t e p
  pick-Picks r t (some s) e p = older-Picks r s t (leb_ℤ (rank r) (rank s)) refl e p

  pub first_by-Picks : (t : Table) → Picks t (first_by test rank t)
  unfolding first_by
  first_by-Picks [] = tt
  first_by-Picks (r ∷ t) =
      let rest = first_by-Picks t in
      elim (Bool-cases (test r)) [
        | inr e ↦ rw e (skip-Picks r t (first_by test rank t) e rest)
        | inl e ↦ rw e (pick-Picks r t (first_by test rank t) e rest)
      ]
