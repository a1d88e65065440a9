-- ===== src/Ota/Update/Reports.antt =====
-- The progress reports of `deploy` in src/ota/mod.rs.
use edgehog_device_runtime.Base.{
  ℕ, suc, ◌+◌, ◌*◌, ◌≤◌, ◌≡◌, true, false, String, Option, none, some, List, [], ◌∷◌, All, pos,
  pos_part, ◌≤ℤ◌, ◌-ℤ◌, arith, Bool-cases, inl, inr,
}
use edgehog_device_runtime.Ota.Status.{
  DeployProgress, DeployStatus, progress, completed, default_progress, OtaId, deploying,
}
use edgehog_device_runtime.Ota.Env.{Env, History, publish, next_status}
use edgehog_device_runtime.Ota.Update.{
  Ota, is_due, fold_status, installed, follow_install, install, deploy,
}

-- How many progress reports were sent.
pub report_count : History → ℕ
report_count [] = 0
report_count (publish (deploying req p) ∷ h) = suc (report_count h)
report_count (_ ∷ h) = report_count h

abbrev IsPercentage : DeployProgress → Type 0
IsPercentage p = (pos 0 ≤ℤ p.percentage) × (p.percentage ≤ℤ pos 100)

-- A signal's percentage, if it has one, is between 0 and 100.
abbrev pub InRange : Option DeployStatus → Type 0
InRange (some (progress p)) = IsPercentage p
InRange _ = Unit

-- the points that later reports can still use
abbrev spent : DeployStatus → ℕ
spent (progress p) = pos_part p.percentage
spent (completed _) = 100

due-spent :
    (prev : DeployStatus) (p : DeployProgress)
    → InRange (some prev)
    → IsPercentage p
    → is_due prev p ≡ true
    → spent prev + 10 ≤ pos_part p.percentage
unfolding is_due ◌-ℤ◌
due-spent (progress q) p iq ip d = ground arith
due-spent (completed n) p iq ip d = ground arith

spent_le : (prev : DeployStatus) → InRange (some prev) → spent prev ≤ 100
spent_le (progress p) r = ground arith
spent_le (completed n) r = omega arith

module _ (env : Env) where
  fold_status-report_count :
      (req : OtaId) (prev : DeployStatus) (items : List (Option DeployStatus)) (h : History)
      → InRange (some prev)
      → All InRange items
      → report_count (fold_status env false req prev items h).1 * 10 + spent prev
        ≤ report_count h * 10 + 100
  unfolding fold_status report_count
  fold_status-report_count req prev [] h r all = omega (arith, spent_le prev r)
  fold_status-report_count req prev (none ∷ rest) h r all = omega (arith, spent_le prev r)
  fold_status-report_count req prev (some (completed n) ∷ rest) h r all = omega (
    arith,
    spent_le prev r,
    fold_status-report_count req (completed n) rest (next_status ∷ h) tt all.1,
  )
  fold_status-report_count req prev (some (progress p) ∷ rest) h r all =
      elim (Bool-cases (is_due prev p)) [
        | inl due ↦ rw due (
            omega (
              arith,
              due-spent prev p r all.0 due,
              fold_status-report_count req (progress p) rest
                  (publish (deploying req p) ∷ next_status ∷ h) all.0 all.1,
            ))
        | inr early ↦ rw early (fold_status-report_count req prev rest _ r all.1)
      ]

  installed-report_count :
      (req : OtaId) (last : Option DeployStatus) (h : History)
      → report_count (installed env false req last h).1 ≡ report_count h
  unfolding installed report_count
  installed-report_count req last h = ground arith

  follow_install-report_count :
      (req : OtaId) (items : List (Option DeployStatus)) (h : History)
      → All InRange items
      → report_count (follow_install env false req items h).1 ≤ report_count h + 10
  unfolding follow_install
  follow_install-report_count req items h all = grind (
    arith,
    fold_status-report_count req (progress default_progress) items h (omega arith) all,
    installed-report_count,
  )

  abbrev pub SignalsPercentages : Type 0
  SignalsPercentages =
      (h : History) (items : List (Option DeployStatus))
      → env.receive_completed h ≡ some items
      → All InRange items

  install-report_count :
      (req : OtaId) (uri : String) (h : History)
      → SignalsPercentages
      → report_count (install env false req uri h).1 ≤ report_count h + 10
  unfolding install report_count
  install-report_count req uri h all = grind (arith, follow_install-report_count, all)

  -- An installation sends ten progress reports at most, if the updater signals percentages.
  pub deploy-report_count :
      (s : Ota) (req : OtaId) (h : History)
      → SignalsPercentages
      → report_count (deploy env false s req h).1 ≤ report_count h + 10
  unfolding deploy report_count
  deploy-report_count s req h all = grind (arith, install-report_count, all)
