-- ===== src/Containers/Store/Updates.antt =====
-- The update of two deployments is done whole or not at all.
use edgehog_device_runtime.Base.{
  ℕ, ◌==◌, ◌≤◌, ◌∙◌, ◌&&◌, ==_iff, ◌≡◌, refl, Bool, true, false, Bool-cases, if◌then◌else◌, Option,
  none, some, List, [], ◌∷◌, Result, ok, err, arith, inl, inr,
}
use edgehog_device_runtime.Containers.Resource.{
  DeploymentStatus, received, stopped, started, deleted, DeploymentUpdate,
}
use edgehog_device_runtime.Containers.Store.{DeploymentRow, Store}
use edgehog_device_runtime.Containers.Store.Queries.{
  HandleError, update_rows, not_found, count_id, set_status, put_status, status_of, stop_from,
  deployment_update,
}

-- the status of a deployment that was started becomes stopped
abbrev pub stopped_if : DeploymentStatus → DeploymentStatus
stopped_if started = stopped
stopped_if received = received
stopped_if stopped = stopped
stopped_if deleted = deleted

abbrev status : ℕ → Store → Option DeploymentStatus
status d s = status_of d s.deployments

status-set_status_self :
    (d : ℕ) (t : DeploymentStatus) (rs : List DeploymentRow)
    → count_id d rs ≡ 1
    → status_of d (set_status d t rs) ≡ some t
unfolding status_of set_status count_id
status-set_status_self d t [] h = absurd (omega (arith, h))
status-set_status_self d t (r ∷ rs) h = ground (arith, h, status-set_status_self d t rs)

status-set_status_ne :
    (d q : ℕ) (t : DeploymentStatus) (rs : List DeploymentRow)
    → (d == q) ≡ false
    → status_of q (set_status d t rs) ≡ status_of q rs
unfolding status_of set_status
status-set_status_ne d q t [] h = refl
status-set_status_ne d q t (r ∷ rs) h = ground (arith, h, status-set_status_ne d q t rs)

count-set_status :
    (d q : ℕ) (t : DeploymentStatus) (rs : List DeploymentRow)
    → count_id q (set_status d t rs) ≡ count_id q rs
unfolding set_status count_id
count-set_status d q t [] = refl
count-set_status d q t (r ∷ rs) = ground (arith, count-set_status d q t rs)

status_of-count_id :
    (d : ℕ) (rs : List DeploymentRow)
    → count_id d rs ≡ 1
    → (t : DeploymentStatus) × (status_of d rs ≡ some t)
unfolding status_of count_id
status_of-count_id d [] h = absurd (omega (arith, h))
status_of-count_id d (r ∷ rs) h = elim (Bool-cases (r.id == d)) [
  | inl e ↦ (r.status, rw e refl)
  | inr e ↦ let (t, found) = status_of-count_id d rs (ground (arith, h, e)) in (t, rw e found)
]

status_of-none : (d : ℕ) (rs : List DeploymentRow) → count_id d rs ≡ 0 → status_of d rs ≡ none
unfolding status_of count_id
status_of-none d [] h = refl
status_of-none d (r ∷ rs) h = ground (arith, h, status_of-none d rs)

abbrev is_there : ℕ → Store → Bool
is_there d s = count_id d s.deployments == 1

abbrev map_status : Option DeploymentStatus → Option DeploymentStatus
map_status none = none
map_status (some t) = some (stopped_if t)

-- the status of a deployment after an update
abbrev pub updated : DeploymentUpdate → Store → ℕ → Option DeploymentStatus
updated u s q =
    if u.to == q then some started else if u.from == q then map_status (status q s) else status q s

abbrev IsError : Result HandleError (Unit {0}) → Type 0
IsError (ok _) = ⊥
IsError (err e) = Unit

-- what the update of two deployments leaves, where both are there and where one is not
abbrev pub Outcome :
    Bool → DeploymentUpdate → Store → Result HandleError (Unit {0}) × Store → Type 0
Outcome true u s (r, s') = (r ≡ ok tt) × ((q : ℕ) → status q s' ≡ updated u s q)
Outcome false u s (r, s') = IsError r × (s' ≡ s)

put_status_ok :
    (d : ℕ) (t : DeploymentStatus) (s : Store)
    → count_id d s.deployments ≡ 1
    → put_status d t s ≡ ok (record s { deployments = set_status d t s.deployments })
unfolding put_status
put_status_ok d t s h = rw h refl

put_status_err :
    (d : ℕ) (t : DeploymentStatus) (s : Store)
    → (count_id d s.deployments == 1) ≡ false
    → put_status d t s ≡ err (update_rows 1 (count_id d s.deployments))
unfolding put_status
put_status_err d t s h = rw h refl

status-set_status :
    (d q : ℕ) (t : DeploymentStatus) (rs : List DeploymentRow)
    → count_id d rs ≡ 1
    → status_of q (set_status d t rs) ≡ (if d == q then some t else status_of q rs)
status-set_status d q t rs h = elim (Bool-cases (d == q)) [
  | inl e ↦ rw (e, ← (==_iff d q).0 e) (status-set_status_self d t rs h)
  | inr e ↦ rw e (status-set_status_ne d q t rs e)
]

-- `from` is stopped where it was started, and nothing else is changed.
abbrev Stops : DeploymentUpdate → Store → Store → Type 0
Stops u s s' =
    ((q : ℕ) → count_id q s'.deployments ≡ count_id q s.deployments)
    × ((q : ℕ) → status q s' ≡ (if u.from == q then map_status (status q s) else status q s))

same_status :
    (u : DeploymentUpdate) (s : Store) (t : DeploymentStatus)
    → status u.from s ≡ some t
    → stopped_if t ≡ t
    → (q : ℕ) → status q s ≡ (if u.from == q then map_status (status q s) else status q s)
same_status u s t e fixed q = elim (Bool-cases (u.from == q)) [
  | inl p ↦ rw (p, ← (==_iff u.from q).0 p, e, fixed) refl
  | inr p ↦ rw p refl
]

stop_from-Stops :
    (u : DeploymentUpdate) (s : Store) (t : DeploymentStatus)
    → count_id u.from s.deployments ≡ 1
    → status u.from s ≡ some t
    → (s' : Store) × (stop_from u.from (some t) s ≡ ok s') × Stops u s s'
stop_from-Stops u s received h e = (s, refl, (λ q. refl, same_status u s received e refl))
stop_from-Stops u s stopped h e = (s, refl, (λ q. refl, same_status u s stopped e refl))
stop_from-Stops u s deleted h e = (s, refl, (λ q. refl, same_status u s deleted e refl))
stop_from-Stops u s started h e = (
  record s { deployments = set_status u.from stopped s.deployments },
  put_status_ok u.from stopped s h,
  (
    λ q. count-set_status u.from q stopped s.deployments,
    λ q. ground (arith, status-set_status u.from q stopped s.deployments h, ==_iff u.from q, e),
  ),
)

found_or_not :
    (d : ℕ) (rs : List DeploymentRow)
    → count_id d rs ≤ 1
    → (count_id d rs == 1) ≡ false
    → status_of d rs ≡ none
found_or_not d rs h e = status_of-none d rs (ground (arith, h, e))

abbrev second : DeploymentUpdate → Store → Store
second u s = record s { deployments = set_status u.to started s.deployments }

update_absent :
    (u : DeploymentUpdate) (s : Store)
    → status u.from s ≡ none
    → deployment_update u s ≡ (err not_found, s)
unfolding deployment_update
update_absent u s e = rw e refl

module _ (u : DeploymentUpdate) (s s1 : Store) (t : DeploymentStatus)
    (found : status u.from s ≡ some t) (stops : stop_from u.from (some t) s ≡ ok s1) where
  update_fails :
      (count_id u.to s1.deployments == 1) ≡ false
      → deployment_update u s ≡ (err (update_rows 1 (count_id u.to s1.deployments)), s)
  unfolding deployment_update
  update_fails h = rw (found, stops, put_status_err u.to started s1 h) refl

  update_succeeds : count_id u.to s1.deployments ≡ 1 → deployment_update u s ≡ (ok tt, second u s1)
  unfolding deployment_update
  update_succeeds h = rw (found, stops, put_status_ok u.to started s1 h) refl

-- Where both deployments are there, an update succeeds, and starts `to` and stops `from` if it was
-- started, and no other deployment is changed. Where one is not there, it errs and changes nothing.
-- The ids are taken to be a primary key.
pub deployment_update-Outcome :
    (u : DeploymentUpdate) (s : Store)
    → count_id u.from s.deployments ≤ 1
    → count_id u.to s.deployments ≤ 1
    → Outcome (is_there u.from s && is_there u.to s) u s (deployment_update u s)
deployment_update-Outcome u s hf ht = elim (Bool-cases (is_there u.from s)) [
  | inr e ↦ rw (e, update_absent u s (found_or_not u.from s.deployments hf e)) (tt, refl)
  | inl e ↦
      let one = (==_iff (count_id u.from s.deployments) 1).0 e in
      let (t, found) = status_of-count_id u.from s.deployments one in
      let (s1, stops, (counts, states)) = stop_from-Stops u s t one found in
      elim (Bool-cases (is_there u.to s)) [
        | inr p ↦ rw (e, p, update_fails u s s1 t found stops (rw (counts u.to) p)) (tt, refl)
        | inl p ↦
            let two = counts u.to ∙ (==_iff (count_id u.to s.deployments) 1).0 p in
            rw (e, p, update_succeeds u s s1 t found stops two)
              (refl, λ q. status-set_status u.to q started s1.deployments two ∙ rw (states q) refl)
      ]
]
