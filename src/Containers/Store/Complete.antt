-- ===== src/Containers/Store/Complete.antt =====
-- What is handed out as a complete deployment.
use edgehog_device_runtime.Base.{
  or-eq-false, ℕ, ◌==◌, ==_iff, ◌≡◌, refl, true, false, ◌&&◌, any, none, some, Option-cases, List,
  [], ◌∷◌, map, arith, inl, inr,
}
use edgehog_device_runtime.Containers.Resource.{Deployment}
use edgehog_device_runtime.Containers.Store.{Member, Store, has_deployment}
use edgehog_device_runtime.Containers.Store.Queries.{
  mem, Joined, image_of, find_container, join_resources, is_in, joined_in, insert_idx, by_index,
  pair_of, values_of, deployment_of, is_container_complete, is_deployment_complete,
  find_complete_deployment,
}

insert_idx-absent :
    (b i c : ℕ) (m : List (ℕ × ℕ))
    → (c == b) ≡ false
    → mem b (values_of m) ≡ false
    → mem b (values_of (insert_idx i c m)) ≡ false
unfolding insert_idx
insert_idx-absent b i c [] h k = ground (arith, h)
insert_idx-absent b i c ((j, x) ∷ m) h k = ground (arith, h, k, insert_idx-absent b i c m h)

by_index-absent :
    (b : ℕ) (js : List Joined) (m : List (ℕ × ℕ))
    → any (λ j. j.container_id == b) js ≡ false
    → mem b (values_of m) ≡ false
    → mem b (values_of (by_index (map pair_of js) m)) ≡ false
unfolding by_index
by_index-absent b [] m h k = k
by_index-absent b (j ∷ js) m h k =
    let (here, rest) = or-eq-false (j.container_id == b) (any (λ q. q.container_id == b) js) h in
    by_index-absent b js (insert_idx j.idx j.container_id m) rest
      (insert_idx-absent b j.idx j.container_id m here k)

join_resources-absent :
    (b : ℕ) (s : Store) (ms : List Member)
    → image_of (find_container b s.containers) ≡ none
    → any (λ j. j.container_id == b) (join_resources s ms) ≡ false
unfolding join_resources
join_resources-absent b s [] h = refl
join_resources-absent b s (m ∷ ms) h =
    elim (Option-cases (image_of (find_container m.container_id s.containers))) [
      | inl e ↦ rw e (join_resources-absent b s ms h)
      | inr (i, e) ↦
          rw e (ground (arith, join_resources-absent b s ms h, ==_iff m.container_id b, e, h))
    ]

-- A deployment that is there with all its containers is handed out as complete as soon as one of them
-- has all that it asks for. A container of it that still lacks its image is left out of it.
pub find_complete_deployment-partial :
    (d b : ℕ) (s : Store)
    → has_deployment d s ≡ true
    → any (is_in d) s.missing_containers ≡ false
    → any (λ m. is_in d m && is_container_complete m.container_id s) s.deployment_containers ≡ true
    → image_of (find_container b s.containers) ≡ none
    → (x : Deployment) × (find_complete_deployment d s ≡ some x) × (mem b x.containers ≡ false)
unfolding find_complete_deployment is_deployment_complete deployment_of
find_complete_deployment-partial d b s there all one lacks = (
  deployment_of s (joined_in d s),
  rw (there, all, one) refl,
  by_index-absent b (joined_in d s) [] (join_resources-absent b s _ lacks) refl,
)
