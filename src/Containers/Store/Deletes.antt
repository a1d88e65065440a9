-- ===== src/Containers/Store/Deletes.antt =====
-- What is deleted with a deployment: what it uses and no other deployment does.
use edgehog_device_runtime.Base.{
  ℕ, ◌==◌, ==_iff, ◌≡◌, refl, ap, ◌∙◌, Bool, true, false, Bool-cases, not, ◌&&◌, ◌||◌, any, Option,
  none, some, Option-cases, List, [], ◌∷◌, ◌++◌, map, arith, inl, inr,
}
use edgehog_device_runtime.Containers.Resource.{
  ResourceType, volume, network, device_mapping, device_request, file_bind, env_file, Deployment,
}
use edgehog_device_runtime.Containers.Store.{Link, Member, Store, filter, has_deployment}
use edgehog_device_runtime.Containers.Store.Queries.{
  mem, image_of, find_container, join_resources, is_in, is_link_of, column, image_ids, set_of,
  except, own, own_images, find_deployment_for_delete,
}

any-append : (x : ℕ) (xs ys : List ℕ) → mem x (xs ++ ys) ≡ (mem x xs || mem x ys)
any-append x [] ys = refl
any-append x (y ∷ xs) ys = ground (arith, any-append x xs ys)

mem-set_of : (x : ℕ) (xs : List ℕ) → mem x (set_of xs) ≡ mem x xs
unfolding set_of
mem-set_of x [] = refl
mem-set_of x (y ∷ xs) = ground (arith, mem-set_of x xs, ==_iff y x)

mem-filter :
    (x : ℕ) (xs ys : List ℕ)
    → mem x (filter (λ y. not (mem y ys)) xs) ≡ (mem x xs && not (mem x ys))
unfolding filter
mem-filter x [] ys = refl
mem-filter x (y ∷ xs) ys = ground (arith, mem-filter x xs ys, ==_iff y x)

mem-set_of-except :
    (x : ℕ) (xs ys : List ℕ) → mem x (set_of (except xs ys)) ≡ (mem x xs && not (mem x ys))
unfolding except
mem-set_of-except x xs ys = mem-set_of x (except xs ys) ∙ mem-filter x xs ys

-- The container has its image, and a link of the kind to the resource.
abbrev is_some : Option ℕ → Bool
is_some none = false
is_some (some i) = true

abbrev image_in : Store → Member → Option ℕ
image_in s m = image_of (find_container m.container_id s.containers)

abbrev pub uses : ResourceType → ℕ → Store → Member → Bool
uses k r s m =
    is_some (image_in s m) && any (λ l. is_link_of k m.container_id l && l.resource_id == r) s.links

abbrev is_image : ℕ → Option ℕ → Bool
is_image r none = false
is_image r (some i) = i == r

-- The container has the image.
abbrev pub uses_image : ℕ → Store → Member → Bool
uses_image r s m = is_image r (image_in s m)

mem-linked :
    (k : ResourceType) (c r : ℕ) (ls : List Link)
    → mem r (map (λ l. l.resource_id) (filter (is_link_of k c) ls))
      ≡ any (λ l. is_link_of k c l && l.resource_id == r) ls
unfolding filter
mem-linked k c r [] = refl
mem-linked k c r (l ∷ ls) = elim (Bool-cases (is_link_of k c l)) [
  | inl e ↦ rw e (ap (λ b. (l.resource_id == r) || b) (mem-linked k c r ls))
  | inr e ↦ rw e (mem-linked k c r ls)
]

mem-column :
    (k : ResourceType) (r : ℕ) (s : Store) (p : Member → Bool) (ms : List Member)
    → mem r (column k s (join_resources s (filter p ms))) ≡ any (λ m. p m && uses k r s m) ms
unfolding column join_resources filter
mem-column k r s p [] = refl
mem-column k r s p (m ∷ ms) = elim (Bool-cases (p m)) [
  | inr e ↦ rw e (mem-column k r s p ms)
  | inl e ↦ elim (Option-cases (image_in s m)) [
    | inl q ↦ rw (e, q) (mem-column k r s p ms)
    | inr (i, q) ↦
        rw (e, q)
          (any-append r (map (λ l. l.resource_id) (filter (is_link_of k m.container_id) s.links)) _
            ∙ rw (mem-linked k m.container_id r s.links, mem-column k r s p ms) refl)
  ]
]

mem-image_ids :
    (r : ℕ) (s : Store) (p : Member → Bool) (ms : List Member)
    → mem r (image_ids (join_resources s (filter p ms))) ≡ any (λ m. p m && uses_image r s m) ms
unfolding join_resources filter
mem-image_ids r s p [] = refl
mem-image_ids r s p (m ∷ ms) = elim (Bool-cases (p m)) [
  | inr e ↦ rw e (mem-image_ids r s p ms)
  | inl e ↦ elim (Option-cases (image_in s m)) [
    | inl q ↦ rw (e, q) (mem-image_ids r s p ms)
    | inr (i, q) ↦ rw (e, q, mem-image_ids r s p ms) refl
  ]
]

module _ (d : ℕ) (s : Store) where
  -- Some container of the deployment, and of no other deployment, makes this use of a resource.
  abbrev pub exclusive : (Member → Bool) → Bool
  exclusive test =
      any (λ m. is_in d m && test m) s.deployment_containers
      && not (any (λ m. not (is_in d m) && test m) s.deployment_containers)

  mem-own : (k : ResourceType) (r : ℕ) → mem r (own k d s) ≡ exclusive (uses k r s)
  unfolding own
  mem-own k r =
      mem-set_of-except r _ _
      ∙ rw
          (
            mem-column k r s (is_in d) s.deployment_containers,
            mem-column k r s (λ m. not (is_in d m)) s.deployment_containers,
          )
          refl

  mem-own_images : (r : ℕ) → mem r (own_images d s) ≡ exclusive (uses_image r s)
  unfolding own_images
  mem-own_images r =
      mem-set_of-except r _ _
      ∙ rw
          (
            mem-image_ids r s (is_in d) s.deployment_containers,
            mem-image_ids r s (λ m. not (is_in d m)) s.deployment_containers,
          )
          refl

  -- What is deleted with a deployment beside its containers: an image exactly if a container of the
  -- deployment has it and no container of another deployment does, and a volume, a network, a device
  -- mapping, a device request, a file bind or an environment file exactly if a container of the
  -- deployment that has its image is linked to it and no such container of another one is.
  pub find_deployment_for_delete-exclusive :
      (x : Deployment) (r : ℕ)
      → find_deployment_for_delete d s ≡ some x
      → (mem r x.images ≡ exclusive (uses_image r s))
        × (mem r x.volumes ≡ exclusive (uses volume r s))
        × (mem r x.networks ≡ exclusive (uses network r s))
        × (mem r x.device_mappings ≡ exclusive (uses device_mapping r s))
        × (mem r x.device_requests ≡ exclusive (uses device_request r s))
        × (mem r x.file_binds ≡ exclusive (uses file_bind r s))
        × (mem r x.env_files ≡ exclusive (uses env_file r s))
  unfolding find_deployment_for_delete
  find_deployment_for_delete-exclusive x r h = elim (Bool-cases (has_deployment d s)) [
    | inr e ↦ absurd (cc (h, e))
    | inl e ↦ ground (
      arith,
      h,
      e,
      mem-own_images r,
      mem-own volume r,
      mem-own network r,
      mem-own device_mapping r,
      mem-own device_request r,
      mem-own file_bind r,
      mem-own env_file r,
    )
  ]
