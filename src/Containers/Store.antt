-- ===== src/Containers/Store.antt =====
-- The store of the containers: src/store of edgehog-device-runtime-containers, on the tables of its
-- database. Of a resource only its id is kept, of a container its id and its image, and the tables that
-- join a container with its volumes, networks and so on are one list of links with their kind.
-- The lists are the tables in some order.
pub mod Queries
pub mod Requests
pub mod Settled
pub mod Deletes
pub mod Complete
pub mod Updates
pub mod Tests
use edgehog_device_runtime.Base.{
  ℕ, zero, suc, ◌+◌, ◌==◌, ltb, Bool, true, false, not, ◌&&◌, ◌||◌, any, if◌then◌else◌, Option,
  none, some, List, [], ◌∷◌, ◌++◌, map, Result, ok, err,
}
use edgehog_device_runtime.Containers.Resource.{
  ResourceType, image, volume, network, device_mapping, device_request, file_bind, env_file,
  Deployment, DeploymentStatus, received, stopped, started, deleted, DeploymentUpdate,
}

pub type_discrete : Discrete ResourceType
type_discrete = hlevel

abbrev pub same_type : ResourceType → ResourceType → Bool
same_type a b = elim (type_discrete a b) [ yes _ ↦ true | no _ ↦ false ]

-- A row of `container_volumes`, `container_networks` and so on, or of the table of the same kind that
-- holds what is missing.
pub record Link : Type 0 where
  pub kind : ResourceType
  pub container_id : ℕ
  pub resource_id : ℕ

pub record ContainerRow : Type 0 where
  pub id : ℕ
  pub image_id : Option ℕ

pub record MissingImage : Type 0 where
  pub container_id : ℕ
  pub image_id : ℕ

-- A row of `deployment_containers` or `deployment_missing_containers`.
pub record Member : Type 0 where
  pub deployment_id : ℕ
  pub container_id : ℕ
  pub idx : ℕ

pub record DeploymentRow : Type 0 where
  pub id : ℕ
  pub status : DeploymentStatus

-- a row of `images`, `volumes`, `networks` and so on
pub record ResourceRow : Type 0 where
  pub kind : ResourceType
  pub id : ℕ

pub record Store : Type 0 where
  pub resources : List ResourceRow
  pub containers : List ContainerRow
  pub missing_images : List MissingImage
  pub links : List Link
  pub missing_links : List Link
  pub deployments : List DeploymentRow
  pub deployment_containers : List Member
  pub missing_containers : List Member

unfoldable pub filter {ℓ} : {A : Type ℓ} → (A → Bool) → List A → List A
filter p [] = []
filter p (x ∷ xs) = let rest = filter p xs in if p x then x ∷ rest else rest

-- `insert_or_ignore_into`: a row that is in conflict with another one is not inserted.
abbrev pub insert_or_ignore {ℓ} : {A : Type ℓ} → (A → A → Bool) → A → List A → List A
insert_or_ignore conflicts x xs = if any (conflicts x) xs then xs else xs ++ x ∷ []

unfoldable pub insert_all {ℓ} : {A : Type ℓ} → (A → A → Bool) → List A → List A → List A
insert_all conflicts [] xs = xs
insert_all conflicts (y ∷ ys) xs = insert_all conflicts ys (insert_or_ignore conflicts y xs)

-- the primary keys and the unique indices
abbrev pub same_resource : ResourceRow → ResourceRow → Bool
same_resource r q = same_type q.kind r.kind && q.id == r.id

abbrev pub same_container : ContainerRow → ContainerRow → Bool
same_container r q = q.id == r.id

abbrev pub same_missing_image : MissingImage → MissingImage → Bool
same_missing_image r q = q.container_id == r.container_id

abbrev pub same_link : Link → Link → Bool
same_link r q =
    same_type q.kind r.kind && q.container_id == r.container_id && q.resource_id == r.resource_id

abbrev pub same_member : Member → Member → Bool
same_member r q =
    q.deployment_id == r.deployment_id && (q.container_id == r.container_id || q.idx == r.idx)

abbrev pub same_deployment : DeploymentRow → DeploymentRow → Bool
same_deployment r q = q.id == r.id

abbrev pub has_resource : ResourceType → ℕ → Store → Bool
has_resource k r s = any (same_resource (record { kind = k; id = r })) s.resources

abbrev pub has_container : ℕ → Store → Bool
has_container c s = any (λ q. q.id == c) s.containers

abbrev pub has_deployment : ℕ → Store → Bool
has_deployment d s = any (λ q. q.id == d) s.deployments

-- `find_by_image`, `find_by_volume` and so on, and `find_by_container`
abbrev pub is_missing_image : ℕ → MissingImage → Bool
is_missing_image i m = m.image_id == i

abbrev pub is_link_to : ResourceType → ℕ → Link → Bool
is_link_to k r l = same_type l.kind k && l.resource_id == r

abbrev pub is_member_of : ℕ → Member → Bool
is_member_of c m = m.container_id == c

abbrev pub insert_resource : ResourceType → ℕ → Store → Store
insert_resource k r s = record s {
  resources = insert_or_ignore same_resource (record { kind = k; id = r }) s.resources;
}

-- the update of the containers that wait for an image
unfoldable pub set_image : ℕ → List MissingImage → List ContainerRow → List ContainerRow
set_image i missing [] = []
set_image i missing (c ∷ cs) =
    (if any (λ m. is_missing_image i m && m.container_id == c.id) missing
      then record c { image_id = some i }
      else c)
    ∷ set_image i missing cs

unfoldable pub create_image : ℕ → Store → Store
create_image i s = record (insert_resource image i s) {
  containers = set_image i s.missing_images s.containers;
  missing_images = filter (λ m. not (is_missing_image i m)) s.missing_images;
}

-- `create_volume`, `create_network`, `create_device_mapping`, `create_device_request`,
-- `create_file_bind` and `create_env_file`
unfoldable pub create_resource : ResourceType → ℕ → Store → Store
create_resource k r s = record (insert_resource k r s) {
  links = insert_all same_link (filter (is_link_to k r) s.missing_links) s.links;
  missing_links = filter (λ l. not (is_link_to k r l)) s.missing_links;
}

-- the part of a request that relates a container to its resources
pub record CreateContainer : Type 0 where
  pub id : ℕ
  pub image_id : ℕ
  pub network_ids : List ℕ
  pub volume_ids : List ℕ
  pub device_mapping_ids : List ℕ
  pub device_request_ids : List ℕ
  pub file_bind_ids : List ℕ
  pub env_file_ids : List ℕ

abbrev pub link_of : ℕ → ResourceType → ℕ → Link
link_of c k r = record { kind = k; container_id = c; resource_id = r }

abbrev pub link_one : Bool → Link → Store → Store
link_one true l s = record s { links = insert_or_ignore same_link l s.links }
link_one false l s = record s { missing_links = insert_or_ignore same_link l s.missing_links }

-- the loop over `network_ids`, `volume_ids` and so on
unfoldable pub link_all : ℕ → ResourceType → List ℕ → Store → Store
link_all c k [] s = s
link_all c k (r ∷ rs) s = link_all c k rs (link_one (has_resource k r s) (link_of c k r) s)

-- these loops, one after the other
unfoldable pub link_resources : CreateContainer → Store → Store
link_resources r s = link_all r.id env_file r.env_file_ids (
    link_all r.id file_bind r.file_bind_ids (
      link_all r.id device_request r.device_request_ids (
        link_all r.id device_mapping r.device_mapping_ids
          (link_all r.id volume r.volume_ids (link_all r.id network r.network_ids s)))))

abbrev pub insert_container : Bool → ℕ → ℕ → Store → Store
insert_container true c i s = record s {
  containers = insert_or_ignore same_container (record { id = c; image_id = some i }) s.containers;
}
insert_container false c i s = record s {
  containers = insert_or_ignore same_container (record { id = c; image_id = none }) s.containers;
  missing_images =
      insert_or_ignore same_missing_image (record { container_id = c; image_id = i })
        s.missing_images;
}

-- the deployments that wait for a container
unfoldable pub join_waiting : ℕ → Store → Store
join_waiting c s = record s {
  deployment_containers =
      insert_all same_member (filter (is_member_of c) s.missing_containers) s.deployment_containers;
  missing_containers = filter (λ m. not (is_member_of c m)) s.missing_containers;
}

unfoldable pub create_container : CreateContainer → Store → Store
create_container r s =
    if has_container r.id s
    then s
    else join_waiting r.id
        (link_resources r (insert_container (has_resource image r.image_id s) r.id r.image_id s))

abbrev pub add_member : Bool → Member → Store → Store
add_member true m s = record s {
  deployment_containers = insert_or_ignore same_member m s.deployment_containers;
}
add_member false m s = record s {
  missing_containers = insert_or_ignore same_member m s.missing_containers;
}

-- the containers of a request, numbered from an index on
unfoldable pub add_members : ℕ → ℕ → List ℕ → Store → Store
add_members d n [] s = s
add_members d n (c ∷ cs) s =
    add_members d (suc n) cs
      (add_member (has_container c s) (record { deployment_id = d; container_id = c; idx = n }) s)

unfoldable pub create_deployment : ℕ → List ℕ → Store → Store
create_deployment d cs s = add_members d 0 cs (record s {
  deployments =
      insert_or_ignore same_deployment (record { id = d; status = received }) s.deployments;
})
