-- ===== src/Containers/Store/Queries.antt =====
-- The queries and the status updates of src/store/deployment.rs of edgehog-device-runtime-containers,
-- and `From<Vec<DeploymentRow>>` of src/resource/deployment.rs.
use edgehog_device_runtime.Base.{
  ℕ, suc, ◌==◌, ltb, Bool, true, false, not, ◌&&◌, any, if◌then◌else◌, Option, none, some, List, [],
  ◌∷◌, ◌++◌, map, Result, ok, err,
}
use edgehog_device_runtime.Containers.Resource.{
  ResourceType, volume, network, device_mapping, device_request, file_bind, env_file, Deployment,
  DeploymentStatus, received, stopped, started, deleted, DeploymentUpdate,
}
use edgehog_device_runtime.Containers.Store.{
  same_type, Link, ContainerRow, Member, DeploymentRow, Store, filter, has_container,
  has_deployment,
}

abbrev pub mem : ℕ → List ℕ → Bool
mem x xs = any (λ y. y == x) xs

-- the rows that `join_resources` joins for a member of a deployment, but for the links
pub record Joined : Type 0 where
  pub idx : ℕ
  pub container_id : ℕ
  pub image_id : ℕ

abbrev pub image_of : Option ContainerRow → Option ℕ
image_of none = none
image_of (some r) = r.image_id

unfoldable pub find_container : ℕ → List ContainerRow → Option ContainerRow
find_container c [] = none
find_container c (r ∷ rs) = if r.id == c then some r else find_container c rs

abbrev pub join_one : Option ℕ → Member → List Joined → List Joined
join_one none m js = js
join_one (some i) m js = (record { idx = m.idx; container_id = m.container_id; image_id = i }) ∷ js

-- `join_resources`: a container without its image is left out.
unfoldable pub join_resources : Store → List Member → List Joined
join_resources s [] = []
join_resources s (m ∷ ms) =
    join_one (image_of (find_container m.container_id s.containers)) m (join_resources s ms)

abbrev pub is_in : ℕ → Member → Bool
is_in d m = m.deployment_id == d

abbrev pub joined_in : ℕ → Store → List Joined
joined_in d s = join_resources s (filter (is_in d) s.deployment_containers)

-- those of the other deployments
abbrev pub joined_out : ℕ → Store → List Joined
joined_out d s = join_resources s (filter (λ m. not (is_in d m)) s.deployment_containers)

abbrev pub is_link_of : ResourceType → ℕ → Link → Bool
is_link_of k c l = same_type l.kind k && l.container_id == c

-- the column of a link's resource, in all rows where it is not null
unfoldable pub column : ResourceType → Store → List Joined → List ℕ
column k s [] = []
column k s (j ∷ js) =
    map (λ l. l.resource_id) (filter (is_link_of k j.container_id) s.links) ++ column k s js

abbrev pub image_ids : List Joined → List ℕ
image_ids = map (λ j. j.image_id)

-- the collection into a `HashSet`
unfoldable pub set_of : List ℕ → List ℕ
set_of [] = []
set_of (x ∷ xs) = let rest = set_of xs in if mem x rest then rest else x ∷ rest

-- `BTreeMap::insert`
unfoldable pub insert_idx : ℕ → ℕ → List (ℕ × ℕ) → List (ℕ × ℕ)
insert_idx i c [] = (i, c) ∷ []
insert_idx i c ((j, b) ∷ m) =
    let rest = insert_idx i c m in
    if i == j then (i, c) ∷ m else if ltb i j then (i, c) ∷ (j, b) ∷ m else (j, b) ∷ rest

-- the containers by their index
unfoldable pub by_index : List (ℕ × ℕ) → List (ℕ × ℕ) → List (ℕ × ℕ)
by_index [] m = m
by_index ((i, c) ∷ js) m = by_index js (insert_idx i c m)

abbrev pub pair_of : Joined → ℕ × ℕ
pair_of j = (j.idx, j.container_id)

abbrev pub values_of : List (ℕ × ℕ) → List ℕ
values_of = map (λ e. e.1)

-- `From<Vec<DeploymentRow>> for Deployment`
unfoldable pub deployment_of : Store → List Joined → Deployment
deployment_of s js = record {
  containers = values_of (by_index (map pair_of js) []);
  images = set_of (image_ids js);
  volumes = set_of (column volume s js);
  networks = set_of (column network s js);
  device_mappings = set_of (column device_mapping s js);
  device_requests = set_of (column device_request s js);
  file_binds = set_of (column file_bind s js);
  env_files = set_of (column env_file s js);
}

-- `EXCEPT`
unfoldable pub except : List ℕ → List ℕ → List ℕ
except xs ys = filter (λ x. not (mem x ys)) xs

abbrev pub same_pair : ℕ × ℕ → ℕ × ℕ → Bool
same_pair p q = q.0 == p.0 && q.1 == p.1

unfoldable pub except_pairs : List (ℕ × ℕ) → List (ℕ × ℕ) → List (ℕ × ℕ)
except_pairs ps qs = filter (λ p. not (any (same_pair p) qs)) ps

unfoldable pub own : ResourceType → ℕ → Store → List ℕ
own k d s = set_of (except (column k s (joined_in d s)) (column k s (joined_out d s)))

unfoldable pub own_images : ℕ → Store → List ℕ
own_images d s = set_of (except (image_ids (joined_in d s)) (image_ids (joined_out d s)))

unfoldable pub own_containers : ℕ → Store → List (ℕ × ℕ)
own_containers d s = except_pairs (map pair_of (joined_in d s)) (map pair_of (joined_out d s))

unfoldable pub find_deployment_for_delete : ℕ → Store → Option Deployment
find_deployment_for_delete d s =
    if has_deployment d s
    then some (record {
      containers = values_of (by_index (own_containers d s) []);
      images = own_images d s;
      volumes = own volume d s;
      networks = own network d s;
      device_mappings = own device_mapping d s;
      device_requests = own device_request d s;
      file_binds = own file_bind d s;
      env_files = own env_file d s;
    })
    else none

-- The container is there, and nothing that it asks for is missing.
unfoldable pub is_container_complete : ℕ → Store → Bool
is_container_complete c s =
    has_container c s
    && not (any (λ m. m.container_id == c) s.missing_images)
    && not (any (λ l. l.container_id == c) s.missing_links)

-- a row of the join that passes every filter
unfoldable pub is_deployment_complete : ℕ → Store → Bool
is_deployment_complete d s =
    has_deployment d s
    && not (any (is_in d) s.missing_containers)
    && any (λ m. is_in d m && is_container_complete m.container_id s) s.deployment_containers

unfoldable pub find_complete_deployment : ℕ → Store → Option Deployment
find_complete_deployment d s =
    if has_deployment d s
    then (if is_deployment_complete d s then some (deployment_of s (joined_in d s)) else none)
    else none

-- the members by their index
unfoldable pub load_deployment_containers : ℕ → Store → Option (List ℕ)
load_deployment_containers d s =
    if has_deployment d s
    then some (
        values_of (
          by_index (map (λ m. (m.idx, m.container_id)) (filter (is_in d) s.deployment_containers))
            []))
    else none

abbrev pub member_ids : ℕ → Store → List ℕ
member_ids d s = map (λ m. m.container_id) (filter (is_in d) s.deployment_containers)

unfoldable pub load_deployment_containers_update_from : DeploymentUpdate → Store → Option (List ℕ)
load_deployment_containers_update_from u s =
    if has_deployment u.from s
    then some (set_of (except (member_ids u.from s) (member_ids u.to s)))
    else none

pub data HandleError : Type 0 where
  not_found : HandleError
  -- `Application`, as an opaque number
  application : ℕ → HandleError
  update_rows : ℕ → ℕ → HandleError

-- `check_modified`, with the store of the transaction
abbrev pub check_modified : ℕ → ℕ → Store → Result HandleError Store
check_modified modified exp s = if modified == exp then ok s else err (update_rows exp modified)

unfoldable pub count_id : ℕ → List DeploymentRow → ℕ
count_id d [] = 0
count_id d (r ∷ rs) = let rest = count_id d rs in if r.id == d then suc rest else rest

unfoldable pub set_status : ℕ → DeploymentStatus → List DeploymentRow → List DeploymentRow
set_status d t [] = []
set_status d t (r ∷ rs) = (if r.id == d then record r { status = t } else r) ∷ set_status d t rs

-- the statement, and the count of the rows that it changed
unfoldable pub put_status : ℕ → DeploymentStatus → Store → Result HandleError Store
put_status d t s =
    check_modified (count_id d s.deployments) 1
      (record s { deployments = set_status d t s.deployments })

unfoldable pub status_of : ℕ → List DeploymentRow → Option DeploymentStatus
status_of d [] = none
status_of d (r ∷ rs) = if r.id == d then some r.status else status_of d rs

abbrev pub then_do :
    Result HandleError Store → (Store → Result HandleError Store) → Result HandleError Store
then_do (ok s) f = f s
then_do (err e) f = err e

abbrev pub commit : Store → Result HandleError Store → Result HandleError (Unit {0}) × Store
commit s (ok s') = (ok tt, s')
commit s (err e) = (err e, s)

-- `for_write`: an error takes everything back.
abbrev pub for_write :
    (Store → Result HandleError Store) → Store → Result HandleError (Unit {0}) × Store
for_write f s = commit s (f s)

unfoldable pub update_deployment_status :
    ℕ → DeploymentStatus → Store → Result HandleError (Unit {0}) × Store
update_deployment_status d t s = for_write (put_status d t) s

abbrev pub stop_from : ℕ → Option DeploymentStatus → Store → Result HandleError Store
stop_from d none s = err not_found
stop_from d (some started) s = put_status d stopped s
stop_from d (some received) s = ok s
stop_from d (some stopped) s = ok s
stop_from d (some deleted) s = ok s

abbrev pub update_both : DeploymentUpdate → Store → Result HandleError Store
update_both u s =
    then_do (stop_from u.from (status_of u.from s.deployments) s) (put_status u.to started)

unfoldable pub deployment_update : DeploymentUpdate → Store → Result HandleError (Unit {0}) × Store
deployment_update u s = for_write (update_both u) s

abbrev pub eqb_status : DeploymentStatus → DeploymentStatus → Bool
eqb_status received received = true
eqb_status stopped stopped = true
eqb_status started started = true
eqb_status deleted deleted = true
eqb_status _ _ = false

unfoldable pub load_deployments_in : DeploymentStatus → Store → List ℕ
load_deployments_in t s = map (λ r. r.id) (filter (λ r. eqb_status r.status t) s.deployments)
