-- ===== src/Containers/Store/Settled/Containers.antt =====
-- The requests that create a container or a deployment.
use edgehog_device_runtime.Base.{
  ℕ, suc, ◌==◌, ==_iff, ◌≡◌, refl, ◌∙◌, Bool, true, false, Bool-cases, not, ◌||◌, none, some, List,
  [], ◌∷◌, All-map, arith, inl, inr,
}
use edgehog_device_runtime.Containers.Resource.{
  ResourceType, image, volume, network, device_mapping, device_request, file_bind, env_file,
}
use edgehog_device_runtime.Containers.Store.{
  type_discrete, same_type, Link, DeploymentRow, Member, Store, CreateContainer, filter,
  same_container, same_link, same_missing_image, same_member, has_resource, has_container,
  is_member_of, link_of, link_one, link_all, link_resources, insert_container, join_waiting,
  create_container, add_member, add_members, create_deployment,
}
use edgehog_device_runtime.Containers.Store.Settled.Rows.{
  All-filter, filter-All, All-both, insert_all-All, insert_or_ignore-All, has_container-insert,
}
use edgehog_device_runtime.Containers.Store.Settled.Invariant.{
  Present, Absent, AbsentImage, Imaged, Joins, Waits, HasLinks, HasMembers, IsSettled,
}

-- The two stores have the same containers and members.
pub record SameMembers (s t : Store) : Type 0 where
  pub containers : t.containers ≡ s.containers
  pub joined : t.deployment_containers ≡ s.deployment_containers
  pub waiting : t.missing_containers ≡ s.missing_containers

link_one-HasLinks :
    (b : Bool) (c : ℕ) (k : ResourceType) (r : ℕ) (s : Store)
    → has_resource k r s ≡ b
    → same_type image k ≡ false
    → HasLinks s
    → HasLinks (link_one b (link_of c k r) s)
link_one-HasLinks true c k r s e other h = record {
  linked = insert_or_ignore-All (Present s) same_link (link_of c k r) s.links e h.linked;
  lacking = h.lacking;
  images = h.images;
  imaged = h.imaged;
}
link_one-HasLinks false c k r s e other h = record {
  linked = h.linked;
  lacking =
      insert_or_ignore-All (Absent s) same_link (link_of c k r) s.missing_links (e, other)
        h.lacking;
  images = h.images;
  imaged = h.imaged;
}

link_one-SameMembers : (b : Bool) (l : Link) (s : Store) → SameMembers s (link_one b l s)
link_one-SameMembers true l s = record { containers = refl; joined = refl; waiting = refl }
link_one-SameMembers false l s = record { containers = refl; joined = refl; waiting = refl }

SameMembers-trans : (s t u : Store) → SameMembers s t → SameMembers t u → SameMembers s u
SameMembers-trans s t u h k = record {
  containers = k.containers ∙ h.containers;
  joined = k.joined ∙ h.joined;
  waiting = k.waiting ∙ h.waiting;
}

-- Links are added, and the members stay.
abbrev Linked : Store → Store → Type 0
Linked s t = HasLinks t × SameMembers s t

link_all-Linked :
    (c : ℕ) (k : ResourceType) (rs : List ℕ) (s t : Store)
    → same_type image k ≡ false
    → Linked s t
    → Linked s (link_all c k rs t)
unfolding link_all
link_all-Linked c k [] s t other h = h
link_all-Linked c k (r ∷ rs) s t other h =
    let t' = link_one (has_resource k r t) (link_of c k r) t in
    link_all-Linked c k rs s t' other (
      link_one-HasLinks (has_resource k r t) c k r t refl other h.0,
      SameMembers-trans s t t' h.1 (link_one-SameMembers (has_resource k r t) (link_of c k r) t),
    )

link_resources-Linked :
    (r : CreateContainer) (s : Store) → HasLinks s → Linked s (link_resources r s)
unfolding link_resources type_discrete
link_resources-Linked r s h = link_all-Linked r.id env_file r.env_file_ids s _ refl (
    link_all-Linked r.id file_bind r.file_bind_ids s _ refl (
      link_all-Linked r.id device_request r.device_request_ids s _ refl (
        link_all-Linked r.id device_mapping r.device_mapping_ids s _ refl (
          link_all-Linked r.id volume r.volume_ids s _ refl (
            link_all-Linked r.id network r.network_ids s s refl
              (h, record { containers = refl; joined = refl; waiting = refl }))))))

insert_container-HasLinks :
    (b : Bool) (c i : ℕ) (s : Store)
    → has_resource image i s ≡ b
    → HasLinks s
    → HasLinks (insert_container b c i s)
insert_container-HasLinks true c i s e h = record {
  linked = h.linked;
  lacking = h.lacking;
  images = h.images;
  imaged = insert_or_ignore-All (Imaged s) same_container _ s.containers e h.imaged;
}
insert_container-HasLinks false c i s e h = record {
  linked = h.linked;
  lacking = h.lacking;
  images = insert_or_ignore-All (AbsentImage s) same_missing_image _ s.missing_images e h.images;
  imaged = insert_or_ignore-All (Imaged s) same_container _ s.containers tt h.imaged;
}

-- A container is added, and the members stay.
pub record Adds (c : ℕ) (s t : Store) : Type 0 where
  pub added : (q : ℕ) → has_container q t ≡ (has_container q s || c == q)
  pub joined : t.deployment_containers ≡ s.deployment_containers
  pub waiting : t.missing_containers ≡ s.missing_containers

insert_container-Adds : (b : Bool) (c i : ℕ) (s : Store) → Adds c s (insert_container b c i s)
insert_container-Adds true c i s = record {
  added = has_container-insert (record { id = c; image_id = some i }) s.containers;
  joined = refl;
  waiting = refl;
}
insert_container-Adds false c i s = record {
  added = has_container-insert (record { id = c; image_id = none }) s.containers;
  joined = refl;
  waiting = refl;
}

module _ (c : ℕ) (s t : Store) (a : Adds c s t) where
  Joins-still : (m : Member) → Joins s m → Joins t m
  Joins-still m h = rw (a.added m.container_id, h) refl

  Joins-now : (m : Member) → is_member_of c m ≡ true → Joins t m
  Joins-now m h = ground (arith, a.added m.container_id, h, ==_iff m.container_id c)

  Waits-still : (m : Member) → Waits s m → not (is_member_of c m) ≡ true → Waits t m
  Waits-still m h e =
      ground (arith, a.added m.container_id, h, e, ==_iff m.container_id c, ==_iff c m.container_id)

  join_waiting-HasMembers : HasMembers s → HasMembers (join_waiting c t)
  unfolding join_waiting
  join_waiting-HasMembers h =
      let moved = filter (is_member_of c) s.missing_containers in
      record {
        joined =
            rw (a.joined, a.waiting)
              (insert_all-All (Joins t) same_member moved s.deployment_containers
                (All-map _ (Joins t) moved Joins-now
                  (filter-All (is_member_of c) s.missing_containers))
                (All-map _ (Joins t) s.deployment_containers Joins-still h.joined));
        waiting = rw a.waiting (
            All-map _ (Waits t) (filter (λ m. not (is_member_of c m)) s.missing_containers)
              (λ m p. Waits-still m p.0 p.1)
              (All-both (Waits s) (λ m. not (is_member_of c m) ≡ true) _
                (All-filter (Waits s) _ s.missing_containers h.waiting)
                (filter-All (λ m. not (is_member_of c m)) s.missing_containers)));
      }

join_waiting-HasLinks : (c : ℕ) (t : Store) → HasLinks t → HasLinks (join_waiting c t)
unfolding join_waiting
join_waiting-HasLinks c t h = record {
  linked = h.linked;
  lacking = h.lacking;
  images = h.images;
  imaged = h.imaged;
}

Adds-SameMembers : (c : ℕ) (s t u : Store) → Adds c s t → SameMembers t u → Adds c s u
Adds-SameMembers c s t u a same = record {
  added = λ q. rw same.containers (a.added q);
  joined = same.joined ∙ a.joined;
  waiting = same.waiting ∙ a.waiting;
}

pub create_container-IsSettled :
    (r : CreateContainer) (s : Store) → IsSettled s → IsSettled (create_container r s)
unfolding create_container
create_container-IsSettled r s h = elim (Bool-cases (has_container r.id s)) [
  | inl e ↦ rw e h
  | inr e ↦
      let b = has_resource image r.image_id s in
      let s1 = insert_container b r.id r.image_id s in
      let (links, same) =
        link_resources-Linked r s1
          (insert_container-HasLinks b r.id r.image_id s refl h.resources) in
      let adds =
        Adds-SameMembers r.id s s1 (link_resources r s1) (insert_container-Adds b r.id r.image_id s)
          same in
      rw e (record {
        resources = join_waiting-HasLinks r.id (link_resources r s1) links;
        members = join_waiting-HasMembers r.id s (link_resources r s1) adds h.members;
      })
]

add_member-IsSettled :
    (b : Bool) (m : Member) (s : Store)
    → has_container m.container_id s ≡ b
    → IsSettled s
    → IsSettled (add_member b m s)
add_member-IsSettled true m s e h = record {
  resources = record {
    linked = h.resources.linked;
    lacking = h.resources.lacking;
    images = h.resources.images;
    imaged = h.resources.imaged;
  };
  members = record {
    joined =
        insert_or_ignore-All (Joins s) same_member m s.deployment_containers e h.members.joined;
    waiting = h.members.waiting;
  };
}
add_member-IsSettled false m s e h = record {
  resources = record {
    linked = h.resources.linked;
    lacking = h.resources.lacking;
    images = h.resources.images;
    imaged = h.resources.imaged;
  };
  members = record {
    joined = h.members.joined;
    waiting = insert_or_ignore-All (Waits s) same_member m s.missing_containers e h.members.waiting;
  };
}

add_members-IsSettled :
    (d n : ℕ) (cs : List ℕ) (s : Store) → IsSettled s → IsSettled (add_members d n cs s)
unfolding add_members
add_members-IsSettled d n [] s h = h
add_members-IsSettled d n (c ∷ cs) s h =
    add_members-IsSettled d (suc n) cs _ (add_member-IsSettled (has_container c s) _ s refl h)

-- The deployments themselves play no part.
pub with_deployments-IsSettled :
    (ds : List DeploymentRow) (s : Store) → IsSettled s → IsSettled (record s { deployments = ds })
with_deployments-IsSettled ds s h = record {
  resources = record {
    linked = h.resources.linked;
    lacking = h.resources.lacking;
    images = h.resources.images;
    imaged = h.resources.imaged;
  };
  members = record { joined = h.members.joined; waiting = h.members.waiting };
}

pub create_deployment-IsSettled :
    (d : ℕ) (cs : List ℕ) (s : Store) → IsSettled s → IsSettled (create_deployment d cs s)
unfolding create_deployment
create_deployment-IsSettled d cs s h =
    add_members-IsSettled d 0 cs _ (with_deployments-IsSettled _ s h)
