-- ===== src/Containers/Store/Settled/Invariant.antt =====
-- The invariant of the store, and the requests that create an image or another resource.
use edgehog_device_runtime.Base.{
  ℕ, ◌==◌, ==_iff, ◌≡◌, refl, true, false, Bool-cases, not, ◌&&◌, any, Option, none, some, List, [],
  ◌∷◌, All, All-map, arith, inl, inr,
}
use edgehog_device_runtime.Containers.Resource.{ResourceType, image}
use edgehog_device_runtime.Containers.Store.{
  type_discrete, same_type, Link, ContainerRow, MissingImage, Member, Store, filter, same_link,
  has_resource, has_container, is_missing_image, is_link_to, insert_resource, set_image,
  create_image, create_resource,
}
use edgehog_device_runtime.Containers.Store.Settled.Rows.{
  All-filter, filter-All, All-both, insert_all-All, same_type_iff, has_resource-insert_resource,
}

abbrev pub Present : Store → Link → Type 0
Present s l = has_resource l.kind l.resource_id s ≡ true

-- Images are not among the links.
abbrev pub Absent : Store → Link → Type 0
Absent s l = (has_resource l.kind l.resource_id s ≡ false) × (same_type image l.kind ≡ false)

abbrev pub AbsentImage : Store → MissingImage → Type 0
AbsentImage s m = has_resource image m.image_id s ≡ false

abbrev pub HasImage : Store → Option ℕ → Type 0
HasImage s none = Unit
HasImage s (some i) = has_resource image i s ≡ true

abbrev pub Imaged : Store → ContainerRow → Type 0
Imaged s c = HasImage s c.image_id

abbrev pub Joins : Store → Member → Type 0
Joins s m = has_container m.container_id s ≡ true

abbrev pub Waits : Store → Member → Type 0
Waits s m = has_container m.container_id s ≡ false

-- The resources that containers ask for: what is there is linked, and what is not is missing.
pub record HasLinks (s : Store) : Type 0 where
  pub linked : All (Present s) s.links
  pub lacking : All (Absent s) s.missing_links
  pub images : All (AbsentImage s) s.missing_images
  pub imaged : All (Imaged s) s.containers

-- The containers that deployments ask for.
pub record HasMembers (s : Store) : Type 0 where
  pub joined : All (Joins s) s.deployment_containers
  pub waiting : All (Waits s) s.missing_containers

pub record IsSettled (s : Store) : Type 0 where
  pub resources : HasLinks s
  pub members : HasMembers s

module _ (k : ResourceType) (r : ℕ) (s : Store) where
  present_still :
      (q : ResourceType) (i : ℕ)
      → has_resource q i s ≡ true
      → has_resource q i (insert_resource k r s) ≡ true
  present_still q i h = rw (has_resource-insert_resource k q r i s, h) refl

  absent_still :
      (q : ResourceType) (i : ℕ)
      → has_resource q i s ≡ false
      → (same_type k q && r == i) ≡ false
      → has_resource q i (insert_resource k r s) ≡ false
  absent_still q i h e = rw (has_resource-insert_resource k q r i s, h, e) refl

  present_now : has_resource k r (insert_resource k r s) ≡ true
  present_now = rw (has_resource-insert_resource k k r r s) (ground (arith, type_discrete k k))

HasImage-insert_resource :
    (k : ResourceType) (r : ℕ) (s : Store) (o : Option ℕ)
    → HasImage s o
    → HasImage (insert_resource k r s) o
HasImage-insert_resource k r s none h = tt
HasImage-insert_resource k r s (some i) h = present_still k r s image i h

has_container-set_image :
    (i c : ℕ) (ms : List MissingImage) (rows : List ContainerRow)
    → any (λ q. q.id == c) (set_image i ms rows) ≡ any (λ q. q.id == c) rows
unfolding set_image
has_container-set_image i c ms [] = refl
has_container-set_image i c ms (q ∷ rows) =
    elim (Bool-cases (any (λ m. is_missing_image i m && m.container_id == q.id) ms)) [
      | inl e ↦ rw (e, has_container-set_image i c ms rows) refl
      | inr e ↦ rw (e, has_container-set_image i c ms rows) refl
    ]

set_image-Imaged :
    (i : ℕ) (s : Store) (ms : List MissingImage) (rows : List ContainerRow)
    → All (Imaged s) rows
    → All (Imaged (insert_resource image i s)) (set_image i ms rows)
unfolding set_image
set_image-Imaged i s ms [] h = tt
set_image-Imaged i s ms (q ∷ rows) h =
    elim (Bool-cases (any (λ m. is_missing_image i m && m.container_id == q.id) ms)) [
      | inl e ↦ rw e (present_now image i s, set_image-Imaged i s ms rows h.1)
      | inr e ↦
          rw e (HasImage-insert_resource image i s q.image_id h.0, set_image-Imaged i s ms rows h.1)
    ]

other_image :
    (i : ℕ) (m : MissingImage)
    → not (is_missing_image i m) ≡ true
    → (same_type image image && i == m.image_id) ≡ false
other_image i m h = ground (arith, h, ==_iff i m.image_id, ==_iff m.image_id i)

other_link :
    (k : ResourceType) (r : ℕ) (l : Link)
    → not (is_link_to k r l) ≡ true
    → (same_type k l.kind && r == l.resource_id) ≡ false
other_link k r l h = elim (Bool-cases (same_type k l.kind && r == l.resource_id)) [
  | inr e ↦ e
  | inl e ↦
      absurd
        (ground (arith, h, e, same_type_iff k l.kind, ==_iff r l.resource_id, type_discrete k k))
]

linked_to :
    (k : ResourceType) (r : ℕ) (s : Store) (l : Link)
    → is_link_to k r l ≡ true
    → Present (insert_resource k r s) l
linked_to k r s l h =
    ground (arith, h, present_now k r s, same_type_iff l.kind k, ==_iff l.resource_id r)

pub create_image-IsSettled : (i : ℕ) (s : Store) → IsSettled s → IsSettled (create_image i s)
unfolding create_image
create_image-IsSettled i s h = record {
  resources = record {
    linked =
        All-map _ _ s.links (λ l p. present_still image i s l.kind l.resource_id p)
          h.resources.linked;
    lacking =
        All-map _ _ s.missing_links
          (λ l p. (absent_still image i s l.kind l.resource_id p.0 (rw p.1 refl), p.1))
          h.resources.lacking;
    images =
        All-map _ _ (filter (λ m. not (is_missing_image i m)) s.missing_images)
          (λ m p. absent_still image i s image m.image_id p.0 (other_image i m p.1))
          (All-both (AbsentImage s) (λ m. not (is_missing_image i m) ≡ true) _
            (All-filter (AbsentImage s) _ s.missing_images h.resources.images)
            (filter-All (λ m. not (is_missing_image i m)) s.missing_images));
    imaged = set_image-Imaged i s s.missing_images s.containers h.resources.imaged;
  };
  members = record {
    joined =
        All-map _ _ s.deployment_containers
          (λ m p. rw (has_container-set_image i m.container_id s.missing_images s.containers) p)
          h.members.joined;
    waiting =
        All-map _ _ s.missing_containers
          (λ m p. rw (has_container-set_image i m.container_id s.missing_images s.containers) p)
          h.members.waiting;
  };
}

pub create_resource-IsSettled :
    (k : ResourceType) (r : ℕ) (s : Store)
    → same_type k image ≡ false
    → IsSettled s
    → IsSettled (create_resource k r s)
unfolding create_resource
create_resource-IsSettled k r s other h = record {
  resources = record {
    linked =
        insert_all-All (Present (insert_resource k r s)) same_link
          (filter (is_link_to k r) s.missing_links) s.links
          (All-map _ _ (filter (is_link_to k r) s.missing_links) (linked_to k r s)
            (filter-All (is_link_to k r) s.missing_links))
          (All-map _ _ s.links (λ l p. present_still k r s l.kind l.resource_id p)
            h.resources.linked);
    lacking =
        All-map _ _ (filter (λ l. not (is_link_to k r l)) s.missing_links)
          (λ l p. (absent_still k r s l.kind l.resource_id p.0.0 (other_link k r l p.1), p.0.1))
          (All-both (Absent s) (λ l. not (is_link_to k r l) ≡ true) _
            (All-filter (Absent s) _ s.missing_links h.resources.lacking)
            (filter-All (λ l. not (is_link_to k r l)) s.missing_links));
    images =
        All-map _ _ s.missing_images (λ m p. absent_still k r s image m.image_id p (rw other refl))
          h.resources.images;
    imaged =
        All-map _ _ s.containers (λ c p. HasImage-insert_resource k r s c.image_id p)
          h.resources.imaged;
  };
  members = record { joined = h.members.joined; waiting = h.members.waiting };
}
