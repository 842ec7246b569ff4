-- ===== src/Protocol/Repository/Accepted.antt =====
-- src/protocol/repository.ts: what the other parts may rely on once a manifest is accepted.
use cursor_setting_sync.Base.{
  ℕ, ◌+◌, ◌*◌, ◌≤◌, ◌<◌, ◌≡◌, refl, ◌⊎◌, inl, inr, Bool, true, false, not, Option, none, some, List,
  [], ◌∷◌, ◌++◌, length, map, arith, In, some_of, some_of_member,
}
use cursor_setting_sync.Base.Texts.{
  Text, text_eq, text_lt, text_lt_trans, text_lt_irrefl, starts_with,
}
use cursor_setting_sync.Base.Sets.{Distinct, distinct_from, distinct_from-length, has, has-In}
use cursor_setting_sync.Types.{
  ObjectReference, ResourceChange, EventManifest, CheckpointManifest, CheckpointResource,
  ResourceOperation, put, delete,
}
use cursor_setting_sync.Protocol.Repository.Identifiers.{
  is_sha256, is_version_id, is_safe_identifier,
}
use cursor_setting_sync.Protocol.Repository.Validation.{
  Rejection, and_then, each, validate_object_reference, validate_payload, validate_resource_change,
  validate_event_manifest, validate_checkpoint_resource, validate_resources,
  validate_checkpoint_manifest, max_parents_per_change, is_unsorted,
}
use cursor_setting_sync.Sync.VersionPolicy.Batches.{max_event_changes}

and_then-none : (a b : Option Rejection) → and_then a b ≡ none → (a ≡ none) × (b ≡ none)
and_then-none none b h = (refl, h)
and_then-none (some r) b h = absurd (cc)

each-none :
    {A : Type 0} (validate : A → Option Rejection) (xs : List A) (x : A)
    → each validate xs ≡ none
    → In x xs
    → validate x ≡ none
unfolding each
each-none validate [] x h i = absurd i
each-none validate (y ∷ ys) x h (inl e) = rw e (and_then-none (validate y) (each validate ys) h).0
each-none validate (y ∷ ys) x h (inr i) =
    each-none validate ys x (and_then-none (validate y) (each validate ys) h).1 i

-- A payload comes exactly with a write, and its object is of a known device and not too large.
abbrev pub HasPayload : ResourceChange → ℕ → Type 0
HasPayload change max_payload_bytes =
    ((change.operation ≡ delete) × (change.payload ≡ none))
    ⊎ ((change.operation ≡ put)
        × ((payload : ObjectReference) × (change.payload ≡ some payload)
            × (is_safe_identifier payload.device_id ≡ true)
            × (is_sha256 payload.object_id ≡ true)
            × (payload.plain_bytes ≤ max_payload_bytes)
            × (payload.compressed_bytes ≤ max_payload_bytes + 1024 * 1024)))

abbrev pub IsSound : ResourceChange → ℕ → Type 0
IsSound change max_payload_bytes =
    (is_sha256 change.semantic_hash ≡ true)
    × (starts_with change.resource_id (change.kind ++ b'/' ∷ []) ≡ true)
    × Distinct change.parents
    × (length change.parents ≤ max_parents_per_change)
    × ((parent : Text) → In parent change.parents → is_version_id parent ≡ true)
    × HasPayload change max_payload_bytes

validate_payload-HasPayload :
    (change : ResourceChange) (max : ℕ)
    → validate_payload change.operation change.payload max ≡ none
    → HasPayload change max
unfolding validate_object_reference
validate_payload-HasPayload change max h = by_operation change.operation refl change.payload refl h
  where
    by_operation :
        (o : ResourceOperation)
        → change.operation ≡ o
        → (p : Option ObjectReference) → change.payload ≡ p
        → validate_payload o p max ≡ none
        → HasPayload change max
    by_operation put e none q h = absurd (cc)
    by_operation put e (some payload) q h =
        inr (e, (payload, q, ground arith, ground arith, ground arith, ground arith))
    by_operation delete e none q h = inl (e, q)
    by_operation delete e (some payload) q h = absurd (cc)

validate_resource_change-IsSound :
    (change : ResourceChange) (max : ℕ)
    → validate_resource_change change max ≡ none
    → IsSound change max
unfolding validate_resource_change
validate_resource_change-IsSound change max h =
    let paid : validate_payload change.operation change.payload max ≡ none = ground arith in
    let named : some_of (λ parent. not (is_version_id parent)) change.parents ≡ false =
      ground arith in
    let apart : length (distinct_from [] change.parents) ≡ length change.parents = ground arith in
    (
      ground arith,
      ground arith,
      distinct_from-length change.parents apart,
      ground arith,
      λ parent i. each_named parent i named,
      validate_payload-HasPayload change max paid,
    )
  where
    each_named :
        (parent : Text)
        → In parent change.parents
        → some_of (λ parent. not (is_version_id parent)) change.parents ≡ false
        → is_version_id parent ≡ true
    each_named parent i named =
        ground
          (arith, some_of_member (λ parent. not (is_version_id parent)) parent change.parents i)

-- An event manifest that is accepted has from 1 to MAX_EVENT_CHANGES changes and a positive Lamport
-- value, and each of its changes is named below its kind, has a SHA-256 as semantic hash, has at most
-- MAX_PARENTS_PER_CHANGE parents, no two alike and each a version's identifier, and has a payload
-- exactly if it is a write, whose reference keeps to the size that is allowed.
pub validate_event_manifest-IsSound :
    (is_date : Text → Bool) (manifest : EventManifest) (max : ℕ)
    → validate_event_manifest is_date manifest max ≡ none
    → (0 < length manifest.changes)
      × (length manifest.changes ≤ max_event_changes)
      × (0 < manifest.lamport)
      × ((change : ResourceChange) → In change manifest.changes → IsSound change max)
unfolding validate_event_manifest
validate_event_manifest-IsSound is_date manifest max h =
    let each_one : each (λ change. validate_resource_change change max) manifest.changes ≡ none =
      ground arith in
    (
      ground arith,
      ground arith,
      ground arith,
      λ change i. validate_resource_change-IsSound change max (
          each-none (λ change. validate_resource_change change max) manifest.changes change each_one
            i),
    )

abbrev IsAbove : Option Text → Text → Type 0
IsAbove none id = Unit
IsAbove (some previous) id = text_lt previous id ≡ true

-- Each text is below all that follow.
abbrev pub Ascends : List Text → Type 0
Ascends [] = Unit
Ascends (x ∷ xs) = ((y : Text) → In y xs → text_lt x y ≡ true) × Ascends xs

abbrev pub ids : List CheckpointResource → List Text
ids resources = map (λ (r : CheckpointResource). r.resource_id) resources

IsAbove-trans :
    (previous : Option Text) (x y : Text)
    → IsAbove previous x
    → text_lt x y ≡ true
    → IsAbove previous y
IsAbove-trans none x y h k = tt
IsAbove-trans (some p) x y h k = text_lt_trans p x y h k

validate_resources-Ascends :
    (previous : Option Text) (resources : List CheckpointResource) (max : ℕ)
    → validate_resources previous resources max ≡ none
    → ((y : Text) → In y (ids resources) → IsAbove previous y)
      × Ascends (ids resources)
      × ((r : CheckpointResource) → In r resources → validate_checkpoint_resource r max ≡ none)
unfolding validate_resources
validate_resources-Ascends previous [] max h = (λ y i. absurd i, tt, λ r i. absurd i)
validate_resources-Ascends previous (x ∷ xs) max h =
    let a : validate_checkpoint_resource x max ≡ none = ground arith in
    let b : is_unsorted previous x.resource_id ≡ false = ground arith in
    let h2 : validate_resources (some x.resource_id) xs max ≡ none = ground arith in
    let (above, ascends, valid) = validate_resources-Ascends (some x.resource_id) xs max h2 in
    let first : IsAbove previous x.resource_id = sorted previous b in
    (
      λ y i. elim i [
        | inl e ↦ rw e first
        | inr j ↦ IsAbove-trans previous x.resource_id y first (above y j)
      ],
      (above, ascends),
      λ r i. elim i [ inl e ↦ rw e a | inr j ↦ valid r j ],
    )
  where
    sorted :
        (previous : Option Text)
        → is_unsorted previous x.resource_id ≡ false
        → IsAbove previous x.resource_id
    sorted none b = tt
    sorted (some p) b = ground arith

Ascends-Distinct : (xs : List Text) → Ascends xs → Distinct xs
Ascends-Distinct [] h = tt
Ascends-Distinct (x ∷ xs) h = (absent (has x xs) refl, Ascends-Distinct xs h.1)
  where
    absent : (b : Bool) → has x xs ≡ b → has x xs ≡ false
    absent false e = e
    absent true e = absurd (ground (arith, h.0 x ((has-In x xs).0 e), text_lt_irrefl x))

-- A checkpoint manifest that is accepted is of the device and the Lamport value of its header, its
-- resources have ascending identifiers, so no two alike, and each folds a version that is named by
-- the identifier of one.
pub validate_checkpoint_manifest-Ascends :
    (is_date : Text → Bool) (manifest : CheckpointManifest) (device_id : Text) (lamport max : ℕ)
    → validate_checkpoint_manifest is_date manifest device_id lamport max ≡ none
    → (manifest.device_id ≡ device_id)
      × (manifest.lamport ≡ lamport)
      × Ascends (ids manifest.resources)
      × Distinct (ids manifest.resources)
      × ((r : CheckpointResource) → In r manifest.resources → is_version_id r.version_id ≡ true)
unfolding validate_checkpoint_manifest validate_checkpoint_resource
validate_checkpoint_manifest-Ascends is_date manifest device_id lamport max h =
    let h4 : validate_resources none manifest.resources max ≡ none = ground arith in
    let (above, ascends, valid) = validate_resources-Ascends none manifest.resources max h4 in
    (
      ground (arith, text_eq.equals_iff manifest.device_id device_id),
      ground arith,
      ascends,
      Ascends-Distinct (ids manifest.resources) ascends,
      λ r i. ground (arith, valid r i),
    )
