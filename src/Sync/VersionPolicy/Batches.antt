-- ===== src/Sync/VersionPolicy/Batches.antt =====
-- src/sync/versionPolicy.ts, `publishInBatches`: the events into which what is published is split.
use cursor_setting_sync.Base.{
  ℕ, zero, suc, ◌+◌, ◌*◌, Bool, ◌&&◌, ◌||◌, Option, none, some, List, [], ◌∷◌, ltb, leb, length,
  if◌then◌else◌,
}
use cursor_setting_sync.Base.Texts.{Text}
use cursor_setting_sync.Types.{JsonFields}

-- `MAX_EVENT_CHANGES` and `EVENT_MANIFEST_BYTE_BUDGET`.
abbrev pub max_event_changes : ℕ
max_event_changes = 10000

abbrev pub event_manifest_byte_budget : ℕ
event_manifest_byte_budget = 4 * 1024 * 1024

-- The batch that is being filled: the changes that it holds and their estimated bytes.
pub record Load : Type 0 where
  pub changes : ℕ
  pub estimated_bytes : ℕ

-- `admit`, refused.
unfoldable pub is_full : Load → ℕ → Bool
is_full load cost =
    ltb 0 load.changes
    && (leb max_event_changes load.changes
        || ltb event_manifest_byte_budget (load.estimated_bytes + cost))

-- What `admit` adds.
unfoldable pub loaded : Load → ℕ → Load
loaded load cost = record {
  changes = load.changes + 1;
  estimated_bytes = load.estimated_bytes + cost;
}

module _ {A : Type 0} (cost_of : A → ℕ) where
  -- One of the two inner loops: the items that the batch takes, those that are left, and its load.
  unfoldable pub fill : Load → List A → List A × List A × Load
  fill load [] = ([], [], load)
  fill load (item ∷ items) =
      let (taken, left, last) = fill (loaded load (cost_of item)) items in
      if is_full load (cost_of item) then ([], item ∷ items, load) else (item ∷ taken, left, last)

abbrev pub no_load : Load
no_load = record { changes = 0; estimated_bytes = 0 }

-- The outer loop, for the two sorts of items and what each costs. The batches are what `publish` is
-- called with, in order. A round takes an item, so the number of items is fuel enough.
module _ {S D : Type 0} (snapshot_cost : S → ℕ) (deletion_cost : D → ℕ) where
  unfoldable pub batches_from : ℕ → List S → List D → List (List S × List D)
  batches_from zero snapshots deletions = (snapshots, deletions) ∷ []
  batches_from (suc fuel) snapshots deletions =
      let (some_snapshots, snapshots_left, load) = fill snapshot_cost no_load snapshots in
      let (some_deletions, deletions_left, _) = fill deletion_cost load deletions in
      let rest = batches_from fuel snapshots_left deletions_left in
      if ltb 0 (length snapshots_left) || ltb 0 (length deletions_left)
      then (some_snapshots, some_deletions) ∷ rest
      else (some_snapshots, some_deletions) ∷ []

  -- `publishInBatches`.
  unfoldable pub publish_in_batches : List S → List D → List (List S × List D)
  publish_in_batches snapshots deletions =
      batches_from (length snapshots + length deletions) snapshots deletions

-- `estimatedChangeRecordBytes`, of an item's identifier, parents and metadata. `printed` is the length
-- of `JSON.stringify(metadata)`.
abbrev parent_bytes : List Text → ℕ
parent_bytes [] = 0
parent_bytes (parent ∷ parents) = length parent + 4 + parent_bytes parents

abbrev pub parents_bytes : Option (List Text) → ℕ
parents_bytes none = 0
parents_bytes (some parents) = parent_bytes parents

abbrev pub metadata_bytes : (JsonFields → ℕ) → Option JsonFields → ℕ
metadata_bytes printed none = 0
metadata_bytes printed (some metadata) = printed metadata

unfoldable pub estimated_change_record_bytes :
    (JsonFields → ℕ) → Text → Option (List Text) → Option JsonFields → ℕ
estimated_change_record_bytes printed resource_id parents metadata =
    length resource_id + parents_bytes parents + metadata_bytes printed metadata + 256
