-- ===== src/Protocol/Reconciler/Graph.antt =====
-- src/protocol/reconciler.ts: the version graph of each resource, `buildResourceGraphs`.
use cursor_setting_sync.Base.{ℕ, suc, Option, none, some, List, [], ◌∷◌}
use cursor_setting_sync.Base.Texts.{Text, text_eq}
use cursor_setting_sync.Base.Maps.{Map, get, set}
use cursor_setting_sync.Types.{
  ResourceTip, ResourceKind, ResourceChange, DecryptedEvent, CheckpointResource, CheckpointManifest,
}
use cursor_setting_sync.Types.Kinds.{supported_kind}
use cursor_setting_sync.Protocol.VersionId.{version_id, before_hash, after_hash, to_number}

pub record VersionNode : Type 0 where
  pub tip : ResourceTip
  pub parents : List Text

abbrev pub Graph : Type 0
Graph = Map Text VersionNode

abbrev pub Graphs : Type 0
Graphs = Map Text Graph

abbrev pub or_empty : Option Graph → Graph
or_empty none = []
or_empty (some g) = g

-- `resources.get(id) ?? new Map()`, then a write of the version and of the graph.
unfoldable pub add_version : Graphs → Text → Text → VersionNode → Graphs
add_version resources resource_id version node =
    set resources resource_id (set (or_empty (get resources resource_id)) version node)

-- The tip of a resource that a checkpoint folded.
unfoldable pub folded_tip : CheckpointResource → ResourceKind → ResourceTip
folded_tip folded kind = record {
  version_id = folded.version_id;
  event_hash = before_hash folded.version_id;
  change_index = to_number (after_hash folded.version_id);
  kind = kind;
  lamport = folded.lamport;
  created_at = none;
  device_id = folded.device_id;
  operation = folded.operation;
  semantic_hash = folded.semantic_hash;
  payload = folded.payload;
  parents = [];
  producer = folded.producer;
  metadata = folded.metadata;
}

unfoldable pub add_folded : Graphs → CheckpointResource → Graphs
add_folded resources folded = elim (supported_kind folded.kind) [
  | none ↦ resources
  | some kind ↦
      add_version resources folded.resource_id folded.version_id
        (record { tip = folded_tip folded kind; parents = [] })
]

unfoldable pub fold_resources : Graphs → List CheckpointResource → Graphs
fold_resources resources [] = resources
fold_resources resources (folded ∷ rest) = fold_resources (add_folded resources folded) rest

-- The tip of one change of an event.
unfoldable pub change_tip : DecryptedEvent → ResourceChange → ℕ → ResourceKind → ResourceTip
change_tip event change change_index kind = record {
  version_id = version_id event.event_hash change_index;
  event_hash = event.event_hash;
  change_index = some change_index;
  kind = kind;
  lamport = event.manifest.lamport;
  created_at = some event.manifest.created_at;
  device_id = event.stored.header.device_id;
  operation = change.operation;
  semantic_hash = change.semantic_hash;
  payload = change.payload;
  parents = change.parents;
  producer = event.manifest.producer;
  metadata = change.metadata;
}

unfoldable pub add_change : Graphs → DecryptedEvent → ResourceChange → ℕ → Graphs
add_change resources event change change_index = elim (supported_kind change.kind) [
  | none ↦ resources
  | some kind ↦
      add_version resources change.resource_id (version_id event.event_hash change_index)
        (record { tip = change_tip event change change_index kind; parents = change.parents })
]

-- `changes.forEach((change, changeIndex) => …)`.
unfoldable pub add_changes : Graphs → DecryptedEvent → List ResourceChange → ℕ → Graphs
add_changes resources event [] change_index = resources
add_changes resources event (change ∷ rest) change_index =
    add_changes (add_change resources event change change_index) event rest (suc change_index)

unfoldable pub add_events : Graphs → List DecryptedEvent → Graphs
add_events resources [] = resources
add_events resources (event ∷ rest) =
    add_events (add_changes resources event event.manifest.changes 0) rest

abbrev pub folded_resources : Option CheckpointManifest → List CheckpointResource
folded_resources none = []
folded_resources (some checkpoint) = checkpoint.resources

unfoldable pub build_resource_graphs : List DecryptedEvent → Option CheckpointManifest → Graphs
build_resource_graphs events checkpoint =
    add_events (fold_resources [] (folded_resources checkpoint)) events
