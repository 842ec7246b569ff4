-- ===== src/Tests/Data.antt =====
-- The data of the tests: versions, events of src/protocol/repository.ts and a local state.
use cursor_setting_sync.Base.{ℕ, ◌+◌, Option, none, some, List, [], ◌∷◌, ◌++◌, Ordering}
use cursor_setting_sync.Base.Texts.{Text, units}
use cursor_setting_sync.Base.Maps.{Map}
use cursor_setting_sync.Types.{
  ResourceTip, ResourceChange, ResourceOperation, put, delete, settings, DecryptedEvent,
  LocalSyncState, StreamCursor, SyncConflict,
}
use cursor_setting_sync.Protocol.Reconciler.Graph.{VersionNode, Graph}
use cursor_setting_sync.Protocol.Reconciler.Conflicts.{Host}

abbrev pub tip_of : Text → Text → ℕ → ResourceOperation → Text → List Text → ResourceTip
tip_of event_hash device lamport operation semantic_hash parents = record {
  version_id = event_hash;
  event_hash = event_hash;
  change_index = some 0;
  kind = settings;
  lamport = lamport;
  created_at = none;
  device_id = device;
  operation = operation;
  semantic_hash = semantic_hash;
  payload = none;
  parents = parents;
  producer = none;
  metadata = none;
}

-- A base version, two edits of it on two computers, and a deletion on one.
abbrev pub base : ResourceTip
base = tip_of (units "e1") (units "A") 1 put (units "one") []

abbrev pub edit_here : ResourceTip
edit_here = tip_of (units "e2") (units "A") 2 put (units "two") (units "e1" ∷ [])

abbrev pub edit_there : ResourceTip
edit_there = tip_of (units "e3") (units "B") 2 put (units "three") (units "e1" ∷ [])

abbrev pub removal : ResourceTip
removal = tip_of (units "e4") (units "B") 5 delete (units "gone") (units "e1" ∷ [])

abbrev pub node_of : ResourceTip → VersionNode
node_of tip = record { tip = tip; parents = tip.parents }

abbrev pub forked_graph : Graph
forked_graph =
    (units "e1", node_of base)
    ∷ (units "e2", node_of edit_here)
    ∷ (units "e3", node_of edit_there)
    ∷ []

abbrev pub host : Host
host = record {
  random_uuid = λ call. units "uuid-" ++ (b'0' + call) ∷ [];
  iso_date = λ call. units "date-" ++ (b'0' + call) ∷ [];
  now = 5000000000;
  parse_date = λ date. some 4999999999;
  locale_compare = λ left right. Ordering.eq;
}

abbrev pub hash : Text → Text
hash seed = seed ++ units "00000000000000000000000000000000000000000000000000000000000000"

abbrev pub change_of : Text → Text → List Text → ResourceChange
change_of resource_id semantic_hash parents = record {
  resource_id = resource_id;
  kind = units "settings";
  operation = put;
  parents = parents;
  semantic_hash = semantic_hash;
  payload = none;
  metadata = none;
}

abbrev pub event_of : Text → Text → ℕ → Option Text → ℕ → List ResourceChange → DecryptedEvent
event_of event_hash device sequence previous lamport changes = record {
  path = [];
  file_name = [];
  event_hash = event_hash;
  stored = record {
    header = record {
      protocol_version = 1;
      envelope_version = 1;
      repository_id = units "repository";
      device_id = device;
      sequence = sequence;
      previous_event_hash = previous;
    };
    nonce = [];
    ciphertext = [];
    tag = [];
  };
  manifest = record {
    event_version = 1;
    created_at = [];
    lamport = lamport;
    producer = none;
    changes = changes;
  };
}

abbrev pub state_of : Map Text StreamCursor → ℕ → List SyncConflict → LocalSyncState
state_of streams lamport conflicts = record {
  version = 1;
  repository_id = units "repository";
  device = record { device_id = units "B"; name = units "B"; created_at = [] };
  next_sequence = 1;
  lamport = lamport;
  own_stream_head = none;
  streams = streams;
  checkpoint = none;
  tips = [];
  projections = [];
  conflicts = conflicts;
  pending_database_changes = [];
  retired_devices = [];
  last_sync_at = none;
  last_error = none;
}

abbrev pub conflict_of : Text → Option Text → SyncConflict
conflict_of conflict_id resolved_at = record {
  conflict_id = conflict_id;
  resource_id = units "r";
  kind = settings;
  base_version_id = none;
  tip_version_ids = [];
  created_at = [];
  resolved_at = resolved_at;
}
