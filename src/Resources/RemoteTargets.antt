-- ===== src/Resources/RemoteTargets.antt =====
-- src/resources/remoteTargets.ts: the folders that were opened on each remote host, merged.
pub mod Folders
pub mod Union
use cursor_setting_sync.Base.{
  ℕ, Bool, true, false, not, Option, none, some, List, [], ◌∷◌, ◌++◌, ltb, leb, length,
  if◌then◌else◌, ◌==◌,
}
use cursor_setting_sync.Base.Texts.{Text, text_eq, units}
use cursor_setting_sync.Base.Maps.{Map, get, set, keys}
use cursor_setting_sync.Base.Sets.{has}
use cursor_setting_sync.Types.{JsonValue, JsonItems, nil, cons, JsonFields, end, field, string}
use cursor_setting_sync.Types.Json.{as_text, as_object, as_items}

-- `MAX_HOSTS` and `MAX_FOLDERS_PER_HOST`.
abbrev pub max_hosts : ℕ
max_hosts = 500

abbrev pub max_folders_per_host : ℕ
max_folders_per_host = 200

abbrev pub Hosts : Type 0
Hosts = Map Text (List Text)

pub record ParsedRemoteTargets : Type 0 where
  pub field_name : Text
  pub hosts : Hosts

abbrev pub cons_text : Option Text → Option (List Text) → Option (List Text)
cons_text (some text) (some texts) = some (text ∷ texts)
cons_text none texts = none
cons_text (some text) none = none

-- The loop over one host's folders: `none` at the first that is not a string.
unfoldable pub parse_folders : JsonItems → Option (List Text)
parse_folders nil = some []
parse_folders (cons value items) =
    let rest = parse_folders items in cons_text (as_text (some value)) rest

abbrev pub add_host : Option Hosts → Text → Option (List Text) → Option Hosts
add_host (some hosts) host (some folders) = some (set hosts host folders)
add_host none host folders = none
add_host (some hosts) host none = none

abbrev pub folders_of_items : Option JsonItems → Option (List Text)
folders_of_items none = none
folders_of_items (some items) = parse_folders items

unfoldable pub parse_hosts : Option Hosts → JsonFields → Option Hosts
parse_hosts hosts end = hosts
parse_hosts hosts (field host value rest) =
    parse_hosts (add_host hosts host (folders_of_items (as_items value))) rest

abbrev pub parsed : Text → Option Hosts → Option ParsedRemoteTargets
parsed name none = none
parsed name (some hosts) = some (record { field_name = name; hosts = hosts })

abbrev pub parse_wrapped : Text → Option JsonFields → Option ParsedRemoteTargets
parse_wrapped name none = none
parse_wrapped name (some fields) = parsed name (parse_hosts (some []) fields)

abbrev pub parse_fields : Option JsonFields → Option ParsedRemoteTargets
parse_fields none = none
parse_fields (some end) = none
parse_fields (some (field name value end)) = parse_wrapped name (as_object (some value))
parse_fields (some (field name value (field other more rest))) = none

-- `parse`, of what `JSON.parse` returns; `none` is what it throws.
unfoldable pub parse : Option JsonValue → Option ParsedRemoteTargets
parse value = parse_fields (as_object value)

-- `hosts[host] ?? []`.
abbrev pub folders_of : Option (List Text) → List Text
folders_of none = []
folders_of (some folders) = folders

-- The loop over a host's folders, with its break.
unfoldable pub collect : List Text → List Text → List Text
collect folders [] = folders
collect folders (folder ∷ rest) =
    let skipped = collect folders rest in
    let pushed = collect (folders ++ folder ∷ []) rest in
    if has folder folders
    then skipped
    else if leb max_folders_per_host (length (folders ++ folder ∷ []))
    then folders ++ folder ∷ []
    else pushed

abbrev pub proto : Text
proto = units "__proto__"

-- `merged[host] = folders`. `merged` is an ordinary object: under the name `__proto__` the write goes to
-- its prototype, and no entry is made.
abbrev pub write_host : Hosts → Text → List Text → Hosts
write_host merged host folders = if host == proto then merged else set merged host folders

-- The first loop, with `merged` and `hosts`.
unfoldable pub enter_hosts : Hosts → List Text → List Text → Hosts × List Text
enter_hosts merged hosts [] = (merged, hosts)
enter_hosts merged hosts (host ∷ more) =
    let skipped = enter_hosts merged hosts more in
    let entered = enter_hosts (write_host merged host []) (hosts ++ host ∷ []) more in
    if has host (keys merged) then skipped else entered

module _ (preferred other : Hosts) where
  unfoldable pub fill_hosts : Hosts → List Text → Hosts
  fill_hosts merged [] = merged
  fill_hosts merged (host ∷ hosts) =
      fill_hosts
        (write_host merged host
          (collect [] (folders_of (get preferred host) ++ folders_of (get other host))))
        hosts

  -- The merge of the host maps; `none` is a conflict.
  unfoldable pub merge_hosts : Option Hosts
  merge_hosts =
      let (merged, hosts) = enter_hosts [] [] (keys preferred ++ keys other) in
      if ltb max_hosts (length hosts) then none else some (fill_hosts merged hosts)

abbrev pub wrapped : Text → Option Hosts → Option ParsedRemoteTargets
wrapped name none = none
wrapped name (some hosts) = some (record { field_name = name; hosts = hosts })

abbrev pub merge_parsed :
    Option ParsedRemoteTargets → Option ParsedRemoteTargets → Option ParsedRemoteTargets
merge_parsed none other = none
merge_parsed (some preferred) none = none
merge_parsed (some preferred) (some other) =
    if not (preferred.field_name == other.field_name)
    then none
    else wrapped preferred.field_name (merge_hosts preferred.hosts other.hosts)

-- `mergeRemoteTargetsBuffers`, of what `JSON.parse` makes of the two contents; the result is what is
-- printed, and `none` a conflict.
unfoldable pub merge_remote_targets :
    Option JsonValue → Option JsonValue → Option ParsedRemoteTargets
merge_remote_targets preferred other = merge_parsed (parse preferred) (parse other)
