-- ===== src/Tests/Merges.antt =====
-- src/resources/remoteTargets.ts: the theorem on the merge, at hosts of both sides, one of which is named
-- `__proto__`.
use cursor_setting_sync.Base.{◌≡◌, refl, ◌<◌, ◌↔◌, none, some, [], ◌∷◌, list_beq}
use cursor_setting_sync.Base.Texts.{Text, units, text_eq}
use cursor_setting_sync.Base.Maps.{get, set}
use cursor_setting_sync.Base.Sets.{has}
use cursor_setting_sync.Resources.RemoteTargets.{
  Hosts, merge_hosts, enter_hosts, fill_hosts, collect, max_hosts, proto,
}
use cursor_setting_sync.Resources.RemoteTargets.Union.{
  named, count_hosts, merged_folders, merge_hosts_lem,
}

abbrev here : Hosts
here = (units "server", units "/a" ∷ units "/b" ∷ []) ∷ (proto, units "/e" ∷ []) ∷ []

abbrev there : Hosts
there = (units "server", units "/b" ∷ units "/c" ∷ []) ∷ (units "other", units "/d" ∷ []) ∷ []

proto_lost :
    merge_hosts here there
    ≡ some (
        (units "server", units "/a" ∷ units "/b" ∷ units "/c" ∷ [])
        ∷ (units "other", units "/d" ∷ [])
        ∷ [])
unfolding merge_hosts enter_hosts fill_hosts collect get set has list_beq
proto_lost = refl

merge_hosts_lem_example :
    ((merge_hosts here there ≡ none) ↔ (max_hosts < count_hosts (named here there)))
    × ((merged : Hosts) (host : Text)
        → merge_hosts here there ≡ some merged
        → get merged host ≡ merged_folders here there host)
merge_hosts_lem_example = merge_hosts_lem here there
