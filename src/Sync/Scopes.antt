-- ===== src/Sync/Scopes.antt =====
-- src/sync/cycleQueue.ts: the scopes of a cycle.
use cursor_setting_sync.Base.{
  Bool, true, false, ◌&&◌, ◌||◌, List, ◌≡◌, refl, ◌↔◌, arith, StrictEq, ◌==◌, nat_eq, In,
  if◌then◌else◌,
}
use cursor_setting_sync.Base.Sets.{has, has-In}

pub data SyncScope : Type 0 where
  all files chat remote : SyncScope

abbrev pub scope_beq : SyncScope → SyncScope → Bool
scope_beq all all = true
scope_beq files files = true
scope_beq chat chat = true
scope_beq remote remote = true
scope_beq _ _ = false

pub scope_beq_iff : (a b : SyncScope) → (scope_beq a b ≡ true) ↔ (a ≡ b)
scope_beq_iff a b = (λ h. ground arith, λ h. ground arith)

instance abbrev pub scope_eq : StrictEq SyncScope
scope_eq = record { equals = scope_beq; equals_iff = scope_beq_iff }

-- `mergeSyncScopes`.
unfoldable pub merge_sync_scopes : List SyncScope → SyncScope
merge_sync_scopes scopes =
    if has all scopes || (has files scopes && has chat scopes)
    then all
    else if has files scopes
    then files
    else if has chat scopes
    then chat
    else remote

-- `syncScopeCovers`.
unfoldable pub sync_scope_covers : SyncScope → SyncScope → Bool
sync_scope_covers cover requested = cover == all || cover == requested || requested == remote

merge-covers_one :
    (scopes : List SyncScope) (s : SyncScope)
    → has s scopes ≡ true
    → sync_scope_covers (merge_sync_scopes scopes) s ≡ true
unfolding merge_sync_scopes sync_scope_covers
merge-covers_one scopes all h = ground arith
merge-covers_one scopes _ h = ground arith

-- The merged scope covers every scope that was asked for.
pub merge-covers :
    (scopes : List SyncScope) (s : SyncScope)
    → In s scopes
    → sync_scope_covers (merge_sync_scopes scopes) s ≡ true
merge-covers scopes s i = merge-covers_one scopes s ((has-In s scopes).1 i)

merge_least_has :
    (scopes : List SyncScope) (cover : SyncScope)
    → (has all scopes ≡ true → sync_scope_covers cover all ≡ true)
    → (has files scopes ≡ true → sync_scope_covers cover files ≡ true)
    → (has chat scopes ≡ true → sync_scope_covers cover chat ≡ true)
    → sync_scope_covers cover (merge_sync_scopes scopes) ≡ true
unfolding merge_sync_scopes sync_scope_covers
merge_least_has scopes all f g h = refl
merge_least_has scopes _ f g h = ground arith

-- No smaller scope would do: whatever covers all that was asked for covers the merged scope.
pub merge_least :
    (scopes : List SyncScope) (cover : SyncScope)
    → ((s : SyncScope) → In s scopes → sync_scope_covers cover s ≡ true)
    → sync_scope_covers cover (merge_sync_scopes scopes) ≡ true
merge_least scopes cover h =
    merge_least_has scopes cover (λ t. h all ((has-In all scopes).0 t))
      (λ t. h files ((has-In files scopes).0 t)) (λ t. h chat ((has-In chat scopes).0 t))
