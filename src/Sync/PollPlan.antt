-- ===== src/Sync/PollPlan.antt =====
-- src/sync/pollPlan.ts: the periodic loops of a window.
use cursor_setting_sync.Base.{
  ℕ, Bool, true, false, ◌&&◌, List, [], ◌∷◌, ◌≡◌, refl, arith, nat_beq, if◌then◌else◌, Bool-cases,
  length, not, inl, inr,
}
use cursor_setting_sync.Sync.Scopes.{SyncScope, all, files, chat, sync_scope_covers}

pub record PollPlanEntry : Type 0 where
  pub scope : SyncScope
  pub interval_ms : ℕ

-- `createPollPlan`.
unfoldable pub create_poll_plan : ℕ → ℕ → Bool → List PollPlanEntry
create_poll_plan files_interval_ms chat_interval_ms sync_chat =
    if sync_chat && nat_beq files_interval_ms chat_interval_ms
    then record { scope = all; interval_ms = files_interval_ms } ∷ []
    else (let files_entry : PollPlanEntry = record {
      scope = files;
      interval_ms = files_interval_ms;
    } in
        if sync_chat
        then files_entry ∷ record { scope = chat; interval_ms = chat_interval_ms } ∷ []
        else files_entry ∷ [])

-- The intervals at which a plan polls a scope.
abbrev pub intervals_of : SyncScope → List PollPlanEntry → List ℕ
intervals_of scope [] = []
intervals_of scope (entry ∷ plan) =
    let rest = intervals_of scope plan in
    if sync_scope_covers entry.scope scope then entry.interval_ms ∷ rest else rest

-- Whatever the settings: the files are polled by one loop, at their interval; the chats are polled by
-- one loop, at theirs, if they are synchronized, and by none else; and the plan has two loops only
-- where the two intervals differ.
pub create_poll_plan-intervals :
    (files_ms chat_ms : ℕ) (sync_chat : Bool)
    → let plan = create_poll_plan files_ms chat_ms sync_chat in
      (intervals_of files plan ≡ files_ms ∷ [])
      × (intervals_of chat plan ≡ (if sync_chat then chat_ms ∷ [] else []))
      × (length plan ≡ (if sync_chat && not (nat_beq files_ms chat_ms) then 2 else 1))
unfolding create_poll_plan sync_scope_covers
create_poll_plan-intervals files_ms chat_ms false = (refl, refl, refl)
create_poll_plan-intervals files_ms chat_ms true = elim (Bool-cases (nat_beq files_ms chat_ms)) [
  | inl t ↦ rw t (refl, ground arith, refl)
  | inr f ↦ rw f (refl, refl, refl)
]
