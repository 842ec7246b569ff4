-- ===== src/Protocol/Reconciler/Grouping.antt =====
-- src/protocol/reconciler.ts, `acceptContiguousStreams`: the events by device.
use cursor_setting_sync.Base.{
  ◌≡◌, sym, ap, ◌∙◌, subst, inl, inr, Option, some, List, [], ◌∷◌, ◌++◌, arith, In, In-append,
  filter, if◌then◌else◌, option_eq, Bool-cases, Option-cases, eq_cases,
}
use cursor_setting_sync.Base.Texts.{Text, text_eq}
use cursor_setting_sync.Base.Maps.{get, set, get-set, set-HasKeys, HasKeys}
use cursor_setting_sync.Types.{DecryptedEvent, CheckpointManifest, LocalSyncState}
use cursor_setting_sync.Protocol.Reconciler.Streams.{
  Groups, device_of, push_event, group_events, is_skipped, or_none,
}

-- The events of one device.
abbrev pub of_device : Text → List DecryptedEvent → List DecryptedEvent
of_device device = filter (λ event. text_eq.equals (device_of event) device)

-- The groups have one entry for a device, with events of that device.
abbrev pub AreGroups : Groups → Type 0
AreGroups groups =
    HasKeys groups
    × ((device : Text) (events : List DecryptedEvent) (x : DecryptedEvent)
        → get groups device ≡ some events
        → In x events
        → device_of x ≡ device)

module _ (state : LocalSyncState) (checkpoint : Option CheckpointManifest) where
  pub push-AreGroups :
      (groups : Groups) (event : DecryptedEvent)
      → AreGroups groups
      → AreGroups (push_event groups event)
  unfolding push_event
  push-AreGroups groups event (one, of) = (set-HasKeys groups (device_of event) _ one, of')
    where
      new : List DecryptedEvent
      new = or_none (get groups (device_of event)) ++ event ∷ []

      old :
          (x : DecryptedEvent)
          → In x (or_none (get groups (device_of event)))
          → device_of x ≡ device_of event
      old x i = elim (Option-cases (get groups (device_of event))) [
        | inl e ↦ absurd (subst (λ (o : Option (List DecryptedEvent)). In x (or_none o)) e i)
        | inr (xs, e) ↦
            of (device_of event) xs x e
              (subst (λ (o : Option (List DecryptedEvent)). In x (or_none o)) e i)
      ]

      of' :
          (device : Text) (events : List DecryptedEvent) (x : DecryptedEvent)
          → get (set groups (device_of event) new) device ≡ some events
          → In x events
          → device_of x ≡ device
      of' device events x h i = elim (eq_cases (device_of event) device) [
        | inl (t, e) ↦
            let same : new ≡ events =
              ground (arith, get-set groups (device_of event) device new, t) in
            elim (In-append x _ _ (subst (In x) (sym same) i)) [
              | inl j ↦ old x j ∙ e
              | inr (inl p) ↦ ap device_of p ∙ e
              | inr (inr n) ↦ absurd n
            ]
        | inr (f, _) ↦
            of device events x (ground (arith, get-set groups (device_of event) device new, f)) i
      ]

  pub step-AreGroups :
      (groups : Groups) (event : DecryptedEvent)
      → AreGroups groups
      → AreGroups (if is_skipped state checkpoint event then groups else push_event groups event)
  step-AreGroups groups event h = elim (Bool-cases (is_skipped state checkpoint event)) [
    | inl t ↦ rw t h
    | inr f ↦ rw f (push-AreGroups groups event h)
  ]

  pub group_events-AreGroups :
      (groups : Groups) (events : List DecryptedEvent)
      → AreGroups groups
      → AreGroups (group_events state checkpoint groups events)
  unfolding group_events
  group_events-AreGroups groups [] h = h
  group_events-AreGroups groups (event ∷ rest) h =
      group_events-AreGroups
        (if is_skipped state checkpoint event then groups else push_event groups event) rest
        (step-AreGroups groups event h)
