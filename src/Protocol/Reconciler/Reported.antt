-- ===== src/Protocol/Reconciler/Reported.antt =====
-- src/protocol/reconciler.ts: the conflicts that `EventReconciler.reconcile` reports, in the history that
-- it leaves.
use cursor_setting_sync.Base.{
  ℕ, ◌≡◌, refl, sym, ap, ◌∙◌, subst, ◌⊎◌, inl, inr, Bool, true, false, ◌&&◌, not, Option, none,
  some, List, [], ◌∷◌, ◌++◌, arith, ltb, length, map, find, In, In-append, In-map, Bool-cases,
  Option-cases, option_eq, find-In,
}
use cursor_setting_sync.Base.Texts.{Text, text_eq}
use cursor_setting_sync.Base.Maps.{Map}
use cursor_setting_sync.Base.Sets.{has}
use cursor_setting_sync.Base.Sort.{sort}
use cursor_setting_sync.Types.{
  ResourceTip, SyncConflict, DecryptedEvent, LocalSyncState, LocalProjection, CheckpointManifest,
}
use cursor_setting_sync.Protocol.Reconciler.Streams.{ok}
use cursor_setting_sync.Protocol.Reconciler.Cursors.{accepted_by}
use cursor_setting_sync.Protocol.Canonical.{compare_code_units}
use cursor_setting_sync.Protocol.Reconciler.Graph.{Graph, Graphs, build_resource_graphs}
use cursor_setting_sync.Protocol.Reconciler.Tips.{calculate_tips}
use cursor_setting_sync.Protocol.Reconciler.Order.{choose_active_tip}
use cursor_setting_sync.Protocol.Reconciler.Conflicts.{
  Host, existing_or_new_conflict, new_conflict, update_first, drop_lost_base, is_open_over,
  merge_conflict_history,
}
use cursor_setting_sync.Protocol.Reconciler.Reconcile.{
  Round, first_round, reconcile_resource, reconcile_resources, are_equivalent, reconcile,
  ReconcileResult, apply_accepted,
}
use cursor_setting_sync.Protocol.Reconciler.History.{ids, merge-keeps_open, merge-keeps_new}

-- The same conflict but for its base: of the same identifier and resource, over the same versions, and
-- both open or resolved alike.
abbrev pub IsSame : SyncConflict → SyncConflict → Type 0
IsSame a b =
    (a.conflict_id ≡ b.conflict_id)
    × (a.resource_id ≡ b.resource_id)
    × (a.tip_version_ids ≡ b.tip_version_ids)
    × (a.resolved_at ≡ b.resolved_at)

drop_lost_base-IsSame :
    (graph : Graph) (conflict : SyncConflict) → IsSame (drop_lost_base graph conflict) conflict
unfolding drop_lost_base
drop_lost_base-IsSame graph conflict = ground arith

-- A list has the conflict, but for its base.
abbrev Has : SyncConflict → List SyncConflict → Type 0
Has c xs = (kept : SyncConflict) × In kept xs × IsSame kept c

module _ (graph : Graph) (p : SyncConflict → Bool) where
  ids-update_first :
      (xs : List SyncConflict) → ids (update_first p (drop_lost_base graph) xs) ≡ ids xs
  unfolding update_first
  ids-update_first [] = refl
  ids-update_first (x ∷ xs) = ground (arith, ids-update_first xs, (drop_lost_base-IsSame graph x).0)

  update_first-Has :
      (c : SyncConflict) (xs : List SyncConflict)
      → Has c xs
      → Has c (update_first p (drop_lost_base graph) xs)
  unfolding update_first
  update_first-Has c [] (k, i, s) = absurd i
  update_first-Has c (x ∷ xs) (k, inl e, s) = elim (Bool-cases (p x)) [
    | inl t ↦
        rw t (drop_lost_base graph x, inl refl, ground (arith, e, s, drop_lost_base-IsSame graph x))
    | inr f ↦ rw f (k, inl e, s)
  ]
  update_first-Has c (x ∷ xs) (k, inr i, s) = elim (Bool-cases (p x)) [
    | inl t ↦ rw t (k, inr i, s)
    | inr f ↦ let (m, j, r) = update_first-Has c xs (k, i, s) in rw f (m, inr j, r)
  ]

  find-Has :
      (xs : List SyncConflict) (match : SyncConflict)
      → find p xs ≡ some match
      → Has match (update_first p (drop_lost_base graph) xs) × (p match ≡ true)
  find-Has xs match e =
      let (i, t) = find-In p xs match e in
      (update_first-Has match xs (match, i, (refl, refl, refl, refl)), t)

open_over-open :
    (resource_id : Text) (versions : List Text) (conflict : SyncConflict)
    → is_open_over resource_id versions conflict ≡ true
    → conflict.resolved_at ≡ none
unfolding is_open_over
open_over-open resource_id versions conflict h =
    ((option_eq ⦃e = text_eq⦄).equals_iff conflict.resolved_at none).0 (ground arith)

-- What the loop over the resources keeps: the list has the identifiers that it had, and each reported
-- conflict is open, and in the list or under an identifier that it had not.
record Tracks (before : List SyncConflict) (existing reported : List SyncConflict) : Type 0 where
  same_ids : ids existing ≡ ids before
  are_open : (c : SyncConflict) → In c reported → c.resolved_at ≡ none
  found :
      (c : SyncConflict) → In c reported → Has c existing ⊎ (has c.conflict_id (ids before) ≡ false)

module _ (host : Host) (before : List SyncConflict)
    (fresh : (n : ℕ) → has (host.random_uuid n) (ids before) ≡ false) where
  add_reported :
      (existing later reported : List SyncConflict) (conflict : SyncConflict)
      → (ids later ≡ ids existing)
      → ((c : SyncConflict) → Has c existing → Has c later)
      → (conflict.resolved_at ≡ none)
      → Has conflict later ⊎ (has conflict.conflict_id (ids before) ≡ false)
      → Tracks before existing reported
      → Tracks before later (reported ++ conflict ∷ [])
  add_reported existing later reported conflict same stays is_open placed h = record {
    same_ids = same ∙ h.same_ids;
    are_open = λ c i. elim (In-append c reported _ i) [
      | inl j ↦ h.are_open c j
      | inr (inl e) ↦ rw e is_open
      | inr (inr n) ↦ absurd n
    ];
    found = λ c i. elim (In-append c reported _ i) [
      | inl j ↦ elim (h.found c j) [ inl k ↦ inl (stays c k) | inr n ↦ inr n ]
      | inr (inl e) ↦ rw e placed
      | inr (inr n) ↦ absurd n
    ];
  }

  report-Tracks :
      (calls : ℕ) (existing reported : List SyncConflict) (resource_id : Text)
      (tips : List ResourceTip) (graph : Graph)
      → Tracks before existing reported
      → Tracks before
          (existing_or_new_conflict host calls existing resource_id tips graph).1
          (reported ++ (existing_or_new_conflict host calls existing resource_id tips graph).0 ∷ [])
  unfolding existing_or_new_conflict
  report-Tracks calls existing reported resource_id tips graph h =
      elim (Option-cases (find (is_open_over resource_id versions) existing)) [
        | inl n ↦
            rw (n, existing_or_new_conflict)
              (add_reported existing existing reported
                (new_conflict host calls resource_id tips graph) refl (λ c k. k)
                (unfold new_conflict in refl) (inr (unfold new_conflict in fresh calls)) h)
        | inr (match, e) ↦
            let is_same = drop_lost_base-IsSame graph match in
            let ((k, i, s), t) =
              find-Has graph (is_open_over resource_id versions) existing match e in
            rw (e, existing_or_new_conflict)
              (add_reported existing
                (update_first (is_open_over resource_id versions) (drop_lost_base graph) existing)
                reported (drop_lost_base graph match)
                (ids-update_first graph (is_open_over resource_id versions) existing)
                (λ c. update_first-Has graph (is_open_over resource_id versions) c existing)
                (is_same.3 ∙ open_over-open resource_id versions match t)
                (inl (k, i, ground (arith, s, is_same))) h)
      ]
    where
      versions : List Text
      versions = sort compare_code_units (map (λ (tip : ResourceTip). tip.version_id) tips)

  step-Tracks :
      (projections : Map Text LocalProjection) (round : Round) (resource_id : Text) (graph : Graph)
      → Tracks before round.existing round.conflicts
      → Tracks before
          (reconcile_resource host projections round resource_id graph).existing
          (reconcile_resource host projections round resource_id graph).conflicts
  unfolding reconcile_resource
  step-Tracks projections round resource_id graph h =
      elim (Bool-cases (ltb 1 (length tips) && not (are_equivalent tips))) [
        | inl t ↦
            rw t (report-Tracks round.calls round.existing round.conflicts resource_id tips graph h)
        | inr f ↦ elim (Option-cases (choose_active_tip tips)) [
          | inl n ↦ rw (f, n) h
          | inr (active, e) ↦ rw (f, e) h
        ]
      ]
    where
      tips : List ResourceTip
      tips = calculate_tips graph

  steps-Tracks :
      (projections : Map Text LocalProjection) (resources : Graphs) (round : Round)
      → Tracks before round.existing round.conflicts
      → Tracks before
          (reconcile_resources host projections round resources).existing
          (reconcile_resources host projections round resources).conflicts
  unfolding reconcile_resources
  steps-Tracks projections [] round h = h
  steps-Tracks projections ((id, graph) ∷ rest) round h =
      steps-Tracks projections rest (reconcile_resource host projections round id graph)
        (step-Tracks projections round id graph h)

  merge-Has :
      (existing reported : List SyncConflict) (c : SyncConflict)
      → Tracks before existing reported
      → In c reported
      → Has c (merge_conflict_history host existing reported)
  merge-Has existing reported c h i = elim (h.found c i) [
    | inl (k, j, s) ↦ (
      k,
      merge-keeps_open host existing reported k j (s.3 ∙ h.are_open c i) (
          subst (λ (z : Text). In z (ids reported)) (sym s.0)
            (In-map (λ (x : SyncConflict). x.conflict_id) c reported i)),
      s,
    )
    | inr n ↦
        (c, merge-keeps_new host existing reported c (rw h.same_ids n) i, (refl, refl, refl, refl))
  ]

pub reconcile-keeps_reported :
    (host : Host) (events : List DecryptedEvent) (state : LocalSyncState)
    (checkpoint : Option CheckpointManifest) (result : ReconcileResult) (after : LocalSyncState)
    → reconcile host events state checkpoint ≡ ok (result, after)
    → ((n : ℕ) → has (host.random_uuid n) (ids state.conflicts) ≡ false)
    → (conflict : SyncConflict) → In conflict result.conflicts
    → (conflict.resolved_at ≡ none)
      × ((kept : SyncConflict) × In kept after.conflicts × IsSame kept conflict)
unfolding apply_accepted
reconcile-keeps_reported host events state checkpoint result after done fresh conflict i =
    let (accepted, e, k) = accepted_by host events state checkpoint result after done in
    let h =
      steps-Tracks host state.conflicts fresh state.projections
        (build_resource_graphs accepted.accepted checkpoint) (first_round state)
        (record { same_ids = refl; are_open = λ c j. absurd j; found = λ c j. absurd j }) in
    let j =
      subst (In conflict) (sym (ap (λ (r : ReconcileResult × LocalSyncState). r.0.conflicts) k))
        i in
    (
      h.are_open conflict j,
      subst (λ (l : List SyncConflict). (kept : SyncConflict) × In kept l × IsSame kept conflict)
          (ap (λ (r : ReconcileResult × LocalSyncState). r.1.conflicts) k)
          (merge-Has host state.conflicts fresh _ _ conflict h j),
    )
