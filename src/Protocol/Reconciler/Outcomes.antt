-- ===== src/Protocol/Reconciler/Outcomes.antt =====
-- src/protocol/reconciler.ts: which resources `reconcile` projects, and which it reports as conflicts.
use cursor_setting_sync.Base.{
  ℕ, ◌≡◌, refl, sym, ap, ◌∙◌, subst, inl, inr, true, false, ◌&&◌, not, Option, some, List, [], ◌∷◌,
  map, arith, ltb, length, In, In-append, Bool-cases, Option-cases, find, find-In,
}
use cursor_setting_sync.Base.Texts.{Text, text_eq}
use cursor_setting_sync.Base.Maps.{Map}
use cursor_setting_sync.Types.{
  ResourceTip, SyncConflict, LocalProjection, LocalSyncState, CheckpointManifest, DecryptedEvent,
  operation_eq,
}
use cursor_setting_sync.Protocol.Reconciler.Graph.{Graph, Graphs, build_resource_graphs}
use cursor_setting_sync.Protocol.Reconciler.Tips.{calculate_tips}
use cursor_setting_sync.Protocol.Reconciler.Order.{choose_active_tip}
use cursor_setting_sync.Protocol.Reconciler.Election.{choose_active_tip-newest}
use cursor_setting_sync.Protocol.Reconciler.Conflicts.{
  Host, existing_or_new_conflict, is_open_over, new_conflict,
}
use cursor_setting_sync.Protocol.Reconciler.Streams.{Accepted, ok, accept_contiguous_streams}
use cursor_setting_sync.Protocol.Reconciler.Cursors.{accepted_by}
use cursor_setting_sync.Base.Sort.{sort}
use cursor_setting_sync.Protocol.Canonical.{compare_code_units}
use cursor_setting_sync.Protocol.Reconciler.Reconcile.{
  Round, ResourceProjection, are_equivalent, apply_accepted, reconcile, ReconcileResult,
  first_round, reconcile_resource, reconcile_resources,
}
use cursor_setting_sync.Protocol.Reconciler.Agreement.{
  SaysSame, are_equivalent-SaysSame, not_equivalent, single, resource_id-drop_lost_base,
  open_over-resource_id,
}

module _ (resources : Graphs) where
  -- The projection is of a resource whose tips all say the same as the one that is projected.
  pub record IsProjected (p : ResourceProjection) : Type 0 where
    pub graph : Graph
    pub in_resources : In (p.resource_id, graph) resources
    pub elected : choose_active_tip (calculate_tips graph) ≡ some p.tip
    pub agreed : (tip : ResourceTip) → In tip (calculate_tips graph) → SaysSame tip p.tip

  -- The conflict is of a resource with two tips that say different things.
  pub record IsDisputed (c : SyncConflict) : Type 0 where
    pub graph : Graph
    pub in_resources : In (c.resource_id, graph) resources
    pub left : ResourceTip
    pub right : ResourceTip
    pub left_tip : In left (calculate_tips graph)
    pub right_tip : In right (calculate_tips graph)
    pub differ : ¬ SaysSame left right

  pub record IsSound (round : Round) : Type 0 where
    pub projected : (p : ResourceProjection) → In p round.projections → IsProjected p
    pub disputed : (c : SyncConflict) → In c round.conflicts → IsDisputed c

  conflict-resource_id :
      (host : Host) (calls : ℕ) (existing : List SyncConflict) (resource_id : Text)
      (tips : List ResourceTip) (graph : Graph)
      → (existing_or_new_conflict host calls existing resource_id tips graph).0.resource_id
        ≡ resource_id
  unfolding existing_or_new_conflict new_conflict
  conflict-resource_id host calls existing resource_id tips graph =
      elim (Option-cases (
        find
          (is_open_over resource_id
            (sort compare_code_units (map (λ (tip : ResourceTip). tip.version_id) tips)))
          existing)) [
            | inl n ↦ rw (n, existing_or_new_conflict)
            | inr (match, e) ↦
                rw (e, existing_or_new_conflict)
                  (resource_id-drop_lost_base graph match
                    ∙ open_over-resource_id resource_id _ match (find-In _ existing match e).1)
          ]

  step-IsSound :
      (host : Host) (projections : Map Text LocalProjection) (round : Round) (resource_id : Text)
      (graph : Graph)
      → In (resource_id, graph) resources
      → IsSound round
      → IsSound (reconcile_resource host projections round resource_id graph)
  unfolding reconcile_resource
  step-IsSound host projections round resource_id graph i h =
      elim (Bool-cases (ltb 1 (length tips) && not (are_equivalent tips))) [
        | inl t ↦ rw t (record {
          projected = h.projected;
          disputed = λ c j. elim (In-append c round.conflicts _ j) [
            | inl k ↦ h.disputed c k
            | inr (inl e) ↦ dispute c t (
                ap (λ (z : SyncConflict). z.resource_id) e
                ∙ conflict-resource_id host round.calls round.existing resource_id tips graph)
            | inr (inr n) ↦ absurd n
          ];
        })
        | inr f ↦ elim (Option-cases (choose_active_tip tips)) [
          | inl n ↦ rw (f, n) (record { projected = h.projected; disputed = h.disputed })
          | inr (active, e) ↦
              rw (f, e)
                (record {
                  projected = λ p j. elim (In-append p round.projections _ j) [
                    | inl k ↦ h.projected p k
                    | inr (inl q) ↦
                        project p f active e (ap (λ (z : ResourceProjection). z.resource_id) q)
                          (ap (λ (z : ResourceProjection). z.tip) q)
                    | inr (inr n) ↦ absurd n
                  ];
                  disputed = h.disputed;
                })
        ]
      ]
    where
      tips : List ResourceTip
      tips = calculate_tips graph

      dispute :
          (c : SyncConflict)
          → (ltb 1 (length tips) && not (are_equivalent tips)) ≡ true
          → c.resource_id ≡ resource_id
          → IsDisputed c
      dispute c t e =
          let (a, b, ia, ib, d) = not_equivalent tips (ground (arith, t)) in
          record {
            graph = graph;
            in_resources =
                subst (λ (z : Text). In {A = Text × Graph} (z, graph) resources) (sym e) i;
            left = a;
            right = b;
            left_tip = ia;
            right_tip = ib;
            differ = d;
          }

      project :
          (p : ResourceProjection)
          → (ltb 1 (length tips) && not (are_equivalent tips)) ≡ false
          → (active : ResourceTip) → choose_active_tip tips ≡ some active
          → p.resource_id ≡ resource_id
          → p.tip ≡ active
          → IsProjected p
      project p f active e q r = record {
        graph = graph;
        in_resources = subst (λ (z : Text). In {A = Text × Graph} (z, graph) resources) (sym q) i;
        elected = e ∙ ap some (sym r);
        agreed = λ tip j.
            let k =
              subst (λ (z : ResourceTip). In z tips) (sym r)
                (choose_active_tip-newest tips active e).0 in
            elim (Bool-cases (are_equivalent tips)) [
              | inl same ↦ are_equivalent-SaysSame tips tip p.tip same j k
              | inr other ↦ single tips tip p.tip (ground (arith, f, other)) j k
            ];
      }

  steps-IsSound :
      (host : Host) (projections : Map Text LocalProjection) (rest : Graphs)
      → ((id : Text) (graph : Graph)
          → In {A = Text × Graph} (id, graph) rest
          → In {A = Text × Graph} (id, graph) resources)
      → (round : Round) → IsSound round
      → IsSound (reconcile_resources host projections round rest)
  unfolding reconcile_resources
  steps-IsSound host projections [] sub round h = h
  steps-IsSound host projections ((id, graph) ∷ rest) sub round h =
      steps-IsSound host projections rest (λ i g j. sub i g (inr j))
        (reconcile_resource host projections round id graph)
        (step-IsSound host projections round id graph (sub id graph (inl refl)) h)

module _ (host : Host) (events : List DecryptedEvent) (state : LocalSyncState)
    (checkpoint : Option CheckpointManifest) (result : ReconcileResult) (after : LocalSyncState)
    (done : reconcile host events state checkpoint ≡ ok (result, after)) where
  sound :
      (accepted : Accepted) × (accept_contiguous_streams events state checkpoint ≡ ok accepted)
      × ((p : ResourceProjection)
          → In p result.projections
          → IsProjected (build_resource_graphs accepted.accepted checkpoint) p)
      × ((c : SyncConflict)
          → In c result.conflicts
          → IsDisputed (build_resource_graphs accepted.accepted checkpoint) c)
  unfolding apply_accepted
  sound =
      let (accepted, e, k) = accepted_by host events state checkpoint result after done in
      let resources = build_resource_graphs accepted.accepted checkpoint in
      let round =
        steps-IsSound resources host state.projections resources (λ i g j. j) (first_round state)
          (record { projected = λ p i. absurd i; disputed = λ c i. absurd i }) in
      (
        accepted,
        e,
        λ p i. round.projected p (
            subst (In p) (sym (ap (λ (r : ReconcileResult × LocalSyncState). r.0.projections) k))
              i),
        λ c i.
            round.disputed c (
              subst (In c) (sym (ap (λ (r : ReconcileResult × LocalSyncState). r.0.conflicts) k))
                i),
      )

  -- A version that a successful `reconcile` projects is the elected tip of its resource in the graph
  -- of the accepted events, and every tip of that resource has its operation and its semantic hash.
  pub reconcile-IsProjected :
      (p : ResourceProjection)
      → In p result.projections
      → (accepted : Accepted) × (accept_contiguous_streams events state checkpoint ≡ ok accepted)
        × IsProjected (build_resource_graphs accepted.accepted checkpoint) p
  reconcile-IsProjected p i =
      let (accepted, e, projected, disputed) = sound in (accepted, e, projected p i)

  -- A conflict that a successful `reconcile` reports is of a resource that has two tips in the graph
  -- of the accepted events whose operations or semantic hashes differ.
  pub reconcile-IsDisputed :
      (c : SyncConflict)
      → In c result.conflicts
      → (accepted : Accepted) × (accept_contiguous_streams events state checkpoint ≡ ok accepted)
        × IsDisputed (build_resource_graphs accepted.accepted checkpoint) c
  reconcile-IsDisputed c i =
      let (accepted, e, projected, disputed) = sound in (accepted, e, disputed c i)
