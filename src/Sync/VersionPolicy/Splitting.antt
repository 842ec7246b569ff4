-- ===== src/Sync/VersionPolicy/Splitting.antt =====
-- src/sync/versionPolicy.ts, `publishInBatches`: the batches against what they are made from.
use cursor_setting_sync.Base.{
  ℕ, zero, suc, ◌+◌, ◌≤◌, ◌<◌, ◌≡◌, refl, sym, ap, ◌∙◌, ◌⊎◌, inl, inr, true, false, ◌||◌, List, [],
  ◌∷◌, ◌++◌, arith, ltb, length, length-append, Bool-cases, All,
}
use cursor_setting_sync.Sync.VersionPolicy.Batches.{
  max_event_changes, event_manifest_byte_budget, Load, is_full, loaded, fill, no_load, batches_from,
  publish_in_batches,
}

-- A batch of one change may be of any size; a larger one keeps to both limits.
abbrev pub IsWithin : ℕ → ℕ → Type 0
IsWithin changes bytes =
    (changes ≤ 1) ⊎ ((changes ≤ max_event_changes) × (bytes ≤ event_manifest_byte_budget))

nil-length : {A : Type 0} (xs : List A) → length xs ≡ 0 → xs ≡ []
nil-length [] h = refl
nil-length (x ∷ xs) h = absurd (omega arith)

module _ {A : Type 0} (cost_of : A → ℕ) where
  abbrev pub total : List A → ℕ
  total [] = 0
  total (item ∷ items) = cost_of item + total items

  record Filled (load : Load) (items taken left : List A) (last : Load) : Type 0 where
    whole : taken ++ left ≡ items
    counts : last.changes ≡ load.changes + length taken
    weighs : last.estimated_bytes ≡ load.estimated_bytes + total taken
    fits : IsWithin load.changes load.estimated_bytes → IsWithin last.changes last.estimated_bytes
    moves : load.changes ≡ 0 → 0 < length items → 0 < length taken

  is_full-changes : (load : Load) (cost : ℕ) → is_full load cost ≡ true → 0 < load.changes
  unfolding is_full
  is_full-changes load cost h = ground arith

  loaded-IsWithin :
      (load : Load) (cost : ℕ)
      → is_full load cost ≡ false
      → IsWithin (load.changes + 1) (load.estimated_bytes + cost)
  unfolding is_full
  loaded-IsWithin load cost h = ground arith

  fill-Filled :
      (load : Load) (items : List A)
      → let (taken, left, last) = fill cost_of load items in Filled load items taken left last
  unfolding fill loaded
  fill-Filled load [] = record {
    whole = refl;
    counts = omega arith;
    weighs = omega arith;
    fits = λ h. h;
    moves = λ z l. l;
  }
  fill-Filled load (item ∷ items) = elim (Bool-cases (is_full load (cost_of item))) [
    | inl t ↦ rw t (record {
      whole = refl;
      counts = omega arith;
      weighs = omega arith;
      fits = λ h. h;
      moves = λ z l. absurd (omega (arith, z, is_full-changes load (cost_of item) t));
    })
    | inr f ↦
        let rest = fill-Filled (loaded load (cost_of item)) items in
        rw f (record {
          whole = ap (◌∷◌ item) rest.whole;
          counts = omega (arith, rest.counts);
          weighs = omega (arith, rest.weighs);
          fits = λ h. rest.fits (loaded-IsWithin load (cost_of item) f);
          moves = λ z l. omega arith;
        })
  ]

module _ {S D : Type 0} (snapshot_cost : S → ℕ) (deletion_cost : D → ℕ) where
  -- The items of all batches, in order.
  abbrev pub snapshots_of : List (List S × List D) → List S
  snapshots_of [] = []
  snapshots_of ((snapshots, deletions) ∷ batches) = snapshots ++ snapshots_of batches

  abbrev pub deletions_of : List (List S × List D) → List D
  deletions_of [] = []
  deletions_of ((snapshots, deletions) ∷ batches) = deletions ++ deletions_of batches

  abbrev pub Fits : List S × List D → Type 0
  Fits (snapshots, deletions) =
      IsWithin (length snapshots + length deletions)
        (total snapshot_cost snapshots + total deletion_cost deletions)

  record IsSplit (snapshots : List S) (deletions : List D) (batches : List (List S × List D))
      : Type 0 where
    in_order : snapshots_of batches ≡ snapshots
    deletions_in_order : deletions_of batches ≡ deletions
    within : All Fits batches

  batches_from-IsSplit :
      (fuel : ℕ) (snapshots : List S) (deletions : List D)
      → length snapshots + length deletions ≤ fuel
      → IsSplit snapshots deletions
          (batches_from snapshot_cost deletion_cost fuel snapshots deletions)
  unfolding batches_from
  batches_from-IsSplit zero [] [] h = record {
    in_order = refl;
    deletions_in_order = refl;
    within = (inl (omega arith), tt);
  }
  batches_from-IsSplit zero [] (d ∷ ds) h = absurd (omega arith)
  batches_from-IsSplit zero (s ∷ ss) ds h = absurd (omega arith)
  batches_from-IsSplit (suc fuel) snapshots deletions h =
      let (taken, left, load) = fill snapshot_cost no_load snapshots in
      let (taken_too, left_too, last) = fill deletion_cost load deletions in
      let first : Filled snapshot_cost no_load snapshots taken left load =
        fill-Filled snapshot_cost no_load snapshots in
      let second : Filled deletion_cost load deletions taken_too left_too last =
        fill-Filled deletion_cost load deletions in
      let sizes = ap length first.whole in
      let sizes_too = ap length second.whole in
      let fits : Fits (taken, taken_too) = elim (second.fits (first.fits (inl (omega arith)))) [
        | inl a ↦ inl (omega (arith, a, first.counts, second.counts))
        | inr (a, b) ↦ inr (
          omega (arith, a, first.counts, second.counts),
          omega (arith, b, first.weighs, second.weighs),
        )
      ] in
      elim (Bool-cases (ltb 0 (length left) || ltb 0 (length left_too))) [
        | inl t ↦
            let rest = batches_from-IsSplit fuel left left_too (
              ground (
                arith,
                h,
                t,
                first.moves refl,
                second.moves,
                first.counts,
                sizes,
                sizes_too,
                length-append taken left,
                length-append taken_too left_too,
              )) in
            rw t (record {
              in_order = ap (◌++◌ taken) rest.in_order ∙ first.whole;
              deletions_in_order = ap (◌++◌ taken_too) rest.deletions_in_order ∙ second.whole;
              within = (fits, rest.within);
            })
        | inr f ↦ rw f (record {
          in_order = ap (◌++◌ taken) (sym (nil-length left (ground (arith, f)))) ∙ first.whole;
          deletions_in_order =
              ap (◌++◌ taken_too) (sym (nil-length left_too (ground (arith, f)))) ∙ second.whole;
          within = (fits, tt);
        })
      ]

  -- The events hold every snapshot and every deletion, in their order; and each event has one change
  -- at most, or no more changes than the limit and no more estimated bytes than the budget.
  pub publish_in_batches-Fits :
      (snapshots : List S) (deletions : List D)
      → let batches = publish_in_batches snapshot_cost deletion_cost snapshots deletions in
        (snapshots_of batches ≡ snapshots) × (deletions_of batches ≡ deletions) × All Fits batches
  unfolding publish_in_batches
  publish_in_batches-Fits snapshots deletions =
      let split =
        batches_from-IsSplit (length snapshots + length deletions) snapshots deletions
          (omega arith) in
      (split.in_order, split.deletions_in_order, split.within)
