-- ===== src/Protocol/Reconciler/Order.antt =====
-- src/protocol/reconciler.ts: the order of a resource's tips and the choice of the active one.
use cursor_setting_sync.Base.{
  ◌≤◌, ◌≡◌, false, Option, none, List, arith, ltb, nat_beq, length, head?, filter, if◌then◌else◌,
  ◌==◌, compare, Ordering,
}
use cursor_setting_sync.Base.Sort.{sort, IsComparator, flip, is_gt}
use cursor_setting_sync.Types.{ResourceTip, put, operation_eq}
use cursor_setting_sync.Protocol.Canonical.{
  compare_code_units, compare_code_units-eq, compare_code_units_self,
  compare_code_units-IsComparator,
}

-- `compareTips`, by the sign of its number: newest first.
unfoldable pub compare_tips : ResourceTip → ResourceTip → Ordering
compare_tips left right =
    if nat_beq left.lamport right.lamport
    then (let device_order = compare_code_units right.device_id left.device_id in
        elim device_order [
          | Ordering.eq ↦ compare_code_units right.event_hash left.event_hash
          | Ordering.lt ↦ Ordering.lt
          | Ordering.gt ↦ Ordering.gt
        ])
    else compare right.lamport left.lamport

-- The writes among the tips, if there is one, else all: `candidates` of `chooseActiveTip`.
unfoldable pub candidates : List ResourceTip → List ResourceTip
candidates tips =
    let updates = filter (λ tip. tip.operation == put) tips in
    if ltb 0 (length updates) then updates else tips

-- `chooseActiveTip`.
unfoldable pub choose_active_tip : List ResourceTip → Option ResourceTip
choose_active_tip tips =
    if nat_beq (length tips) 0 then none else head? (sort compare_tips (candidates tips))

compare_tips-flips : (a b : ResourceTip) → compare_tips b a ≡ flip (compare_tips a b)
unfolding compare_tips
compare_tips-flips a b = ground (
  arith,
  compare_code_units-IsComparator.flips a.device_id b.device_id,
  compare_code_units-IsComparator.flips a.event_hash b.event_hash,
)

compare_tips_trans :
    (a b c : ResourceTip)
    → is_gt (compare_tips a b) ≡ false
    → is_gt (compare_tips b c) ≡ false
    → is_gt (compare_tips a c) ≡ false
unfolding compare_tips
compare_tips_trans a b c h k = ground (
  arith,
  compare_code_units-IsComparator.trans c.device_id b.device_id a.device_id,
  compare_code_units-IsComparator.trans c.event_hash b.event_hash a.event_hash,
  compare_code_units-IsComparator.flips a.device_id b.device_id,
  compare_code_units-IsComparator.flips b.device_id c.device_id,
  compare_code_units-eq c.device_id a.device_id,
  compare_code_units-eq c.device_id b.device_id,
  compare_code_units-eq b.device_id a.device_id,
  compare_code_units_self a.device_id,
)

-- The comparator is that of a total preorder: every two tips are ordered, both ways alike, and the
-- order is transitive.
pub compare_tips-IsComparator : IsComparator compare_tips
compare_tips-IsComparator = record { flips = compare_tips-flips; trans = compare_tips_trans }

-- Two tips that compare as equal have the same Lamport time, device and event hash.
pub compare_tips-eq :
    (a b : ResourceTip)
    → compare_tips a b ≡ Ordering.eq
    → (a.lamport ≡ b.lamport) × (a.device_id ≡ b.device_id) × (a.event_hash ≡ b.event_hash)
unfolding compare_tips
compare_tips-eq a b h = ground (
  arith,
  compare_code_units-eq b.device_id a.device_id,
  compare_code_units-eq b.event_hash a.event_hash,
)

pub compare_tips-lamport :
    (a b : ResourceTip) → is_gt (compare_tips a b) ≡ false → b.lamport ≤ a.lamport
unfolding compare_tips
compare_tips-lamport a b h = ground arith
