-- ===== src/Protocol/Reconciler/Agreement.antt =====
-- src/protocol/reconciler.ts: when all tips of a resource say the same.
use cursor_setting_sync.Base.{
  ◌≡◌, refl, sym, ap, ◌∙◌, inl, inr, Bool, true, false, ◌&&◌, List, [], ◌∷◌, arith, ltb, length, In,
  every, every-In, Bool-cases, ◌==◌,
}
use cursor_setting_sync.Base.Texts.{Text, text_eq}
use cursor_setting_sync.Types.{ResourceTip, SyncConflict, operation_eq}
use cursor_setting_sync.Protocol.Reconciler.Graph.{Graph}
use cursor_setting_sync.Protocol.Reconciler.Conflicts.{is_open_over, drop_lost_base}
use cursor_setting_sync.Protocol.Reconciler.Reconcile.{are_equivalent}

-- Two tips say the same: the same operation, on content of the same hash.
abbrev pub SaysSame : ResourceTip → ResourceTip → Type 0
SaysSame a b = (a.operation ≡ b.operation) × (a.semantic_hash ≡ b.semantic_hash)

abbrev pub says_same : ResourceTip → ResourceTip → Bool
says_same first tip = tip.operation == first.operation && tip.semantic_hash == first.semantic_hash

pub says_same_iff :
    (first tip : ResourceTip)
    → (says_same first tip ≡ true → SaysSame tip first)
      × (says_same first tip ≡ false → ¬ SaysSame tip first)
says_same_iff first tip = (
  λ h. ground (
    arith,
    operation_eq.equals_iff tip.operation first.operation,
    text_eq.equals_iff tip.semantic_hash first.semantic_hash,
  ),
  λ h s. ground (
    arith,
    operation_eq.equals_iff tip.operation first.operation,
    text_eq.equals_iff tip.semantic_hash first.semantic_hash,
  ),
)

pub are_equivalent-SaysSame :
    (tips : List ResourceTip) (a b : ResourceTip)
    → are_equivalent tips ≡ true
    → In a tips
    → In b tips
    → SaysSame a b
unfolding are_equivalent
are_equivalent-SaysSame [] a b h i j = absurd i
are_equivalent-SaysSame (first ∷ rest) a b h i j =
    let x = (says_same_iff first a).0 (every-In (says_same first) a (first ∷ rest) h i) in
    let y = (says_same_iff first b).0 (every-In (says_same first) b (first ∷ rest) h j) in
    (x.0 ∙ sym y.0, x.1 ∙ sym y.1)

pub every_fails :
    {A : Type 0} (p : A → Bool) (xs : List A)
    → every p xs ≡ false
    → (a : A) × In a xs × (p a ≡ false)
unfolding every
every_fails p [] h = absurd (ground arith)
every_fails p (x ∷ xs) h = elim (Bool-cases (p x)) [
  | inl t ↦ let (a, i, e) = every_fails p xs (ground arith) in (a, inr i, e)
  | inr f ↦ (x, inl refl, f)
]

pub not_equivalent :
    (tips : List ResourceTip)
    → are_equivalent tips ≡ false
    → (a : ResourceTip) × (b : ResourceTip) × In a tips × In b tips × (¬ SaysSame a b)
unfolding are_equivalent
not_equivalent [] h = absurd (ground arith)
not_equivalent (first ∷ rest) h =
    let (a, i, f) = every_fails (says_same first) (first ∷ rest) h in
    (a, first, i, inl refl, (says_same_iff first a).1 f)

pub single :
    (tips : List ResourceTip) (a b : ResourceTip)
    → ltb 1 (length tips) ≡ false
    → In a tips
    → In b tips
    → SaysSame a b
single [] a b h i j = absurd i
single (x ∷ []) a b h (inl p) (inl q) = (
  ap (λ (z : ResourceTip). z.operation) (p ∙ sym q),
  ap (λ (z : ResourceTip). z.semantic_hash) (p ∙ sym q),
)
single (x ∷ []) a b h (inl p) (inr j) = absurd j
single (x ∷ []) a b h (inr i) j = absurd i
single (x ∷ y ∷ zs) a b h i j = absurd (ground arith)

pub resource_id-drop_lost_base :
    (graph : Graph) (conflict : SyncConflict)
    → (drop_lost_base graph conflict).resource_id ≡ conflict.resource_id
unfolding drop_lost_base
resource_id-drop_lost_base graph conflict = ground arith

pub open_over-resource_id :
    (resource_id : Text) (versions : List Text) (conflict : SyncConflict)
    → is_open_over resource_id versions conflict ≡ true
    → conflict.resource_id ≡ resource_id
unfolding is_open_over
open_over-resource_id resource_id versions conflict h =
    ground (arith, text_eq.equals_iff conflict.resource_id resource_id)
