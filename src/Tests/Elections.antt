-- ===== src/Tests/Elections.antt =====
-- src/protocol/reconciler.ts: the theorems on the election of a resource's tip, at two edits and a
-- deletion.
use cursor_setting_sync.Base.{
  ◌≡◌, refl, sym, ◌∙◌, ◌⊎◌, inl, inr, ◌≤◌, ◌↔◌, false, some, List, [], ◌∷◌, In, arith, ap, filter,
  list_beq, Ordering,
}
use cursor_setting_sync.Base.Texts.{text_eq, text_lt}
use cursor_setting_sync.Base.Sort.{insert, sort, is_gt}
use cursor_setting_sync.Types.{ResourceTip, put, delete}
use cursor_setting_sync.Protocol.Canonical.{compare_code_units}
use cursor_setting_sync.Protocol.Reconciler.Order.{compare_tips, candidates, choose_active_tip}
use cursor_setting_sync.Protocol.Reconciler.Election.{
  choose_active_tip_agree, choose_active_tip-newest,
}
use cursor_setting_sync.Tests.Data.{edit_here, edit_there, removal}

abbrev here : List ResourceTip
here = edit_here ∷ edit_there ∷ removal ∷ []

abbrev there : List ResourceTip
there = removal ∷ edit_there ∷ edit_here ∷ []

elects_here : choose_active_tip here ≡ some edit_there
unfolding choose_active_tip candidates compare_tips compare_code_units text_lt sort insert filter
elects_here = refl

elects_there : choose_active_tip there ≡ some edit_there
unfolding choose_active_tip candidates compare_tips compare_code_units text_lt sort insert filter
elects_there = refl

same_tips : (a : ResourceTip) → In a here ↔ In a there
same_tips a = (λ i. ground arith, λ i. ground arith)

differ :
    (x y a b : ResourceTip)
    → text_eq.equals x.event_hash y.event_hash ≡ false
    → a ≡ x
    → b ≡ y
    → a.event_hash ≡ b.event_hash
    → a ≡ b
differ x y a b f p q e =
    let same = (text_eq.equals_iff x.event_hash y.event_hash).1 (
      sym (ap (λ (t : ResourceTip). t.event_hash) p)
      ∙ e
      ∙ ap (λ (t : ResourceTip). t.event_hash) q) in
    absurd (ground (arith, f, same))

of_one_event : (a b : ResourceTip) → In a here → In b here → a.event_hash ≡ b.event_hash → a ≡ b
unfolding list_beq
of_one_event a b (inl p) (inl q) e = p ∙ sym q
of_one_event a b (inl p) (inr (inl q)) e = differ edit_here edit_there a b refl p q e
of_one_event a b (inl p) (inr (inr (inl q))) e = differ edit_here removal a b refl p q e
of_one_event a b (inr (inl p)) (inl q) e = differ edit_there edit_here a b refl p q e
of_one_event a b (inr (inl p)) (inr (inl q)) e = p ∙ sym q
of_one_event a b (inr (inl p)) (inr (inr (inl q))) e = differ edit_there removal a b refl p q e
of_one_event a b (inr (inr (inl p))) (inl q) e = differ removal edit_here a b refl p q e
of_one_event a b (inr (inr (inl p))) (inr (inl q)) e = differ removal edit_there a b refl p q e
of_one_event a b (inr (inr (inl p))) (inr (inr (inl q))) e = p ∙ sym q
of_one_event a b (inl p) (inr (inr (inr n))) e = absurd n
of_one_event a b (inr (inl p)) (inr (inr (inr n))) e = absurd n
of_one_event a b (inr (inr (inl p))) (inr (inr (inr n))) e = absurd n
of_one_event a b (inr (inr (inr n))) _ e = absurd n

choose_active_tip_agree_example : edit_there ≡ edit_there
choose_active_tip_agree_example =
    choose_active_tip_agree here there edit_there edit_there same_tips of_one_event elects_here
      elects_there

choose_active_tip-newest_example :
    In edit_there here
    × ((put ≡ put) ⊎ ((u : ResourceTip) → In u here → u.operation ≡ delete))
    × ((u : ResourceTip)
        → In u here
        → u.operation ≡ put
        → (is_gt (compare_tips edit_there u) ≡ false) × (u.lamport ≤ 2))
choose_active_tip-newest_example = choose_active_tip-newest here edit_there elects_here

ties : compare_tips edit_here edit_here ≡ Ordering.eq
unfolding compare_tips compare_code_units text_lt
ties = refl
