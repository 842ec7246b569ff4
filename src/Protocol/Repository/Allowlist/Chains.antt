-- ===== src/Protocol/Repository/Allowlist/Chains.antt =====
-- The proof that `history_event_hash_allowlist` follows exactly the chains back from the cursors.
use cursor_setting_sync.Base.{
  ℕ, zero, suc, ◌<◌, ◌≡◌, refl, subst, ◌↔◌, ◌⊎◌, inl, inr, true, false, Option, none, some, List,
  [], ◌∷◌, arith, In, Bool-cases, Option-cases, nat_beq_iff, ◌==◌, both_true, true_both,
}
use cursor_setting_sync.Base.Texts.{Text, text_eq}
use cursor_setting_sync.Base.Maps.{Map, get}
use cursor_setting_sync.Base.Sets.{has, add, has-In, In-add}
use cursor_setting_sync.Types.{DecryptedEvent, StreamCursor, CheckpointManifest}
use cursor_setting_sync.Protocol.Repository.Allowlist.{
  by_hash, is_link, visit, IsLink, follow, follow_streams, history_event_hash_allowlist, OnChain,
  here, back,
}

module _ (events : Map Text DecryptedEvent) (device : Text) where
  -- What was visited belongs to later sequences.
  abbrev Later : ℕ → List Text → Type 0
  Later n visited =
      (h : Text) (e : DecryptedEvent)
      → In h visited
      → get events h ≡ some e
      → n < e.stored.header.sequence

  abbrev Linked : ℕ → Text → Type 0
  Linked n h = (e : DecryptedEvent) × (get events h ≡ some e) × IsLink device n e

  is_link_iff : (n : ℕ) (e : DecryptedEvent) → (is_link device n e ≡ true) ↔ IsLink device n e
  is_link_iff n e = (
    λ k.
        let (p, q) = both_true (e.stored.header.device_id == device) _ k in
        ((text_eq.equals_iff _ _).0 p, (nat_beq_iff _ _).0 q),
    λ (p, q). true_both _ _ ((text_eq.equals_iff _ _).1 p) ((nat_beq_iff _ _).1 q),
  )

  unvisited :
      (n : ℕ) (h : Text) (visited : List Text)
      → Later n visited
      → Linked n h
      → has h visited ≡ false
  unvisited n h visited l (e, g, k) = elim (Bool-cases (has h visited)) [
    | inl t ↦ absurd (ground (arith, l h e ((has-In h visited).0 t) g))
    | inr f ↦ f
  ]

  visit-Linked :
      (n : ℕ) (h : Text) (visited trusted : List Text)
      (next : Option Text → List Text → List Text → List Text)
      → Later n visited
      → (s : Linked n h)
      → visit events device n (some h) visited trusted next
        ≡ next s.0.stored.header.previous_event_hash (add h visited) (add h trusted)
  visit-Linked n h visited trusted next l s =
      rw (unvisited n h visited l s, s.1, (is_link_iff n s.0).1 s.2) refl

  visit-unlinked :
      (n : ℕ) (h : Text) (visited trusted : List Text)
      (next : Option Text → List Text → List Text → List Text)
      → ¬ Linked n h
      → visit events device n (some h) visited trusted next ≡ trusted
  visit-unlinked n h visited trusted next u = elim (Bool-cases (has h visited)) [
    | inl t ↦ rw t refl
    | inr f ↦ elim (Option-cases (get events h)) [
      | inl e ↦ rw (f, e) refl
      | inr (x, e) ↦ elim (Bool-cases (is_link device n x)) [
        | inl t ↦ absurd (u (x, e, (is_link_iff n x).0 t))
        | inr k ↦ rw (f, e, k) refl
      ]
    ]
  ]

  Linked-cases : (n : ℕ) (h : Text) → Linked n h ⊎ ¬ Linked n h
  Linked-cases n h = by_event (get events h) refl
    where
      by_event : (o : Option DecryptedEvent) → get events h ≡ o → Linked n h ⊎ ¬ Linked n h
      by_event none e = inr (λ (x, g, k). absurd (ground arith))
      by_event (some x) e = elim (Bool-cases (is_link device n x)) [
        | inl t ↦ inl (x, e, (is_link_iff n x).0 t)
        | inr f ↦ inr (λ (y, g, k). absurd (ground (arith, (is_link_iff n y).1 k)))
      ]

  OnChain-inv_zero : (h x : Text) → OnChain events device (some h) 0 x → Linked 0 h × (x ≡ h)
  OnChain-inv_zero h x (here e g k) = ((e, g, k), refl)

  OnChain-Linked :
      (n : ℕ) (h x : Text) → OnChain events device (some h) (suc n) x → Linked (suc n) h
  OnChain-Linked n h x (here e g k) = (e, g, k)
  OnChain-Linked n h x (back e g k c) = (e, g, k)

  OnChain-inv_suc :
      (n : ℕ) (h x : Text) (s : Linked (suc n) h)
      → OnChain events device (some h) (suc n) x
      → (x ≡ h) ⊎ OnChain events device s.0.stored.header.previous_event_hash n x
  OnChain-inv_suc n h x s (here e g k) = inl refl
  OnChain-inv_suc n h x s (back e g k c) =
      let same : e ≡ s.0 = ground (arith, g, s.1) in
      inr (
        subst
          (λ (z : DecryptedEvent). OnChain events device z.stored.header.previous_event_hash n x)
          same c)

  no_chain : (n : ℕ) (x : Text) → ¬ OnChain events device none n x
  no_chain n x c = elim c [ ]

  Later-add :
      (n : ℕ) (h : Text) (visited : List Text)
      → Later (suc n) visited
      → Linked (suc n) h
      → Later n (add h visited)
  Later-add n h visited l (e, g, k) x y i q = elim ((In-add x h visited).0 i) [
    | inl j ↦ omega (arith, l x y j q)
    | inr p ↦ ground (arith, p)
  ]

  pub follow-OnChain :
      (n : ℕ) (hash : Option Text) (visited trusted : List Text)
      → Later n visited
      → (x : Text)
      → In x (follow events device n hash visited trusted)
        ↔ (In x trusted ⊎ OnChain events device hash n x)
  unfolding follow
  follow-OnChain zero none visited trusted l x =
      (λ i. inl i, λ h. elim h [ inl i ↦ i | inr (c) ↦ absurd (no_chain 0 x c) ])
  follow-OnChain zero (some h) visited trusted l x = elim (Linked-cases 0 h) [
    | inl s ↦ rw (visit-Linked 0 h visited trusted (λ _ _ result. result) l s) (
      λ i. elim ((In-add x h trusted).0 i) [
        | inl j ↦ inl j
        | inr p ↦ inr (rw p (here s.0 s.1 s.2))
      ],
      λ q. elim q [
        | inl j ↦ (In-add x h trusted).1 (inl j)
        | inr c ↦ (In-add x h trusted).1 (inr (OnChain-inv_zero h x c).1)
      ],
    )
    | inr u ↦
        rw (visit-unlinked 0 h visited trusted (λ _ _ result. result) u)
          (λ i. inl i, λ q. elim q [ inl j ↦ j | inr c ↦ absurd (u (OnChain-inv_zero h x c).0) ])
  ]
  follow-OnChain (suc n) none visited trusted l x =
      (λ i. inl i, λ h. elim h [ inl i ↦ i | inr c ↦ absurd (no_chain (suc n) x c) ])
  follow-OnChain (suc n) (some h) visited trusted l x = elim (Linked-cases (suc n) h) [
    | inl s ↦
        let more =
          follow-OnChain n s.0.stored.header.previous_event_hash (add h visited) (add h trusted)
            (Later-add n h visited l s) x in
        rw (visit-Linked (suc n) h visited trusted (follow events device n) l s) (
          λ i. elim (more.0 i) [
            | inl j ↦ elim ((In-add x h trusted).0 j) [
              | inl k ↦ inl k
              | inr p ↦ inr (rw p (here s.0 s.1 s.2))
            ]
            | inr c ↦ inr (back s.0 s.1 s.2 c)
          ],
          λ q. elim q [
            | inl j ↦ more.1 (inl ((In-add x h trusted).1 (inl j)))
            | inr c ↦ elim (OnChain-inv_suc n h x s c) [
              | inl p ↦ more.1 (inl ((In-add x h trusted).1 (inr p)))
              | inr d ↦ more.1 (inr d)
            ]
          ],
        )
    | inr u ↦
        rw (visit-unlinked (suc n) h visited trusted (follow events device n) u)
          (λ i. inl i, λ q. elim q [ inl j ↦ j | inr c ↦ absurd (u (OnChain-Linked n h x c)) ])
  ]

follow_streams-OnChain :
    (events : Map Text DecryptedEvent) (streams : Map Text StreamCursor) (trusted : List Text)
    (x : Text)
    → In x (follow_streams events streams trusted) ↔ (
        In x trusted
        ⊎ ((device : Text) × (cursor : StreamCursor) × In (device, cursor) streams
            × OnChain events device cursor.last_event_hash cursor.last_sequence x))
unfolding follow_streams
follow_streams-OnChain events [] trusted x =
    (λ i. inl i, λ h. elim h [ inl i ↦ i | inr (d, c, i, o) ↦ absurd i ])
follow_streams-OnChain events ((device, cursor) ∷ streams) trusted x =
    let one =
      follow-OnChain events device cursor.last_sequence cursor.last_event_hash [] trusted
        (λ h e i g. absurd i) x in
    let more =
      follow_streams-OnChain events streams
        (follow events device cursor.last_sequence cursor.last_event_hash [] trusted) x in
    (
      λ i. elim (more.0 i) [
        | inl j ↦ elim (one.0 j) [ inl k ↦ inl k | inr o ↦ inr (device, cursor, inl refl, o) ]
        | inr (d, c, j, o) ↦ inr (d, c, inr j, o)
      ],
      λ h. elim h [
        | inl j ↦ more.1 (inl (one.1 (inl j)))
        | inr (d, c, inl p, o) ↦ more.1 (
            inl (
              one.1 (
                inr (
                  subst
                    (λ (z : Text × StreamCursor).
                      OnChain events z.0 z.1.last_event_hash z.1.last_sequence x)
                    p o))))
        | inr (d, c, inr j, o) ↦ more.1 (inr (d, c, j, o))
      ],
    )

-- Beside the accepted hashes, a history may show exactly the events on a device's chain back from the
-- cursor of the checkpoint, each of that device and with the sequence before.
pub history_event_hash_allowlist-OnChain :
    (events : List DecryptedEvent) (accepted : List Text) (checkpoint : CheckpointManifest)
    (x : Text)
    → In x (history_event_hash_allowlist events accepted (some checkpoint)) ↔ (
        In x accepted
        ⊎ ((device : Text) × (cursor : StreamCursor) × In (device, cursor) checkpoint.streams
            × OnChain (by_hash events) device cursor.last_event_hash cursor.last_sequence x))
unfolding history_event_hash_allowlist
history_event_hash_allowlist-OnChain events accepted checkpoint x =
    follow_streams-OnChain (by_hash events) checkpoint.streams accepted x
