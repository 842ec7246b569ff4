-- ===== src/Protocol/Reconciler/Chains.antt =====
-- src/protocol/reconciler.ts, `acceptContiguousStreams`: the run over one device's events, as a chain of
-- hashes.
use cursor_setting_sync.Base.{
  ℕ, ◌+◌, ◌≤◌, ◌<◌, ◌≡◌, refl, ◌∙◌, subst, ◌⊎◌, inl, inr, false, Option, some, List, [], ◌∷◌, arith,
  nat_beq, length, In, All, All-In, option_eq, Bool-cases, nat_beq_iff,
}
use cursor_setting_sync.Base.Texts.{Text, text_eq}
use cursor_setting_sync.Types.{DecryptedEvent, StreamCursor}
use cursor_setting_sync.Protocol.Reconciler.Streams.{
  Result, ok, err, ◌>>=◌, Run, accept_run, covers, contradicts, sequence_of, StreamError, end_run,
}

-- A chain that goes on from a sequence number and a hash.
abbrev pub Chain : ℕ → Option Text → List DecryptedEvent → Type 0
Chain expected previous [] = Unit
Chain expected previous (event ∷ events) =
    (sequence_of event ≡ expected)
    × (event.stored.header.previous_event_hash ≡ previous)
    × Chain (expected + 1) (some event.event_hash) events

pub Result-cases {ℓ} :
    {A : Type ℓ} (r : Result A) → ((a : A) × (r ≡ ok a)) ⊎ ((e : StreamError) × (r ≡ err e))
Result-cases (ok a) = inl (a, refl)
Result-cases (err e) = inr (e, refl)

-- A bind that succeeds has two parts that do.
pub >>=-eq-ok {ℓ κ} :
    {A : Type ℓ} {B : Type κ} (r : Result A) (f : A → Result B) (b : B)
    → (r >>= f) ≡ ok b
    → (a : A) × (r ≡ ok a) × (f a ≡ ok b)
>>=-eq-ok (ok a) f b h = (a, refl, h)
>>=-eq-ok (err e) f b h = absurd (ground arith)

module _ (pinned : Option StreamCursor) (device : Text) where
  empty_run :
      (e : ℕ) (p : Option Text) (r : Run)
      → accept_run pinned device [] e p ≡ ok r
      → (r.accepted ≡ []) × (r.expected ≡ e)
  unfolding accept_run
  empty_run e p r h = ground arith

  -- A run over one more event: it stops there, at a number that is not pinned, or goes on.
  accept_run_inv :
      (x : DecryptedEvent) (xs : List DecryptedEvent) (e : ℕ) (p : Option Text) (r : Run)
      → accept_run pinned device (x ∷ xs) e p ≡ ok r
      → ((r.accepted ≡ []) × (r.expected ≡ e) × (covers pinned e ≡ false))
        ⊎ ((rest : Run) × (accept_run pinned device xs (e + 1) (some x.event_hash) ≡ ok rest)
            × (r.accepted ≡ x ∷ rest.accepted)
            × (r.expected ≡ rest.expected)
            × (sequence_of x ≡ e)
            × (x.stored.header.previous_event_hash ≡ p)
            × (contradicts pinned x ≡ false))
  unfolding accept_run
  accept_run_inv x xs e p r h =
      elim (Result-cases (accept_run pinned device xs (e + 1) (some x.event_hash))) [
        | inl (rest, q) ↦
            ground
              (arith, (option_eq ⦃e = text_eq⦄).equals_iff x.stored.header.previous_event_hash p)
        | inr (f, q) ↦
            ground
              (arith, (option_eq ⦃e = text_eq⦄).equals_iff x.stored.header.previous_event_hash p)
      ]

  pub record IsRun (e : ℕ) (p : Option Text) (accepted : List DecryptedEvent) (expected : ℕ)
      : Type 0 where
    pub chain : Chain e p accepted
    pub counts : expected ≡ e + length accepted
    pub agrees : All (λ x. contradicts pinned x ≡ false) accepted

  pub accept_run-IsRun :
      (xs : List DecryptedEvent) (e : ℕ) (p : Option Text) (r : Run)
      → accept_run pinned device xs e p ≡ ok r
      → IsRun e p r.accepted r.expected
  accept_run-IsRun [] e p r h =
      let (acc, exp) = empty_run e p r h in
      rw (acc, exp) (record { chain = tt; counts = omega arith; agrees = tt })
  accept_run-IsRun (x ∷ xs) e p r h = elim (accept_run_inv x xs e p r h) [
    | inl (stop, exp, _) ↦ rw (stop, exp) (record { chain = tt; counts = omega arith; agrees = tt })
    | inr (rest, q, acc, exp, s, prev, c) ↦
        let ih = accept_run-IsRun xs (e + 1) (some x.event_hash) rest q in
        rw (acc, exp)
          (record {
            chain = (s, prev, ih.chain);
            counts = omega (arith, ih.counts);
            agrees = (c, ih.agrees);
          })
  ]

  pub accept_run-In :
      (xs : List DecryptedEvent) (e : ℕ) (p : Option Text) (r : Run) (a : DecryptedEvent)
      → accept_run pinned device xs e p ≡ ok r
      → In a r.accepted
      → In a xs
  accept_run-In [] e p r a h i = absurd (subst (In a) (empty_run e p r h).0 i)
  accept_run-In (x ∷ xs) e p r a h i = elim (accept_run_inv x xs e p r h) [
    | inl (stop, exp, _) ↦ absurd (subst (In a) stop i)
    | inr (rest, q, acc, exp, s, prev, c) ↦
        let ih = accept_run-In xs (e + 1) (some x.event_hash) rest a q in
        let j : In a (x ∷ rest.accepted) = subst (In a) acc i in ground (arith, j, ih)
  ]

-- A chain holds an event for each number that it runs through.
Chain-at :
    (e : ℕ) (p : Option Text) (xs : List DecryptedEvent) (n : ℕ)
    → Chain e p xs
    → e ≤ n
    → n < e + length xs
    → (x : DecryptedEvent) × In x xs × (sequence_of x ≡ n)
Chain-at e p [] n c low high = absurd (omega arith)
Chain-at e p (x ∷ xs) n (s, prev, c) low high = elim (Bool-cases (nat_beq e n)) [
  | inl same ↦ (x, inl refl, s ∙ (nat_beq_iff e n).0 same)
  | inr other ↦
      let (y, i, t) = Chain-at (e + 1) (some x.event_hash) xs n c (ground arith) (omega arith) in
      (y, inr i, t)
]

same_hash :
    (pinned : StreamCursor) (x : DecryptedEvent)
    → contradicts (some pinned) x ≡ false
    → sequence_of x ≡ pinned.last_sequence
    → some x.event_hash ≡ pinned.last_event_hash
same_hash pinned x h s =
    ground (arith, (option_eq ⦃e = text_eq⦄).equals_iff (some x.event_hash) pinned.last_event_hash)

-- A chain past the pinned number holds the pinned event.
pub run-pinned :
    (pinned : StreamCursor) (device : Text) (xs : List DecryptedEvent) (e : ℕ) (p : Option Text)
    (r end : Run)
    → accept_run (some pinned) device xs e p ≡ ok r
    → end_run (some pinned) device r ≡ ok end
    → 1 ≤ e
    → e ≤ pinned.last_sequence
    → (x : DecryptedEvent) × In x r.accepted
      × (sequence_of x ≡ pinned.last_sequence)
      × (some x.event_hash ≡ pinned.last_event_hash)
unfolding end_run
run-pinned pinned device xs e p r end h k pos low =
    let run = accept_run-IsRun (some pinned) device xs e p r h in
    let (x, i, s) =
      Chain-at e p r.accepted pinned.last_sequence run.chain low (ground (arith, run.counts)) in
    let agree = All-In (λ x. contradicts (some pinned) x ≡ false) x r.accepted run.agrees i in
    (x, i, s, same_hash pinned x agree s)
