-- ===== src/Resources/RemoteTargets/Union.antt =====
-- src/resources/remoteTargets.ts: the merged map against the two that it is made from.
use cursor_setting_sync.Base.{
  ℕ, ◌<◌, ◌≡◌, refl, subst, inl, inr, false, none, some, List, [], ◌∷◌, ◌++◌, arith, length,
  length-append, take, if◌then◌else◌, Bool-cases, ◌+◌, filter, ◌==◌, Bool, true, not, ◌||◌, Option,
  ◌↔◌,
}
use cursor_setting_sync.Base.Texts.{Text, text_eq}
use cursor_setting_sync.Base.Maps.{get, set, get-set, keys}
use cursor_setting_sync.Base.Sets.{has, add, distinct_from, has-last}
use cursor_setting_sync.Resources.RemoteTargets.{
  Hosts, max_hosts, max_folders_per_host, folders_of, collect, proto, write_host, fill_hosts,
  enter_hosts, merge_hosts,
}
use cursor_setting_sync.Resources.RemoteTargets.Folders.{collect_lem}

get-write_host :
    (merged : Hosts) (h host : Text) (folders : List Text)
    → host == proto ≡ false
    → get (write_host merged h folders) host ≡ (if h == host then some folders else get merged host)
get-write_host merged h host folders f = ground (
  arith,
  get-set merged h host folders,
  text_eq.equals_iff h proto,
  text_eq.equals_iff host proto,
  text_eq.equals_iff h host,
)

proto-write_host :
    (merged : Hosts) (h : Text) (folders : List Text)
    → get merged proto ≡ none
    → get (write_host merged h folders) proto ≡ none
proto-write_host merged h folders e =
    ground (arith, get-set merged h proto folders, text_eq.equals_iff h proto)

module _ (preferred other : Hosts) where
  -- The folders of a host on both sides, the preferred side's first.
  abbrev pub both : Text → List Text
  both host = folders_of (get preferred host) ++ folders_of (get other host)

  get-fill_hosts :
      (merged : Hosts) (hosts : List Text) (host : Text)
      → host == proto ≡ false
      → get (fill_hosts preferred other merged hosts) host
        ≡ (if has host hosts then some (collect [] (both host)) else get merged host)
  unfolding fill_hosts has
  get-fill_hosts merged [] host f = refl
  get-fill_hosts merged (h ∷ hosts) host f = ground (
    arith,
    get-fill_hosts (write_host merged h (collect [] (both h))) hosts host f,
    get-write_host merged h host (collect [] (both h)) f,
    text_eq.equals_iff h host,
    text_eq.equals_iff host h,
  )

  proto-fill_hosts :
      (merged : Hosts) (hosts : List Text)
      → get merged proto ≡ none
      → get (fill_hosts preferred other merged hosts) proto ≡ none
  unfolding fill_hosts
  proto-fill_hosts merged [] e = e
  proto-fill_hosts merged (h ∷ hosts) e =
      proto-fill_hosts (write_host merged h (collect [] (both h))) hosts
        (proto-write_host merged h (collect [] (both h)) e)

keys-set :
    (m : Hosts) (h : Text) (v : List Text)
    → has h (keys m) ≡ false
    → keys (set m h v) ≡ keys m ++ h ∷ []
unfolding set has
keys-set [] h v f = refl
keys-set ((j, w) ∷ m) h v f =
    ground (arith, text_eq.equals_iff j h, text_eq.equals_iff h j, keys-set m h v)

abbrev pub is_proto : Text → Bool
is_proto host = host == proto

-- The hosts that are entered: each once, but `__proto__` as often as it is named.
abbrev pub count_hosts : List Text → ℕ
count_hosts names =
    length (distinct_from [] (filter (λ host. not (is_proto host)) names))
    + length (filter is_proto names)

-- The keys after a write of a new host.
keys-write_host :
    (m : Hosts) (h : Text) (v : List Text)
    → has h (keys m) ≡ false
    → keys (write_host m h v) ≡ (if is_proto h then keys m else keys m ++ h ∷ [])
keys-write_host m h v f = ground (arith, keys-set m h v f)

enter_hosts-length :
    (merged : Hosts) (hosts names : List Text)
    → has proto (keys merged) ≡ false
    → length (enter_hosts merged hosts names).1 + length (keys merged)
      ≡ length hosts
        + length (distinct_from (keys merged) (filter (λ host. not (is_proto host)) names))
        + length (filter is_proto names)
unfolding enter_hosts filter distinct_from add
enter_hosts-length merged hosts [] f = omega arith
enter_hosts-length merged hosts (h ∷ names) f = elim (Bool-cases (has h (keys merged))) [
  | inl t ↦
      let other : is_proto h ≡ false = ground (arith, t, f, text_eq.equals_iff h proto) in
      rw (t, other) (rw t (enter_hosts-length merged hosts names f))
  | inr n ↦
      let long = length-append hosts (h ∷ []) in
      elim (Bool-cases (is_proto h)) [
        | inl p ↦
            rw (n, p) (omega (arith, long, enter_hosts-length merged (hosts ++ h ∷ []) names f))
        | inr q ↦
            let k = keys-set merged h [] n in
            let g : has proto (keys (set merged h [])) ≡ false = ground (
              arith,
              f,
              q,
              k,
              has-last proto h (keys merged),
              text_eq.equals_iff proto h,
              text_eq.equals_iff h proto,
            ) in
            let more =
              subst
                (λ (ks : List Text).
                  length (enter_hosts (set merged h []) (hosts ++ h ∷ []) names).1 + length ks
                  ≡ length (hosts ++ h ∷ [])
                    + length (distinct_from ks (filter (λ host. not (is_proto host)) names))
                    + length (filter is_proto names))
                k (enter_hosts-length (set merged h []) (hosts ++ h ∷ []) names g) in
            rw (n, q) (rw n (omega (arith, more, long, length-append (keys merged) (h ∷ []))))
      ]
]

-- What has been entered, and what the names still add.
enter_hosts-has :
    (merged : Hosts) (hosts names : List Text) (host : Text)
    → ((h : Text) → has h (keys merged) ≡ true → has h hosts ≡ true)
    → has host (enter_hosts merged hosts names).1 ≡ has host hosts || has host names
unfolding enter_hosts has
enter_hosts-has merged hosts [] host f = ground arith
enter_hosts-has merged hosts (h ∷ names) host f = elim (Bool-cases (has h (keys merged))) [
  | inl t ↦
      rw t (
        ground (arith, f h t, enter_hosts-has merged hosts names host f, text_eq.equals_iff host h))
  | inr n ↦ rw n (
      ground (
        arith,
        has-last host h hosts,
        enter_hosts-has (write_host merged h []) (hosts ++ h ∷ []) names host (λ k t. ground (
          arith,
          t,
          f k,
          keys-write_host merged h [] n,
          has-last k h hosts,
          has-last k h (keys merged),
        )),
      ))
]

get-enter_hosts :
    (merged : Hosts) (hosts names : List Text) (host : Text)
    → host == proto ≡ false
    → has host names ≡ false
    → get (enter_hosts merged hosts names).0 host ≡ get merged host
unfolding enter_hosts has
get-enter_hosts merged hosts [] host f g = refl
get-enter_hosts merged hosts (h ∷ names) host f g = ground (
  arith,
  g,
  get-enter_hosts merged hosts names host f,
  get-enter_hosts (write_host merged h []) (hosts ++ h ∷ []) names host f,
  get-write_host merged h host [] f,
  text_eq.equals_iff h host,
  text_eq.equals_iff host h,
)

proto-enter_hosts :
    (merged : Hosts) (hosts names : List Text)
    → get merged proto ≡ none
    → get (enter_hosts merged hosts names).0 proto ≡ none
unfolding enter_hosts
proto-enter_hosts merged hosts [] e = e
proto-enter_hosts merged hosts (h ∷ names) e = ground (
  arith,
  proto-enter_hosts merged hosts names e,
  proto-enter_hosts (write_host merged h []) (hosts ++ h ∷ []) names
      (proto-write_host merged h [] e),
)

module _ (preferred other : Hosts) where
  abbrev pub named : List Text
  named = keys preferred ++ keys other

  -- What the merged map has under a name.
  abbrev pub merged_folders : Text → Option (List Text)
  merged_folders host =
      if is_proto host || not (has host named)
      then none
      else some (take max_folders_per_host (distinct_from [] (both preferred other host)))

  -- The merge is a conflict exactly if the hosts that the two sides name are more than the limit, each
  -- counted once, but `__proto__` as often as it is named. Else it has the hosts of both sides except
  -- `__proto__`, and no other; and of each host it has, each once, the folders of the preferred side
  -- in their order, then the others of the other side in theirs, up to the limit.
  pub merge_hosts_lem :
      ((merge_hosts preferred other ≡ none) ↔ (max_hosts < count_hosts named))
      × ((merged : Hosts) (host : Text)
          → merge_hosts preferred other ≡ some merged
          → get merged host ≡ merged_folders host)
  unfolding merge_hosts get has
  merge_hosts_lem =
      let size = enter_hosts-length [] [] named refl in
      let merge = enter_hosts [] [] named in
      (
        (λ h. ground (arith, h, size), λ h. ground (arith, h, size)),
        λ merged host h.
            let same : merged ≡ fill_hosts preferred other merge.0 merge.1 = ground (arith, h) in
            rw same (
              ground (
                arith,
                get-fill_hosts preferred other merge.0 merge.1 host,
                proto-fill_hosts preferred other merge.0 merge.1,
                proto-enter_hosts [] [] named refl,
                get-enter_hosts [] [] named host,
                enter_hosts-has [] [] named host (λ k t. absurd (cc)),
                collect_lem [] (both preferred other host) (omega arith),
                text_eq.equals_iff host proto,
              )),
      )
