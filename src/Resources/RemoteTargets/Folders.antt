-- ===== src/Resources/RemoteTargets/Folders.antt =====
-- src/resources/remoteTargets.ts: the folders that are collected of one host.
use cursor_setting_sync.Base.{
  ℕ, zero, suc, ◌≤◌, ◌<◌, ◌≡◌, refl, sym, ap, ◌∙◌, inl, inr, List, [], ◌∷◌, ◌++◌, ++-nil, ++-assoc,
  arith, leb, length, length-append, take, take-length, Bool-cases,
}
use cursor_setting_sync.Base.Texts.{Text, text_eq}
use cursor_setting_sync.Base.Sets.{has, add, distinct_from}
use cursor_setting_sync.Resources.RemoteTargets.{max_folders_per_host, collect}

distinct_from-prefix :
    (seen xs : List Text) → (ys : List Text) × (distinct_from seen xs ≡ seen ++ ys)
unfolding distinct_from add
distinct_from-prefix seen [] = ([], sym (++-nil seen))
distinct_from-prefix seen (x ∷ xs) = elim (Bool-cases (has x seen)) [
  | inl t ↦ rw t (distinct_from-prefix seen xs)
  | inr f ↦
      let (ys, e) = distinct_from-prefix (seen ++ x ∷ []) xs in
      rw f (x ∷ ys, e ∙ ++-assoc seen (x ∷ []) ys)
]

take-all : {A : Type 0} (n : ℕ) (xs : List A) → length xs ≤ n → take n xs ≡ xs
take-all zero [] h = refl
take-all zero (x ∷ xs) h = absurd (omega arith)
take-all (suc n) [] h = refl
take-all (suc n) (x ∷ xs) h = ap (◌∷◌ x) (take-all n xs (omega arith))

-- At the limit the loop has what the prefix of the limit's length has.
take-distinct_from :
    (seen xs : List Text) (n : ℕ) → length seen ≡ n → take n (distinct_from seen xs) ≡ seen
take-distinct_from seen xs n h =
    let (ys, e) = distinct_from-prefix seen xs in
    ap (λ (l : List Text). take n l) e ∙ ap (λ k. take k (seen ++ ys)) (sym h) ∙ take-length seen ys

pub collect_lem :
    (folders xs : List Text)
    → length folders < max_folders_per_host
    → collect folders xs ≡ take max_folders_per_host (distinct_from folders xs)
unfolding collect distinct_from add
collect_lem folders [] h = sym (take-all max_folders_per_host folders (omega arith))
collect_lem folders (x ∷ xs) h = elim (Bool-cases (has x folders)) [
  | inl t ↦ rw t (collect_lem folders xs h)
  | inr f ↦ elim (Bool-cases (leb max_folders_per_host (length (folders ++ x ∷ [])))) [
    | inl full ↦
        rw (f, full)
          (sym (
            take-distinct_from (folders ++ x ∷ []) xs max_folders_per_host
              (ground (arith, full, length-append folders (x ∷ [])))))
    | inr more ↦ rw (f, more) (collect_lem (folders ++ x ∷ []) xs (ground (arith, more)))
  ]
]
