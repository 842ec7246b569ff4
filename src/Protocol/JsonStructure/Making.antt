-- ===== src/Protocol/JsonStructure/Making.antt =====
-- src/protocol/jsonStructure.ts: a text that the loop reads to its end is one of the grammar.
use cursor_setting_sync.Base.{
  ℕ, ◌≡◌, refl, inl, inr, Bool, true, false, some, List, [], ◌∷◌, arith, Bool-cases, ap, ◌↔◌, subst,
  drop,
}
use cursor_setting_sync.Protocol.JsonStructure.{
  Mode, Token, Reading, stays, skipping, read, read_plain, read_string, next_of, ends_well,
}
use cursor_setting_sync.Protocol.JsonStructure.Lexing.{
  Lexed, Region, outside, string, comment, block, IsToken, StartsComment, done, quote, line, begin,
  token, other, unquote, escape, inside, last, newline, remark, finish, goes_on,
}
use cursor_setting_sync.Protocol.JsonStructure.Rounds.{
  cons_token, tokens, last_mode, mode_of, decide, IsToken-cases, other-read, token-read, Reads,
  Lexed-Reads,
}

module _ (allow : Bool) where
  -- The text from a place on, if it ends well, is made of what the loop reads.
  abbrev IsMade : Region → List ℕ → Type 0
  IsMade r cs =
      ends_well (last_mode allow (mode_of r) false cs) ≡ true
      → Lexed allow r cs (tokens allow (mode_of r) false cs)

  IsMade-stays :
      (r after : Region) (x : ℕ) (cs : List ℕ)
      → read allow (mode_of r) x (next_of cs) ≡ stays (mode_of after)
      → ((ts : List Token) → Lexed allow after cs ts → Lexed allow r (x ∷ cs) ts)
      → IsMade after cs
      → IsMade r (x ∷ cs)
  unfolding tokens last_mode
  IsMade-stays r after x cs e make made = rw e (λ h. make _ (made h))

  IsMade-token :
      (x : ℕ) (cs : List ℕ) (t : Token) → IsToken x t → IsMade outside cs → IsMade outside (x ∷ cs)
  unfolding tokens last_mode read
  IsMade-token x cs t i made = rw (token-read allow x (next_of cs) t i) (λ h. token i (made h))

  skipped :
      (mode after : Mode) (x y : ℕ) (cs : List ℕ)
      → read allow mode x (some y) ≡ skipping after
      → (tokens allow mode false (x ∷ y ∷ cs) ≡ tokens allow after false cs)
        × (last_mode allow mode false (x ∷ y ∷ cs) ≡ last_mode allow after false cs)
  unfolding tokens last_mode
  skipped mode after x y cs e = (
    ap (λ (r : Reading). cons_token r.token (tokens allow r.mode r.skips (y ∷ cs))) e,
    ap (λ (r : Reading). last_mode allow r.mode r.skips (y ∷ cs)) e,
  )

  IsMade-skips :
      (r after : Region) (x y : ℕ) (cs : List ℕ)
      → read allow (mode_of r) x (some y) ≡ skipping (mode_of after)
      → ((ts : List Token) → Lexed allow after cs ts → Lexed allow r (x ∷ y ∷ cs) ts)
      → IsMade after cs
      → IsMade r (x ∷ y ∷ cs)
  IsMade-skips r after x y cs e make made h =
      let (p, q) = skipped (mode_of r) (mode_of after) x y cs e in
      rw p (make _ (made (subst (λ m. ends_well m ≡ true) q h)))

  IsMade-string :
      (x : ℕ) (cs : List ℕ)
      → IsMade outside cs
      → IsMade string cs
      → ((y : ℕ) (ys : List ℕ) → cs ≡ y ∷ ys → IsMade string ys)
      → IsMade string (x ∷ cs)
  unfolding tokens last_mode read read_string
  IsMade-string x cs out str next = elim (decide x 0x22) [
    | inl e ↦ rw e (λ h. unquote (out h))
    | inr q ↦ elim (decide x 0x5c) [
      | inl e ↦ rw e (escaped cs next)
      | inr b ↦ IsMade-stays string string x cs (ground arith) (λ ts. inside q b) str
    ]
  ]
    where
      escaped :
          (ds : List ℕ)
          → ((y : ℕ) (ys : List ℕ) → ds ≡ y ∷ ys → IsMade string ys)
          → IsMade string (0x5c ∷ ds)
      escaped [] next' h = absurd (cc)
      escaped (y ∷ ys) next' h = escape (next' y ys refl h)

  IsMade-quote : (x : ℕ) (cs : List ℕ) → x ≡ 0x22 → IsMade string cs → IsMade outside (x ∷ cs)
  unfolding read read_plain
  IsMade-quote x cs e made =
      IsMade-stays outside string x cs (ground arith) (λ ts l. rw e (quote l)) made

  IsMade-comment :
      (x : ℕ) (cs : List ℕ) → IsMade outside cs → IsMade comment cs → IsMade comment (x ∷ cs)
  unfolding read
  IsMade-comment x cs out rest = elim (decide x 0x0a) [
    | inl e ↦ IsMade-stays comment outside x cs (ground arith) (λ ts. newline (inl e)) out
    | inr m ↦ elim (decide x 0x0d) [
      | inl e ↦ IsMade-stays comment outside x cs (ground arith) (λ ts. newline (inr e)) out
      | inr n ↦ IsMade-stays comment comment x cs (ground arith) (λ ts. remark m n) rest
    ]
  ]

  IsMade-block_last : (x : ℕ) → IsMade block [] → IsMade block (x ∷ [])
  unfolding read
  IsMade-block_last x rest =
      IsMade-stays block block x [] (ground arith) (λ ts. goes_on (λ e. e)) rest

  IsMade-block :
      (x y : ℕ) (cs : List ℕ)
      → IsMade outside cs
      → IsMade block (y ∷ cs)
      → IsMade block (x ∷ y ∷ cs)
  unfolding read
  IsMade-block x y cs out rest = elim (decide x 0x2a) [
    | inl e ↦ elim (decide y 0x2f) [
      | inl f ↦ IsMade-skips block outside x y cs (ground arith) (λ ts l. rw (e, f) (finish l)) out
      | inr g ↦ IsMade-stays block block x (y ∷ cs) (ground arith) (λ ts. goes_on (λ k. g k.1)) rest
    ]
    | inr g ↦ IsMade-stays block block x (y ∷ cs) (ground arith) (λ ts. goes_on (λ k. g k.0)) rest
  ]

  IsMade-other :
      (x : ℕ) (cs : List ℕ)
      → ¬ (x ≡ 0x22)
      → ¬ StartsComment allow x cs
      → IsMade outside cs
      → IsMade outside (x ∷ cs)
  unfolding read
  IsMade-other x cs q n out = elim (IsToken-cases x) [
    | inl (t, i) ↦ IsMade-token x cs t i out
    | inr none_of ↦
        IsMade-stays outside outside x cs (other-read allow x cs q none_of n)
          (λ ts. other q none_of n) out
  ]

  IsMade-outside :
      (x y : ℕ) (cs : List ℕ)
      → IsMade comment cs
      → IsMade block cs
      → IsMade outside (y ∷ cs)
      → ¬ (x ≡ 0x22)
      → IsMade outside (x ∷ y ∷ cs)
  unfolding read read_plain
  IsMade-outside x y cs in_line in_block out q = elim (decide x 0x2f) [
    | inr n ↦ IsMade-other x (y ∷ cs) q (λ k. n k.1) out
    | inl e ↦ elim (Bool-cases allow) [
      | inr f ↦ IsMade-other x (y ∷ cs) q (λ k. ground (arith, f, k.0)) out
      | inl a ↦ elim (decide y 0x2f) [
        | inl f ↦
            IsMade-skips outside comment x y cs (ground arith) (λ ts l. rw (e, f) (line a l))
              in_line
        | inr g ↦ elim (decide y 0x2a) [
          | inl f ↦
              IsMade-skips outside block x y cs (ground arith) (λ ts l. rw (e, f) (begin a l))
                in_block
          | inr m ↦ IsMade-other x (y ∷ cs) q (λ k. ground (arith, k.2)) out
        ]
      ]
    ]
  ]

  Reads-Lexed : (r : Region) (cs : List ℕ) → IsMade r cs
  unfolding tokens last_mode read read_plain
  Reads-Lexed outside [] = λ h. done
  Reads-Lexed string [] = λ h. absurd (cc)
  Reads-Lexed comment [] = λ h. last
  Reads-Lexed block [] = λ h. absurd (cc)
  Reads-Lexed string (x ∷ []) =
      IsMade-string x [] (Reads-Lexed outside []) (Reads-Lexed string []) (λ y ys e. absurd (cc))
  Reads-Lexed string (x ∷ y ∷ cs) =
      let rest = Reads-Lexed string cs in
      IsMade-string x (y ∷ cs) (Reads-Lexed outside (y ∷ cs)) (Reads-Lexed string (y ∷ cs))
        (λ z zs e. subst (λ (l : List ℕ). IsMade string l) (ap (λ (l : List ℕ). drop 1 l) e) rest)
  Reads-Lexed comment (x ∷ cs) =
      IsMade-comment x cs (Reads-Lexed outside cs) (Reads-Lexed comment cs)
  Reads-Lexed block (x ∷ []) = IsMade-block_last x (Reads-Lexed block [])
  Reads-Lexed block (x ∷ y ∷ cs) =
      IsMade-block x y cs (Reads-Lexed outside cs) (Reads-Lexed block (y ∷ cs))
  Reads-Lexed outside (x ∷ []) = elim (decide x 0x22) [
    | inl e ↦ IsMade-quote x [] e (Reads-Lexed string [])
    | inr q ↦ IsMade-other x [] q (λ k. k) (Reads-Lexed outside [])
  ]
  Reads-Lexed outside (x ∷ y ∷ cs) = elim (decide x 0x22) [
    | inl e ↦ IsMade-quote x (y ∷ cs) e (Reads-Lexed string (y ∷ cs))
    | inr q ↦
        IsMade-outside x y cs (Reads-Lexed comment cs) (Reads-Lexed block cs)
          (Reads-Lexed outside (y ∷ cs)) q
  ]

  -- A text is made of tokens in the grammar exactly if the loop reads those and ends well.
  pub Lexed_iff :
      (cs : List ℕ) (ts : List Token) → Lexed allow outside cs ts ↔ Reads allow outside cs ts
  Lexed_iff cs ts = (
    λ l. Lexed-Reads allow outside cs ts l,
    λ (p, q). subst (λ (l : List Token). Lexed allow outside cs l) p (Reads-Lexed outside cs q),
  )
