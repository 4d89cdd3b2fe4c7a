-- ===== src/Audit/Evidence.antt =====
-- audit.go: which edits of a log `VerifyChain` detects, and which it does not.
use mathlib.Core.List.{append_assoc}
use topo.Prelude.{
  ℕ, ◌+◌, false, All, subst, ◌≡◌, ◌≢◌, ◌⊎◌, refl, sym, ap, ◌∙◌, true, List, [], ◌∷◌, ◌++◌, length,
  arith, bytes_eq, bytes_eq_refl, bytes_eq_iff_true, sort_slice, insert_sorted, ok, inl, inr,
  Bool-cases,
}
use topo.Audit.{
  Text, AuditText, Entry, detail_bytes, entry_bytes, hash_entry, verify_from, verify_chain,
  key_less,
}
use topo.Audit.Chain.{verify_from-cons, verify_from_ok, entry_ok, last_hash}
use topo.Audit.Fields.{
  has_nul, equal_parts, cut_nul, cut_front, detail_text, detail_bytes-pairs_text,
}

-- Two entries that agree in each field, the details up to the text of their pairs.
abbrev pub SameEntry : Entry → Entry → Type 0
SameEntry x y =
    (x.sequence ≡ y.sequence)
    × (x.recorded_at ≡ y.recorded_at)
    × (x.action ≡ y.action)
    × (x.actor ≡ y.actor)
    × (detail_text x.detail ≡ detail_text y.detail)
    × (x.prev_hash ≡ y.prev_hash)
    × (x.hash ≡ y.hash)

abbrev pub SameLog : List Entry → List Entry → Type 0
SameLog [] [] = Unit
SameLog (x ∷ xs) (y ∷ ys) = SameEntry x y × SameLog xs ys
SameLog _ _ = ⊥

-- An entry whose action and actor hold no NUL.
abbrev pub IsPlain : Entry → Type 0
IsPlain e = (has_nul e.action ≡ false) × (has_nul e.actor ≡ false)

-- An entry whose only detail is the key `k` with the value `v=w`.
abbrev pub with_value : Entry → Text → Text → Text → Entry
with_value e k v w = record e { detail = (k, v ++ (b'=' ∷ w)) ∷ [] }

-- The same entry with the key `k=v` and the value `w`.
abbrev pub with_key : Entry → Text → Text → Text → Entry
with_key e k v w = record e { detail = (k ++ (b'=' ∷ v), w) ∷ [] }

module _ (text : AuditText) where
  open text use {sha256_hex, format_int, format_time}

  -- The text that the hash of an entry is to be of: its fields with a NUL behind each, the text of
  -- the pairs, and the hash before it.
  abbrev behind_sequence : Entry → Text
  behind_sequence e =
      format_time e.recorded_at
      ++ (0 ∷ (e.action ++ (0 ∷ (e.actor ++ (0 ∷ (detail_text e.detail ++ e.prev_hash))))))

  pub hashed_text : Entry → Text
  hashed_text e = format_int e.sequence ++ (0 ∷ behind_sequence e)

  -- Two entries at one position of the logs have different texts with one SHA-256.
  abbrev pub Collide : List Entry → List Entry → Type 0
  Collide (x ∷ xs) (y ∷ ys) =
      ((hashed_text x ≢ hashed_text y) × (sha256_hex (hashed_text x) ≡ sha256_hex (hashed_text y)))
      ⊎ Collide xs ys
  Collide _ _ = ⊥

  hash-hashed_text : (e : Entry) → hash_entry text e ≡ sha256_hex (hashed_text e)
  unfolding hash_entry entry_bytes detail_bytes hashed_text detail_text
  hash-hashed_text e =
      ap
        (λ d. sha256_hex (
          format_int e.sequence
          ++ (0
              ∷ (format_time e.recorded_at
                  ++ (0 ∷ (e.action ++ (0 ∷ (e.actor ++ (0 ∷ (d ++ e.prev_hash))))))))))
        (detail_bytes-pairs_text (sort_slice key_less e.detail))

  entry_facts :
      (index : ℕ) (prev : Text) (e : Entry)
      → entry_ok text index prev e ≡ true
      → (e.sequence ≡ index + 1) × (e.prev_hash ≡ prev) × (sha256_hex (hashed_text e) ≡ e.hash)
  entry_facts index prev e o = (
    ground arith,
    bytes_eq_iff_true e.prev_hash prev (ground arith),
    sym (hash-hashed_text e) ∙ bytes_eq_iff_true (hash_entry text e) e.hash (ground arith),
  )

  module _ (size : (a : Text) → length (sha256_hex a) ≡ 64)
      (distinct : (a b : ℕ) → format_time a ≡ format_time b → a ≡ b)
      (no_nul : (a : ℕ) → has_nul (format_time a) ≡ false) where
    same_fields :
        (x y : Entry)
        → IsPlain x
        → IsPlain y
        → x.sequence ≡ y.sequence
        → length x.prev_hash ≡ length y.prev_hash
        → x.hash ≡ y.hash
        → hashed_text x ≡ hashed_text y
        → SameEntry x y
    unfolding hashed_text
    same_fields x y px py n l h e =
        let rest = cut_front (0 ∷ []) (behind_sequence x) (behind_sequence y) (
          cut_front (format_int y.sequence) (0 ∷ behind_sequence x) (0 ∷ behind_sequence y)
            (subst (λ m. format_int m ++ (0 ∷ behind_sequence x) ≡ hashed_text y) n e)) in
        let time = cut_nul _ _ _ _ (no_nul x.recorded_at) (no_nul y.recorded_at) rest in
        let action = cut_nul x.action y.action _ _ px.0 py.0 time.1 in
        let actor = cut_nul x.actor y.actor _ _ px.1 py.1 action.1 in
        let ends = equal_parts (detail_text x.detail) (detail_text y.detail) _ _ actor.1 l in
        (n, distinct _ _ time.0, action.0, actor.0, ends.0, ends.1, h)

    -- Accepted logs of one length, with one last hash, agree.
    same_chain :
        (index : ℕ) (p q : Text) (xs ys : List Entry)
        → length xs ≡ length ys
        → All IsPlain xs
        → All IsPlain ys
        → length p ≡ length q
        → verify_from text index p xs ≡ ok tt
        → verify_from text index q ys ≡ ok tt
        → last_hash p xs ≡ last_hash q ys
        → SameLog xs ys × (p ≡ q) ⊎ Collide xs ys
    same_chain index p q [] [] n px py l vx vy h = inl (tt, h)
    same_chain index p q [] (y ∷ ys) n px py l vx vy h = absurd (omega arith)
    same_chain index p q (x ∷ xs) [] n px py l vx vy h = absurd (omega arith)
    same_chain index p q (x ∷ xs) (y ∷ ys) n px py l vx vy h =
        let (ox, wx) = verify_from-cons text index p x xs vx in
        let (oy, wy) = verify_from-cons text index q y ys vy in
        let (sx, bx, hx) = entry_facts index p x ox in
        let (sy, by, hy) = entry_facts index q y oy in
        let sizes =
          ap length (sym hx)
          ∙ size (hashed_text x)
          ∙ sym (ap length (sym hy) ∙ size (hashed_text y)) in
        elim (same_chain (index + 1) x.hash y.hash xs ys (omega arith) px.1 py.1 sizes wx wy h) [
          | inr c ↦ inr (inr c)
          | inl (tails, hashes) ↦ elim (Bool-cases (bytes_eq (hashed_text x) (hashed_text y))) [
            | inr other ↦ inr (
                inl (
                  (λ e. cc (bytes_eq_refl (hashed_text x), ap (bytes_eq (hashed_text x)) e, other)),
                  hx ∙ hashes ∙ sym hy,
                ))
            | inl same ↦
                let fields =
                  same_fields x y px.0 py.0 (sx ∙ sym sy) (ap length bx ∙ l ∙ sym (ap length by))
                    hashes (bytes_eq_iff_true (hashed_text x) (hashed_text y) same) in
                inl ((fields, tails), sym bx ∙ fields.5 ∙ by)
          ]
        ]

    -- If two logs of the same length are both accepted and end in the same hash, and no action or
    -- actor in them holds a NUL, then their entries agree in sequence, time, action, actor, the
    -- key=value text of the sorted details, previous hash and hash, or two entries at one position
    -- have different texts with the same SHA-256. The hexadecimal SHA-256 has 64 digits; different
    -- times have different texts, without a NUL.
    pub verify-evidence :
        (xs ys : List Entry)
        → length xs ≡ length ys
        → All IsPlain xs
        → All IsPlain ys
        → verify_chain text xs ≡ ok tt
        → verify_chain text ys ≡ ok tt
        → last_hash [] xs ≡ last_hash [] ys
        → SameLog xs ys ⊎ Collide xs ys
    unfolding verify_chain
    verify-evidence xs ys n px py vx vy h = elim (same_chain 0 [] [] xs ys n px py refl vx vy h) [
      | inl (same, e) ↦ inl same
      | inr c ↦ inr c
    ]

  verify_from-front :
      (index : ℕ) (prev : Text) (es fs : List Entry)
      → verify_from text index prev (es ++ fs) ≡ ok tt
      → verify_from text index prev es ≡ ok tt
  unfolding verify_from
  verify_from-front index prev [] fs v = refl
  verify_from-front index prev (e ∷ es) fs v =
      let parts = verify_from-cons text index prev e (es ++ fs) v in
      verify_from_ok text index prev e es parts.0
      ∙ verify_from-front (index + 1) e.hash es fs parts.1

  -- `VerifyChain` accepts what is left of an accepted log when entries are removed from its end.
  pub verify-front :
      (es fs : List Entry) → verify_chain text (es ++ fs) ≡ ok tt → verify_chain text es ≡ ok tt
  unfolding verify_chain
  verify-front es fs v = verify_from-front 0 [] es fs v

  same_detail :
      (k v w : Text)
      → detail_bytes ((k, v ++ (b'=' ∷ w)) ∷ []) ≡ detail_bytes ((k ++ (b'=' ∷ v), w) ∷ [])
  unfolding detail_bytes
  same_detail k v w = simp append_assoc

  same_hash :
      (e : Entry) (k v w : Text)
      → hash_entry text (with_value e k v w) ≡ hash_entry text (with_key e k v w)
  unfolding hash_entry entry_bytes sort_slice insert_sorted
  same_hash e k v w =
      ap
        (λ (d : Text). sha256_hex (
          format_int e.sequence
          ++ (0
              ∷ (format_time e.recorded_at
                  ++ (0 ∷ (e.action ++ (0 ∷ (e.actor ++ (0 ∷ (d ++ e.prev_hash))))))))))
        (same_detail k v w)

  verify_from-detail_edit :
      (index : ℕ) (prev : Text) (es fs : List Entry) (e : Entry) (k v w : Text)
      → verify_from text index prev (es ++ with_value e k v w ∷ fs)
        ≡ verify_from text index prev (es ++ with_key e k v w ∷ fs)
  unfolding verify_from
  verify_from-detail_edit index prev [] fs e k v w = rw (same_hash e k v w)
  verify_from-detail_edit index prev (f ∷ es) fs e k v w =
      rw (verify_from-detail_edit (index + 1) f.hash es fs e k v w)

  -- `VerifyChain` gives the same answer when the only detail of one entry, the key `k` with the
  -- value `v=w`, is edited to the key `k=v` with the value `w`.
  pub verify-detail_edit :
      (es fs : List Entry) (e : Entry) (k v w : Text)
      → verify_chain text (es ++ with_value e k v w ∷ fs)
        ≡ verify_chain text (es ++ with_key e k v w ∷ fs)
  unfolding verify_chain
  verify-detail_edit es fs e k v w = verify_from-detail_edit 0 [] es fs e k v w
