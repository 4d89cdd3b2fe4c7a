-- ===== src/Audit/Chain.antt =====
-- audit.go: appended logs verify.
use topo.Prelude.{
  ℕ, suc, ◌+◌, ◌≡◌, refl, ◌∙◌, Bool, true, ◌&&◌, List, [], ◌∷◌, ◌++◌, length, get_last?, arith,
  ◌==◌, bytes_eq, bytes_eq_refl, ok,
}
use Prim.Native.Nat.add
use native.Mathlib.Nat.{add-zero}
use topo.Audit.{
  Text, AuditText, Event, Entry, entry_bytes, hash_entry, chain, hash_before, verify_from,
  verify_chain, append_audit_event, append_all,
}

-- The hash that the next entry refers to.
abbrev pub last_hash : Text → List Entry → Text
last_hash prev [] = prev
last_hash prev (e ∷ rest) = last_hash e.hash rest

last_hash_cons :
    (prev : Text) (e : Entry) (es : List Entry)
    → last_hash prev (e ∷ es) ≡ hash_before (get_last? (e ∷ es))
last_hash_cons prev e [] = refl
last_hash_cons prev e (f ∷ es) = last_hash_cons e.hash f es

last_hash-eq-hash_before : (es : List Entry) → last_hash [] es ≡ hash_before (get_last? es)
last_hash-eq-hash_before [] = refl
last_hash-eq-hash_before (e ∷ es) = last_hash_cons [] e es

shift : (n index : ℕ) → suc n + index ≡ n + (index + 1)
shift n index = omega arith

module _ (text : AuditText) where
  -- What `VerifyChain` tests of one entry.
  abbrev pub entry_ok : ℕ → Text → Entry → Bool
  entry_ok index prev e =
      e.sequence == index + 1 && bytes_eq e.prev_hash prev && bytes_eq (hash_entry text e) e.hash

  -- A log verifies exactly when every entry passes.
  pub verify_from-cons :
      (index : ℕ) (prev : Text) (e : Entry) (es : List Entry)
      → verify_from text index prev (e ∷ es) ≡ ok tt
      → (entry_ok index prev e ≡ true) × (verify_from text (index + 1) e.hash es ≡ ok tt)
  unfolding verify_from
  verify_from-cons index prev e es h = ground arith

  pub verify_from_ok :
      (index : ℕ) (prev : Text) (e : Entry) (es : List Entry)
      → entry_ok index prev e ≡ true
      → verify_from text index prev (e ∷ es) ≡ verify_from text (index + 1) e.hash es
  unfolding verify_from
  verify_from_ok index prev e es h = ground arith

  verify_from-append :
      (index : ℕ) (prev : Text) (es : List Entry) (e : Entry)
      → verify_from text index prev es ≡ ok tt
      → entry_ok (length es + index) (last_hash prev es) e ≡ true
      → verify_from text index prev (es ++ e ∷ []) ≡ ok tt
  unfolding verify_from
  verify_from-append index prev [] e v o =
      rw (verify_from_ok index prev e [] (rw (add.zero index) at o)) refl
  verify_from-append index prev (f ∷ es) e v o =
      let parts = verify_from-cons index prev f es v in
      verify_from_ok index prev f (es ++ e ∷ []) parts.0
      ∙ verify_from-append (index + 1) f.hash es e parts.1 (rw (shift (length es) index) at o)

  -- The entry that `Chain` builds passes behind the hash that it was built with.
  chain_ok :
      (index now : ℕ) (prev : Text) (e : Event)
      → entry_ok index prev (chain text prev (index + 1) now e) ≡ true
  unfolding chain hash_entry entry_bytes
  chain_ok index now prev e =
      ground (arith, bytes_eq_refl prev, bytes_eq_refl (chain text prev (index + 1) now e).hash)

  pub append-verifies :
      (entries : List Entry) (now : ℕ) (e : Event)
      → verify_chain text entries ≡ ok tt
      → verify_chain text (append_audit_event text entries now e) ≡ ok tt
  unfolding verify_chain append_audit_event
  append-verifies entries now e v = rw (← last_hash-eq-hash_before entries) (
      verify_from-append 0 [] entries (chain text (last_hash [] entries) (length entries + 1) now e)
        v (rw add-zero (chain_ok (length entries) now (last_hash [] entries) e)))

  -- `VerifyChain` accepts every log that `AppendAuditEvent` has built from a log that it accepts.
  pub append_all-verifies :
      (entries : List Entry) (events : List (ℕ × Event))
      → verify_chain text entries ≡ ok tt
      → verify_chain text (append_all text entries events) ≡ ok tt
  unfolding append_all
  append_all-verifies entries [] v = v
  append_all-verifies entries ((now, e) ∷ rest) v =
      append_all-verifies (append_audit_event text entries now e) rest
        (append-verifies entries now e v)

  pub empty-verifies : verify_chain text [] ≡ ok tt
  unfolding verify_chain verify_from
  empty-verifies = refl
