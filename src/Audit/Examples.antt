-- ===== src/Audit/Examples.antt =====
-- A log of two entries under a digest that copies, and the theorems at it.
use topo.Prelude.{
  ℕ, zero, suc, ◌≡◌, ◌⊎◌, refl, ap, List, [], ◌∷◌, All, false, arith, length, codes, sort_slice,
  insert_sorted, bytes_eq, ok,
}
use topo.Audit.{
  Text, AuditText, Event, Entry, hash_entry, entry_bytes, detail_bytes, verify_chain, verify_from,
  append_all, append_audit_event, chain,
}
use topo.Audit.Chain.{append_all-verifies}
use topo.Audit.Fields.{has_nul}
use topo.Audit.Evidence.{
  SameLog, Collide, IsPlain, verify-evidence, verify-front, verify-detail_edit, with_value,
  with_key,
}

-- The first n code points, filled up with zeros.
fit : ℕ → Text → Text
fit zero a = []
fit (suc n) [] = 0 ∷ fit n []
fit (suc n) (c ∷ a) = c ∷ fit n a

length-fit : (n : ℕ) (a : Text) → length (fit n a) ≡ n
unfolding fit
length-fit zero a = refl
length-fit (suc n) [] = ap suc (length-fit n [])
length-fit (suc n) (c ∷ a) = ap suc (length-fit n a)

abbrev copying : AuditText
copying = record { sha256_hex = fit 64; format_int = λ n. n ∷ []; format_time = λ n. suc n ∷ [] }

abbrev events : List (ℕ × Event)
events =
    (10, record { action = codes "job_created"; actor = codes "api-key"; detail = [] })
    ∷ (
      12,
      record {
        action = codes "token";
        actor = codes "api-key";
        detail = (codes "b", codes "2") ∷ (codes "a", codes "1") ∷ [];
      },
    )
    ∷ []

abbrev log : List Entry
log = append_all copying [] events

log_verifies : verify_chain copying log ≡ ok tt
unfolding verify_chain verify_from
log_verifies = append_all-verifies copying [] events refl

append_all-verifies_example : verify_chain copying (append_all copying [] events) ≡ ok tt
unfolding verify_chain verify_from
append_all-verifies_example = append_all-verifies copying [] events refl

no_nul_time : (a : ℕ) → has_nul (suc a ∷ []) ≡ false
no_nul_time a = ground arith

log-IsPlain : All IsPlain log
unfolding chain append_all append_audit_event
log-IsPlain = ((refl, refl), ((refl, refl), tt))

verify-evidence_example : SameLog log log ⊎ Collide copying log log
verify-evidence_example =
    verify-evidence copying (length-fit 64) (λ a b e. ground (arith, e)) no_nul_time log log refl
      log-IsPlain log-IsPlain log_verifies log_verifies refl

abbrev first_entry : Entry
first_entry = chain copying [] 1 10 (record {
  action = codes "job_created";
  actor = codes "api-key";
  detail = (codes "k", codes "v=w") ∷ [];
})

one_verifies : verify_chain copying (first_entry ∷ []) ≡ ok tt
unfolding verify_chain verify_from chain hash_entry entry_bytes detail_bytes sort_slice
    insert_sorted bytes_eq fit
one_verifies = refl

verify-front_example : verify_chain copying [] ≡ ok tt
verify-front_example = verify-front copying [] (first_entry ∷ []) one_verifies

verify-detail_edit_example :
    verify_chain copying (with_value first_entry (codes "k") (codes "v") (codes "w") ∷ [])
    ≡ verify_chain copying (with_key first_entry (codes "k") (codes "v") (codes "w") ∷ [])
verify-detail_edit_example =
    verify-detail_edit copying [] [] first_entry (codes "k") (codes "v") (codes "w")
