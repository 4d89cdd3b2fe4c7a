-- ===== src/Controller/Certificates/Enrolled.antt =====
-- server.go: a certificate is issued for a token once.
use topo.Prelude.{
  ℕ, ◌≡◌, refl, sym, subst, Bool, true, false, Option, none, some, ok, err, arith, Bool-cases, inl,
  inr,
}
use topo.Audit.{AuditText}
use topo.Enrollment.Ids.{valid_collector_id}
use topo.Enrollment.Tokens.{TokenStore, redeem}
use topo.Enrollment.Tokens.SingleUse.{Runs, redeem_once}
use topo.Controller.Server.{Reply}
use topo.Controller.Certificates.{
  Authority, Enrolling, EnrollRequest, EnrollResponse, enroll, enroll_parsed, enroll_redeemed,
}

abbrev pub is_ok : {A : Type 0} → Reply A → Bool
is_ok (ok a) = true
is_ok (err code) = false

module _ {Csr : Type 0} (text : AuditText) (authority : Authority Csr) where
  -- Where a reply has a certificate, the token was redeemed.
  abbrev Redeemed : Enrolling → EnrollRequest → ℕ → Enrolling × Reply EnrollResponse → Type 0
  Redeemed s req now out =
      ((redeem s.tokens req.token req.collector_id now).1 ≡ true)
      × (out.0.tokens ≡ (redeem s.tokens req.token req.collector_id now).0)

  enroll_redeemed-tokens :
      (s : Enrolling) (req : EnrollRequest) (csr : Csr) (now recorded : ℕ) (tokens : TokenStore)
      (accepted : Bool)
      → is_ok (enroll_redeemed text authority s req csr now recorded (tokens, accepted)).1 ≡ true
      → (accepted ≡ true)
        × ((enroll_redeemed text authority s req csr now recorded (tokens, accepted)).0.tokens
            ≡ tokens)
  unfolding enroll_redeemed
  enroll_redeemed-tokens s req csr now recorded tokens true h = (refl, refl)
  enroll_redeemed-tokens s req csr now recorded tokens false h = ground arith

  enroll_parsed-Redeemed :
      (s : Enrolling) (req : EnrollRequest) (now recorded : ℕ) (csr : Option Csr)
      → is_ok (enroll_parsed text authority s req now recorded csr).1 ≡ true
      → Redeemed s req now (enroll_parsed text authority s req now recorded csr)
  unfolding enroll_parsed
  enroll_parsed-Redeemed s req now recorded none h = ground arith
  enroll_parsed-Redeemed s req now recorded (some csr) h =
      enroll_redeemed-tokens s req csr now recorded _
        (redeem s.tokens req.token req.collector_id now).1 h

  enroll-Redeemed :
      (s : Enrolling) (req : EnrollRequest) (now recorded : ℕ)
      → is_ok (enroll text authority s (some req) now recorded).1 ≡ true
      → Redeemed s req now (enroll text authority s (some req) now recorded)
  unfolding enroll
  enroll-Redeemed s req now recorded h = elim (Bool-cases (valid_collector_id req.collector_id)) [
    | inr f ↦ absurd (ground (arith, rw (f, enroll) at h))
    | inl t ↦ rw (t, enroll) (enroll_parsed-Redeemed s req now recorded _ (rw (t, enroll) at h))
  ]

  -- Once a collector got a certificate for a token, no later request with that token gets one, from
  -- any collector, whatever calls on fresh tokens come between.
  pub enroll_once :
      (s u : Enrolling) (req other : EnrollRequest) (now recorded now' recorded' : ℕ)
      → is_ok (enroll text authority s (some req) now recorded).1 ≡ true
      → Runs (enroll text authority s (some req) now recorded).0.tokens u.tokens
      → other.token ≡ req.token
      → is_ok (enroll text authority u (some other) now' recorded').1 ≡ false
  enroll_once s u req other now recorded now' recorded' h runs same =
      elim (Bool-cases (is_ok (enroll text authority u (some other) now' recorded').1)) [
        | inr f ↦ f
        | inl again ↦
            let (accepted, tokens) = enroll-Redeemed s req now recorded h in
            let second = enroll-Redeemed u other now' recorded' again in
            let refused =
              redeem_once s.tokens req.token req.collector_id other.collector_id now now' accepted
                (subst (λ t. Runs t u.tokens) tokens runs) in
            ground (
              arith,
              second.0,
              subst (λ t. (redeem u.tokens t other.collector_id now').1 ≡ false) (sym same) refused,
            )
      ]
