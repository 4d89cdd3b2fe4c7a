-- ===== src/Enrollment/Tokens/SingleUse.antt =====
-- tokens.go: a token is redeemed once, by its collector, before it expires.
use topo.Prelude.{
  ℕ, ◌+◌, ◌≤◌, ◌≡◌, ◌⊎◌, inl, inr, refl, ap, Bool, true, false, String, eq_iff, Option, none, some,
  arith, ℤ, lookup, lookup-store, lookup-store_self, Bool-cases, to_ℕ,
}
use topo.Enrollment.Tokens.{
  TokenRecord, TokenStore, issue, issue_new, redeem, redeem_found, unusable,
}

-- A successful redemption had an unused token of this collector, not yet expired, and has marked
-- it as used; a refused one has changed nothing.
abbrev pub RedeemSpec : TokenStore → String → String → ℕ → TokenStore × Bool → Type 0
RedeemSpec s token collector now (t, accepted) =
    (accepted ≡ true)
      × ((r : TokenRecord) × (lookup s.tokens token ≡ some r)
          × (r.redeemed ≡ false)
          × (now ≤ r.expires_at)
          × (r.collector_id ≡ collector)
          × (lookup t.tokens token ≡ some (record r { redeemed = true })))
    ⊎ (accepted ≡ false) × (t ≡ s)

redeem_found_lem :
    (s : TokenStore) (token collector : String) (now : ℕ) (o : Option TokenRecord)
    → lookup s.tokens token ≡ o
    → RedeemSpec s token collector now (redeem_found s token collector now o)
unfolding redeem_found
redeem_found_lem s token collector now none e = inr (refl, refl)
redeem_found_lem s token collector now (some r) e = elim (Bool-cases (unusable r collector now)) [
  | inl bad ↦ rw bad (inr (refl, refl))
  | inr good ↦
      let same = eq_iff r.collector_id collector in
      rw good (
        inl (
          refl,
          (r, e, ground arith, ground arith, ground arith, lookup-store_self s.tokens token _),
        ))
]

-- `Redeem` either accepts an unused token of this collector that has not expired, which it then
-- marks as used, or refuses and leaves the tokens as they were.
pub redeem-RedeemSpec :
    (s : TokenStore) (token collector : String) (now : ℕ)
    → RedeemSpec s token collector now (redeem s token collector now)
unfolding redeem
redeem-RedeemSpec s token collector now =
    redeem_found_lem s token collector now (lookup s.tokens token) refl

-- The calls on a store, one after the other: the mutex orders them.
pub data Op : Type 0 where
  issues : String → ℤ → Option String → ℕ → Op
  redeems : String → String → ℕ → Op

pub step : TokenStore → Op → TokenStore
step s (issues collector ttl random now) = (issue s collector ttl random now).0
step s (redeems token collector now) = (redeem s token collector now).0

-- A generated token is new: 256 random bits do not repeat.
abbrev pub IsFresh : TokenStore → Op → Type 0
IsFresh s (issues collector ttl (some token) now) = lookup s.tokens token ≡ none
IsFresh s (issues collector ttl none now) = Unit
IsFresh s (redeems token collector now) = Unit

pub data Runs (s : TokenStore) : TokenStore → Type 0 where
  here : Runs s s
  next : {t : TokenStore} (op : Op) → Runs s t → IsFresh t op → Runs s (step t op)

-- A token that is redeemed.
abbrev pub is_redeemed : Option TokenRecord → Bool
is_redeemed none = false
is_redeemed (some r) = r.redeemed

redeem_found_keeps :
    (s : TokenStore) (key collector : String) (now : ℕ) (token : String) (o : Option TokenRecord)
    → is_redeemed (lookup s.tokens token) ≡ true
    → is_redeemed (lookup (redeem_found s key collector now o).0.tokens token) ≡ true
unfolding redeem_found
redeem_found_keeps s key collector now token none h = h
redeem_found_keeps s key collector now token (some r) h =
    ground (arith, lookup-store s.tokens key token (record r { redeemed = true }), eq_iff token key)

step-is_redeemed :
    (s : TokenStore) (op : Op) (token : String)
    → IsFresh s op
    → is_redeemed (lookup s.tokens token) ≡ true
    → is_redeemed (lookup (step s op).tokens token) ≡ true
unfolding step issue issue_new
step-is_redeemed s (issues collector ttl none now) token f h = ground arith
step-is_redeemed s (issues collector ttl (some new) now) token f h = ground (
  arith,
  lookup-store s.tokens new token
      (record { collector_id = collector; expires_at = now + to_ℕ ttl; redeemed = false }),
  eq_iff token new,
)
step-is_redeemed s (redeems key collector now) token f h =
    unfold redeem in redeem_found_keeps s key collector now token (lookup s.tokens key) h

Runs-is_redeemed :
    {s t : TokenStore} (token : String)
    → Runs s t
    → is_redeemed (lookup s.tokens token) ≡ true
    → is_redeemed (lookup t.tokens token) ≡ true
Runs-is_redeemed token here h = h
Runs-is_redeemed token (next {t} op runs fresh) h =
    step-is_redeemed t op token fresh (Runs-is_redeemed token runs h)

used_refuses :
    (s : TokenStore) (token collector : String) (now : ℕ)
    → is_redeemed (lookup s.tokens token) ≡ true
    → (redeem s token collector now).1 ≡ false
used_refuses s token collector now h = elim (redeem-RedeemSpec s token collector now) [
  | inr (e, u) ↦ e
  | inl (e, (r, found, fresh, t, c, m)) ↦ ground (arith, ap is_redeemed found)
]

-- Once a token is redeemed, no later redemption of it succeeds, by any collector, whatever calls
-- come between, where each token that they issue is one that the store does not have at that time.
pub redeem_once :
    (s : TokenStore) {t : TokenStore} (token c c' : String) (now now' : ℕ)
    → (redeem s token c now).1 ≡ true
    → Runs (redeem s token c now).0 t
    → (redeem t token c' now').1 ≡ false
redeem_once s {t} token c c' now now' accepted runs = elim (redeem-RedeemSpec s token c now) [
  | inr (e, u) ↦ absurd (ground (arith, e, accepted))
  | inl (e, (r, found, fresh, late, mine, marked)) ↦
      used_refuses t token c' now' (Runs-is_redeemed token runs (ap is_redeemed marked))
]
