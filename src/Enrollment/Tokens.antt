-- ===== src/Enrollment/Tokens.antt =====
-- internal/enrollment/tokens.go: single-use enrolment tokens. Times are nanoseconds; `time.Now` and
-- the random token are arguments, the token being `none` where `rand.Read` fails.
pub mod SingleUse
mod Examples
use topo.Prelude.{
  ℕ, ◌+◌, Bool, true, false, not, ◌||◌, String, str_eq, Option, none, some, List, [], ◌∷◌, ltb,
  if◌then◌else◌, ℤ, lt_ℕ, to_ℕ, GoMap, lookup, store, Result, ok, err,
}
use topo.Enrollment.Ids.{valid_collector_id}

pub record TokenRecord : Type 0 where
  pub collector_id : String
  pub expires_at : ℕ
  pub redeemed : Bool

pub record TokenStore : Type 0 where
  pub tokens : GoMap TokenRecord

pub data TokenError : Type 0 where
  invalid_collector_id ttl_not_positive token_generation_failed invalid_token : TokenError

unfoldable pub new_token_store : TokenStore
new_token_store = record { tokens = [] }

issue_new :
    TokenStore → String → ℕ → Option String → ℕ → TokenStore × Result TokenError (String × ℕ)
issue_new s collector ttl none now = (s, err token_generation_failed)
issue_new s collector ttl (some token) now = (
  record s {
    tokens =
        store s.tokens token
          (record { collector_id = collector; expires_at = now + ttl; redeemed = false });
  },
  ok (token, now + ttl),
)

-- `Issue`: the token and its expiry.
unfoldable pub issue :
    TokenStore → String → ℤ → Option String → ℕ → TokenStore × Result TokenError (String × ℕ)
unfolding issue_new
issue s collector ttl random now =
    if not (valid_collector_id collector)
    then (s, err invalid_collector_id)
    else if lt_ℕ ttl 1
    then (s, err ttl_not_positive)
    else issue_new s collector (to_ℕ ttl) random now

-- `record.redeemed || time.Now().After(record.expiresAt) || record.collectorID != collectorID`
abbrev pub unusable : TokenRecord → String → ℕ → Bool
unusable r collector now =
    r.redeemed || ltb r.expires_at now || not (str_eq r.collector_id collector)

redeem_found : TokenStore → String → String → ℕ → Option TokenRecord → TokenStore × Bool
redeem_found s token collector now none = (s, false)
redeem_found s token collector now (some r) =
    if unusable r collector now
    then (s, false)
    else (record s { tokens = store s.tokens token (record r { redeemed = true }) }, true)

-- `Redeem`: whether it returned no error; the only error is `ErrInvalidToken`.
unfoldable pub redeem : TokenStore → String → String → ℕ → TokenStore × Bool
unfolding redeem_found
redeem s token collector now = redeem_found s token collector now (lookup s.tokens token)
