-- ===== src/Enrollment/Tokens/Examples.antt =====
-- A token issued and redeemed, and the theorems at it.
use topo.Prelude.{◌≡◌, refl, true, false, some, pos, lookup, store, ok}
use topo.Enrollment.Ids.{valid_collector_id}
use topo.Enrollment.Tokens.{TokenStore, new_token_store, issue, redeem}
use topo.Enrollment.Tokens.SingleUse.{here, next, redeems, redeem_once, step}

abbrev issued : TokenStore
issued = (issue new_token_store "dc-1" (pos 60) (some "t0ken") 100).0

issued_until : (issue new_token_store "dc-1" (pos 60) (some "t0ken") 100).1 ≡ ok ("t0ken", 160)
unfolding issue new_token_store valid_collector_id store
issued_until = refl

redeemed_in_time : (redeem issued "t0ken" "dc-1" 160).1 ≡ true
unfolding issue redeem new_token_store valid_collector_id store lookup
redeemed_in_time = refl

other_collector : (redeem issued "t0ken" "dc-2" 120).1 ≡ false
unfolding issue redeem new_token_store valid_collector_id store lookup
other_collector = refl

redeem_once_example :
    (redeem
      (step (redeem issued "t0ken" "dc-1" 160).0 (redeems "t0ken" "dc-2" 161))
      "t0ken"
      "dc-1"
      162).1
    ≡ false
redeem_once_example =
    redeem_once issued "t0ken" "dc-1" "dc-1" 160 162 redeemed_in_time
      (next (redeems "t0ken" "dc-2" 161) here tt)
