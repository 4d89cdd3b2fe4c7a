-- ===== src/Worker/Plan/Order.antt =====
-- partition.go: the two orders in which prefixes are sorted.
use topo.Prelude.{◌≤◌, ◌≡◌, true, false, arith, IsLess}
use topo.Worker.Prefix.{Prefix, bit_len}
use topo.Worker.Plan.{covered_less, address_less}

covered_less_asym : (p q : Prefix) → covered_less p q ≡ true → covered_less q p ≡ false
unfolding covered_less
covered_less_asym p q h = ground arith

covered_less_trans :
    (p q r : Prefix)
    → covered_less q p ≡ false
    → covered_less r q ≡ false
    → covered_less r p ≡ false
unfolding covered_less
covered_less_trans p q r h k = ground arith

pub covered_less-IsLess : IsLess covered_less
covered_less-IsLess = record { asym = covered_less_asym; trans = covered_less_trans }

address_less_asym : (p q : Prefix) → address_less p q ≡ true → address_less q p ≡ false
unfolding address_less
address_less_asym p q h = ground arith

address_less_trans :
    (p q r : Prefix)
    → address_less q p ≡ false
    → address_less r q ≡ false
    → address_less r p ≡ false
unfolding address_less
address_less_trans p q r h k = ground arith

pub address_less-IsLess : IsLess address_less
address_less-IsLess = record { asym = address_less_asym; trans = address_less_trans }

-- In the order of `removeCovered`, what comes before has no more bits, within a family.
pub bits-le_of_covered_less :
    (p q : Prefix) → covered_less q p ≡ false → bit_len p.is4 ≡ bit_len q.is4 → p.bits ≤ q.bits
unfolding covered_less
bits-le_of_covered_less p q h e = ground arith
