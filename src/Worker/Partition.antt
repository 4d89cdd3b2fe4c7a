-- ===== src/Worker/Partition.antt =====
-- internal/worker/partition.go: planning the target partitions of a scope.
pub mod Split
pub mod Subtract
pub mod SplitTo
pub mod Settles
use topo.Prelude.{
  ℕ, zero, suc, ◌+◌, ◌-◌, ◌*◌, ◌/◌, ◌%◌, ◌^◌, ◌≡◌, Bool, true, false, ◌&&◌, ◌||◌, not, String,
  Option, none, some, List, [], ◌∷◌, ◌++◌, length, any, ltb, leb, ◌==◌, if◌then◌else◌, ℤ, pos,
  negsuc, ◌-ℤ◌, lt_ℕ, gt_ℕ, is_zero, to_ℕ, Result, ok, err, ◌>>=◌, ◌>>◌, refuse_if,
}
use topo.Worker.Prefix.{
  Addr, Prefix, bit_len, same_family, host_bits, block, contains, first, overlaps, masked,
}

-- The errors of the planner. `out_of_fuel` stands for a recursion that the model cuts off.
pub data PlanError : Type 0 where
  invalid_scope_id invalid_revision invalid_cidr_count invalid_prefix_bits invalid_maximum :
      PlanError
  invalid_cidr invalid_exclusion : PlanError
  limit_exceeded cannot_split too_many_after_exclusions too_many out_of_fuel : PlanError

-- `value[bits/8] |= 1 << (7 - bits%8)` on the big-endian bytes: sets the bit of weight 2 ^ h.
unfoldable pub set_bit : ℕ → ℕ → ℕ
set_bit h value = if block h value % 2 == 1 then value else value + 2 ^ h

unfoldable pub split_prefix : Prefix → Result PlanError (Prefix × Prefix)
split_prefix prefix =
    let p = masked prefix in
    if leb (bit_len p.is4) p.bits
    then err cannot_split
    else ok (
      record p { bits = p.bits + 1 },
      record p { addr = set_bit (bit_len p.is4 - 1 - p.bits) p.addr; bits = p.bits + 1 },
    )

-- One activation of `subtractPrefix`, whose recursive calls are `rec`.
unfoldable pub subtract_step :
    (Prefix → Prefix → ℤ → Result PlanError (List Prefix))
    → Prefix
    → Prefix
    → ℤ
    → Result PlanError (List Prefix)
subtract_step rec base deny budget =
    if lt_ℕ budget 0
    then err limit_exceeded
    else if not (overlaps base deny)
    then ok (base ∷ [])
    else if leb deny.bits base.bits && contains deny (first base)
    then ok []
    else do
      halves ← split_prefix base
      left_parts ← rec halves.0 deny budget
      right_parts ← rec halves.1 deny (budget -ℤ length left_parts)
      ok (left_parts ++ right_parts)

unfoldable pub subtract_prefix : ℕ → Prefix → Prefix → ℤ → Result PlanError (List Prefix)
subtract_prefix zero base deny budget = err out_of_fuel
subtract_prefix (suc fuel) base deny budget = subtract_step (subtract_prefix fuel) base deny budget

-- One activation of `splitToPrefix`.
unfoldable pub split_to_step :
    (Prefix → ℕ → ℤ → Result PlanError (List Prefix))
    → Prefix
    → ℕ
    → ℤ
    → Result PlanError (List Prefix)
split_to_step rec prefix target_bits budget =
    if lt_ℕ budget 1
    then err limit_exceeded
    else if leb target_bits prefix.bits
    then ok (prefix ∷ [])
    else do
      halves ← split_prefix prefix
      left_parts ← rec halves.0 target_bits budget
      right_parts ← rec halves.1 target_bits (budget -ℤ length left_parts)
      ok (left_parts ++ right_parts)

unfoldable pub split_to_prefix : ℕ → Prefix → ℕ → ℤ → Result PlanError (List Prefix)
split_to_prefix zero prefix target_bits budget = err out_of_fuel
split_to_prefix (suc fuel) prefix target_bits budget =
    split_to_step (split_to_prefix fuel) prefix target_bits budget
