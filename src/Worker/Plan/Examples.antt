-- ===== src/Worker/Plan/Examples.antt =====
-- The plan of a small scope, under a text form of prefixes in unary digits, and the theorems at it.
use Prim.Native.Char.{Char, code}
use topo.Prelude.{
  ℕ, zero, suc, ◌+◌, ◌≤◌, ◌≡◌, refl, Bool, true, false, String, Option, none, some, List, [], ◌∷◌,
  length, All, map, count, to_count, arith, leb, ◌==◌, if◌then◌else◌, pos, ok, to_ℕ, sort_slice,
  insert_sorted,
}
use topo.Worker.Prefix.{Prefix, IsMasked, bit_len}
use topo.Worker.Ids.{safe_id}
use topo.Worker.Partition.{
  subtract_prefix, subtract_step, split_to_prefix, split_to_step, split_prefix, set_bit,
}
use topo.Worker.Prefix.{masked, contains, overlaps, block}
use topo.Worker.Plan.{
  PrefixText, TargetScope, TargetPartition, plan_target_partitions, maximum_of, plan_prefixes,
  build_plan, parse_prefixes, check_scope, remove_covered, exclude_all, exclude_one, spread,
  number_from, address_less,
}
use topo.Worker.Plan.Accepted.{plan-validate_partition}
use topo.Worker.Task.{validate_partition}
use topo.Worker.Plan.Ends.{Ends, plan-Ends}
use topo.Worker.Plan.Partitions.{plan-selects_once, plan-numbered, part_contains, count_up}
use topo.Worker.Plan.Selected.{selects}

unfoldable pub letters : Char → ℕ → String → String
letters c zero s = s
letters c (suc n) s = String.◌∷◌ c (letters c n s)

-- A letter 'a' counts for the address, any other for the length.
unfoldable pub parse_letters : Bool → ℕ → ℕ → String → Option Prefix
parse_letters is4 a b String.[] =
    if leb b (bit_len is4) then some (record { is4 = is4; addr = a; bits = b }) else none
parse_letters is4 a b (String.◌∷◌ c s) =
    parse_letters is4 (if code c == b'a' then suc a else a) (if code c == b'a' then b else suc b) s

unfoldable pub parse_unary : String → Option Prefix
unfolding parse_letters
parse_unary String.[] = none
parse_unary (String.◌∷◌ c s) = parse_letters (code c == b'4') 0 0 s

unfoldable pub format_unary : Prefix → String
unfolding letters
format_unary p =
    String.◌∷◌ (if p.is4 then "4" else "6") (letters "a" p.addr (letters "/" p.bits ""))

parse_letters_fits :
    (is4 : Bool) (a b : ℕ) (s : String) (p : Prefix)
    → parse_letters is4 a b s ≡ some p
    → p.bits ≤ bit_len p.is4
unfolding parse_letters
parse_letters_fits is4 a b String.[] p h = ground arith
parse_letters_fits is4 a b (String.◌∷◌ c s) p h =
    parse_letters_fits is4 (if code c == b'a' then suc a else a)
      (if code c == b'a' then b else suc b) s p h

pub parse_unary_fits : (s : String) (p : Prefix) → parse_unary s ≡ some p → p.bits ≤ bit_len p.is4
unfolding parse_unary
parse_unary_fits String.[] p h = ground arith
parse_unary_fits (String.◌∷◌ c s) p h = parse_letters_fits (code c == b'4') 0 0 s p h

parse_lengths :
    (is4 : Bool) (a b n : ℕ)
    → b + n ≤ bit_len is4
    → parse_letters is4 a b (letters "/" n "") ≡ some (record { is4 = is4; addr = a; bits = b + n })
unfolding parse_letters letters
parse_lengths is4 a b zero h = ground arith
parse_lengths is4 a b (suc n) h = ground (arith, parse_lengths is4 a (suc b) n)

parse_digits :
    (is4 : Bool) (a m n : ℕ)
    → n ≤ bit_len is4
    → parse_letters is4 a 0 (letters "a" m (letters "/" n ""))
      ≡ some (record { is4 = is4; addr = a + m; bits = n })
unfolding parse_letters letters
parse_digits is4 a zero n h = ground (arith, parse_lengths is4 a 0 n)
parse_digits is4 a (suc m) n h = ground (arith, parse_digits is4 (suc a) m n)

family_letter : (b : Bool) → (code (if b then "4" else "6") == b'4') ≡ b
family_letter true = refl
family_letter false = refl

pub parse_format_unary : (p : Prefix) → IsMasked p → parse_unary (format_unary p) ≡ some p
unfolding parse_unary format_unary
parse_format_unary p m =
    rw (family_letter p.is4) (ground (arith, m.fits, parse_digits p.is4 0 p.addr p.bits))

abbrev pub some_key : String
some_key = "00000000000000000000000000000000000000000000000000000000000000aa"

abbrev pub unary : PrefixText
unary = record {
  parse_prefix = parse_unary;
  format_prefix = format_unary;
  partition_key = λ id revision cidr. some_key;
  parse_fits = parse_unary_fits;
  parse_format = parse_format_unary;
}

-- 0.0.0.0/29 without 0.0.0.4/32, in partitions of four addresses.
abbrev small_scope : TargetScope
small_scope = record {
  scope_id = "lab";
  revision = pos 1;
  cidrs = "4/////////////////////////////" ∷ "4aaaa//////////////////////////////" ∷ [];
  exclusions = "4aaaa////////////////////////////////" ∷ [];
  ipv4_partition_prefix = pos 30;
  ipv6_partition_prefix = pos 0;
  max_partitions = pos 8;
}

abbrev part : String → ℕ → TargetPartition
part cidr ordinal = record { key = some_key; ordinal = ordinal; count = 3; cidrs = cidr ∷ [] }

abbrev small_plan : List TargetPartition
small_plan =
    part "4//////////////////////////////" 0
    ∷ part "4aaaaa////////////////////////////////" 1
    ∷ part "4aaaaaa///////////////////////////////" 2
    ∷ []

small_plan_is : plan_target_partitions unary small_scope ≡ ok small_plan
unfolding plan_target_partitions plan_prefixes build_plan parse_prefixes check_scope remove_covered
    exclude_all exclude_one spread number_from address_less parse_unary format_unary sort_slice
    insert_sorted subtract_prefix subtract_step split_to_prefix split_to_step split_prefix set_bit
    masked contains overlaps block safe_id
small_plan_is = refl

-- Address 6 is in the third partition alone.
plan-selects_once_example :
    count (part_contains unary (record { is4 = true; value = 6 })) small_plan
    ≡ to_count (selects unary small_scope (record { is4 = true; value = 6 }))
plan-selects_once_example =
    plan-selects_once unary small_scope small_plan small_plan_is (record { is4 = true; value = 6 })

plan-numbered_example :
    (length small_plan ≤ to_ℕ (maximum_of small_scope))
    × (map (λ p. p.ordinal) small_plan ≡ count_up 0 (length small_plan))
    × All (λ p. p.count ≡ length small_plan) small_plan
plan-numbered_example = plan-numbered unary small_scope small_plan small_plan_is

plan-Ends_example : Ends (plan_target_partitions unary small_scope)
plan-Ends_example = plan-Ends unary small_scope

plan-validate_partition_example : All (λ p. validate_partition unary p ≡ true) small_plan
plan-validate_partition_example =
    plan-validate_partition unary small_scope small_plan small_plan_is (λ id revision cidr. refl)
