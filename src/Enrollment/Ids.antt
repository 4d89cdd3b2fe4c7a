-- ===== src/Enrollment/Ids.antt =====
-- internal/enrollment/ca.go: `ValidCollectorID`, over the code points of a text.
use topo.Prelude.{
  ℕ, ◌+◌, ◌≡◌, refl, Bool, true, false, not, ◌&&◌, ◌||◌, String, List, [], ◌∷◌, any, get_last?,
  Option, none, some, leb, ltb, ◌==◌, if◌then◌else◌, codes,
}

-- How many bytes a code point has in UTF-8.
abbrev pub utf8_len : ℕ → ℕ
utf8_len c = if ltb c 0x80 then 1 else if ltb c 0x800 then 2 else if ltb c 0x10000 then 3 else 4

abbrev pub byte_len : List ℕ → ℕ
byte_len [] = 0
byte_len (c ∷ cs) = utf8_len c + byte_len cs

-- `unicode.IsSpace`.
unfoldable pub is_space : ℕ → Bool
is_space c =
    (leb 0x09 c && leb c 0x0d)
    || c == 0x20
    || c == 0x85
    || c == 0xa0
    || c == 0x1680
    || (leb 0x2000 c && leb c 0x200a)
    || c == 0x2028
    || c == 0x2029
    || c == 0x202f
    || c == 0x205f
    || c == 0x3000

-- `unicode.IsControl`.
unfoldable pub is_control : ℕ → Bool
is_control c = ltb c 0x20 || (leb 0x7f c && ltb c 0xa0)

-- Whether `strings.TrimSpace` takes something away: at the front or at the end.
abbrev pub starts_with_space : List ℕ → Bool
starts_with_space [] = false
starts_with_space (c ∷ cs) = is_space c

abbrev pub ends_with_space : Option ℕ → Bool
ends_with_space none = false
ends_with_space (some c) = is_space c

abbrev pub max_collector_id_bytes : ℕ
max_collector_id_bytes = 253

unfoldable pub valid_collector_id : String → Bool
unfolding is_space is_control
valid_collector_id id =
    let cs = codes id in
    if byte_len cs == 0 || ltb max_collector_id_bytes (byte_len cs)
    then false
    else if starts_with_space cs || ends_with_space (get_last? cs)
    then false
    else not (any is_control cs)

valid_id_example : valid_collector_id "dc-1 east" ≡ true
unfolding valid_collector_id
valid_id_example = refl

trailing_space_example : valid_collector_id "dc-1 " ≡ false
unfolding valid_collector_id
trailing_space_example = refl
