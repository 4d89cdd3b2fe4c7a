-- ===== src/Worker/Ids.antt =====
-- internal/worker/policy.go: the pattern `safeID` of identifiers, over the code points of a text.
-- The pattern admits ASCII only, where these are the bytes.
use topo.Prelude.{
  String, codes, ℕ, ◌≡◌, refl, Bool, true, false, ◌&&◌, ◌||◌, List, [], ◌∷◌, leb, ◌==◌, length,
}

-- [A-Za-z0-9]
pub is_alphanumeric : ℕ → Bool
is_alphanumeric c =
    (leb b'A' c && leb c b'Z') || (leb b'a' c && leb c b'z') || (leb b'0' c && leb c b'9')

-- [A-Za-z0-9._-]
pub is_id_char : ℕ → Bool
unfolding is_alphanumeric
is_id_char c = is_alphanumeric c || c == b'.' || c == b'_' || c == b'-'

abbrev all_id_chars : List ℕ → Bool
all_id_chars [] = true
all_id_chars (c ∷ cs) = is_id_char c && all_id_chars cs

abbrev match_id : List ℕ → Bool
match_id [] = false
match_id (c ∷ cs) = is_alphanumeric c && all_id_chars cs && leb (length cs) 127

-- ^[A-Za-z0-9][A-Za-z0-9._-]{0,127}$
unfoldable pub safe_id : String → Bool
unfolding is_id_char is_alphanumeric
safe_id s = match_id (codes s)

safe_id_example : safe_id "pool-1.eu_west" ≡ true
unfolding safe_id
safe_id_example = refl

unsafe_id_example : safe_id "-pool" ≡ false
unfolding safe_id
unsafe_id_example = refl
