-- ===== src/Store/Resolution/Order.antt =====
-- resolution.go: `claimPrecedes` is an order that `sort.Slice` can use.
use topo.Prelude.{ℕ, ◌≡◌, refl, true, false, List, [], ◌∷◌, arith, IsLess, bytes_less, codes}
use topo.Store.Model.{AssetClaim, StoreText, asset_source_key}
use topo.Store.Resolution.{claim_precedes}

bytes_less_asym : (a b : List ℕ) → bytes_less a b ≡ true → bytes_less b a ≡ false
unfolding bytes_less
bytes_less_asym [] [] h = refl
bytes_less_asym [] (b ∷ bs) h = refl
bytes_less_asym (a ∷ more) [] h = cc
bytes_less_asym (a ∷ more) (b ∷ bs) h = ground (arith, bytes_less_asym more bs)

bytes_less_trans :
    (a b c : List ℕ) → bytes_less b a ≡ false → bytes_less c b ≡ false → bytes_less c a ≡ false
unfolding bytes_less
bytes_less_trans [] b [] h k = refl
bytes_less_trans (x ∷ xs) [] [] h k = cc
bytes_less_trans (x ∷ xs) (y ∷ ys) [] h k = cc
bytes_less_trans [] b (z ∷ zs) h k = refl
bytes_less_trans (x ∷ xs) [] (z ∷ zs) h k = cc
bytes_less_trans (x ∷ xs) (y ∷ ys) (z ∷ zs) h k = ground (arith, bytes_less_trans xs ys zs)

abbrev key_bytes : StoreText → AssetClaim → List ℕ
key_bytes text c =
    codes (asset_source_key text c.source.site_id c.source.collector_id c.source.plugin)

-- The claims of an asset can be sorted.
pub claim_precedes-IsLess : (text : StoreText) → IsLess (claim_precedes text)
claim_precedes-IsLess text = record {
  asym = λ a b h. ground (arith, bytes_less_asym (key_bytes text a) (key_bytes text b));
  trans = λ a b c h k.
      ground (arith, bytes_less_trans (key_bytes text a) (key_bytes text b) (key_bytes text c));
}
