-- ===== src/Audit/Fields.antt =====
-- audit.go: fields of a text that NUL bytes end, and the text of a detail.
use topo.Prelude.{
  Bool, false, any, ◌==◌, ◌≡◌, ◌≢◌, refl, sym, ap, ◌∙◌, List, [], ◌∷◌, ◌++◌, length, length-append,
  arith, bytes_less, sort_slice,
}
use topo.Audit.{Text, detail_bytes}

cons_length : {A : Type 0} (x : A) (b t : List A) → length t ≢ length ((x ∷ b) ++ t)
cons_length x b t h = omega (arith, length-append {0} b t, h)

-- Equal texts whose ends have one length agree in their fronts and in their ends.
pub equal_parts : (a b s t : Text) → a ++ s ≡ b ++ t → length s ≡ length t → (a ≡ b) × (s ≡ t)
equal_parts [] [] s t e l = (refl, e)
equal_parts [] (x ∷ b) s t e l = absurd (cons_length x b t (sym l ∙ ap length e))
equal_parts (x ∷ a) [] s t e l = absurd (cons_length x a s (l ∙ sym (ap length e)))
equal_parts (x ∷ a) (y ∷ b) s t e l =
    let more = equal_parts a b s t (ground (arith, e)) l in
    let first : x ≡ y = ground (arith, e) in (cc, more.1)

abbrev pub has_nul : Text → Bool
has_nul a = any (λ c. c == 0) a

-- What stands before the first NUL, and what stands behind it.
pub cut_nul :
    (a b s t : Text)
    → has_nul a ≡ false
    → has_nul b ≡ false
    → a ++ (0 ∷ s) ≡ b ++ (0 ∷ t)
    → (a ≡ b) × (s ≡ t)
cut_nul [] [] s t h k e = (refl, ground (arith, e))
cut_nul [] (y ∷ b) s t h k e = absurd (ground (arith, e))
cut_nul (x ∷ a) [] s t h k e = absurd (ground (arith, e))
cut_nul (x ∷ a) (y ∷ b) s t h k e =
    let more = cut_nul a b s t (ground arith) (ground arith) (ground (arith, e)) in
    let first : x ≡ y = ground (arith, e) in (cc, more.1)

pub cut_front : (a s t : Text) → a ++ s ≡ a ++ t → s ≡ t
cut_front [] s t e = e
cut_front (x ∷ a) s t e = cut_front a s t (ground (arith, e))

-- The pairs of a detail, each as key=value with a NUL behind it.
abbrev pub pairs_text : List (Text × Text) → Text
pairs_text [] = []
pairs_text ((key, value) ∷ rest) = key ++ (b'=' ∷ (value ++ (0 ∷ pairs_text rest)))

pub detail_bytes-pairs_text : (pairs : List (Text × Text)) → detail_bytes pairs ≡ pairs_text pairs
unfolding detail_bytes
detail_bytes-pairs_text [] = refl
detail_bytes-pairs_text ((key, value) ∷ rest) =
    ap (λ t. key ++ (b'=' ∷ (value ++ (0 ∷ t)))) (detail_bytes-pairs_text rest)

-- The pairs in the order of their keys.
unfoldable pub detail_text : List (Text × Text) → Text
detail_text detail = pairs_text (sort_slice (λ a b. bytes_less a.0 b.0) detail)
