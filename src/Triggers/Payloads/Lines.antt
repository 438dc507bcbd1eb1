-- ===== src/Triggers/Payloads/Lines.antt =====
-- The lines of a body that is written line by line.
use dms_api.Prelude.{◌≡◌, refl, ap, ap₂, ◌∙◌, String, false, List, [], ◌∷◌, map, All}
use dms_api.Prelude.Text.{split, join, occurs, trim_space, split-join}
use dms_api.Triggers.UserNew.{lines}

trim-all : (xs : List String) → All (λ y. trim_space y ≡ y) xs → map trim_space xs ≡ xs
trim-all [] h = refl
trim-all (x ∷ xs) h = ap₂ (λ y ys. y ∷ ys) h.0 (trim-all xs h.1)

-- Lines without a newline and without space around them are got back from the body that has them
-- one per line, if that body has no space around it.
pub lines-join :
    (x : String) (xs : List String)
    → All (λ y. occurs 10 y ≡ false) (x ∷ xs)
    → All (λ y. trim_space y ≡ y) (x ∷ xs)
    → trim_space (join "\n" (x ∷ xs)) ≡ join "\n" (x ∷ xs)
    → lines (join "\n" (x ∷ xs)) ≡ x ∷ xs
unfolding lines
lines-join x xs h t w =
    ap (λ s. map trim_space (split 10 s)) w
    ∙ ap (map trim_space) (split-join 10 "\n" x xs refl h)
    ∙ trim-all (x ∷ xs) t
