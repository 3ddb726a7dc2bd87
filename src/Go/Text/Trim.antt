-- ===== src/Go/Text/Trim.antt =====
-- `strings.TrimSpace` takes the newline off a visible text.
use procfs.Base.{ℕ, [], ◌∷◌, ◌++◌, ◌≡◌, refl, ap, ◌∙◌, false, Bytes, All}
use procfs.Go.Text.Words.{IsGraph, IsWord, space_width-IsGraph}
use procfs.Go.Text.{space_width, all_space, trim_left, trim_right, trim_space}

all_space_graph : (c : ℕ) (s : Bytes) → space_width c s ≡ 0 → all_space (c ∷ s) 0 ≡ false
unfolding all_space
all_space_graph c s h = rw (h, all_space)

trim_left_graph : (c : ℕ) (s : Bytes) → space_width c s ≡ 0 → trim_left (c ∷ s) 0 ≡ c ∷ s
unfolding trim_left
trim_left_graph c s h = rw (h, trim_left)

trim_right_graph :
    (c : ℕ) (s : Bytes) → all_space (c ∷ s) 0 ≡ false → trim_right (c ∷ s) ≡ c ∷ trim_right s
unfolding trim_right
trim_right_graph c s h = rw h

trim_right_newline : trim_right (b'\n' ∷ []) ≡ []
unfolding trim_right
trim_right_newline = refl

trim_right-word : (w : Bytes) → All IsGraph w → trim_right (w ++ b'\n' ∷ []) ≡ w
trim_right-word [] h = trim_right_newline
trim_right-word (c ∷ w) (h, hs) =
    let s = w ++ b'\n' ∷ [] in
    trim_right_graph c s (all_space_graph c s (space_width-IsGraph c s h))
    ∙ ap (◌∷◌ c) (trim_right-word w hs)

pub trim_space-word : (w : Bytes) → IsWord w → trim_space (w ++ b'\n' ∷ []) ≡ w
unfolding trim_space
trim_space-word [] (h, ne) = absurd (ne refl)
trim_space-word (c ∷ w) ((h, hs), ne) =
    let s = w ++ b'\n' ∷ [] in
    ap trim_right (trim_left_graph c s (space_width-IsGraph c s h))
    ∙ trim_right-word (c ∷ w) (h, hs)
