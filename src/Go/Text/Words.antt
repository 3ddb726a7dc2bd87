-- ===== src/Go/Text/Words.antt =====
-- `strings.Fields` reads back the words of a line that separates them by one space.
use procfs.Base.{
  ℕ, ◌≤◌, ◌≢◌, List, [], ◌∷◌, ◌++◌, ◌≡◌, refl, ap, ◌∙◌, append-nil, append_assoc, arith, Bytes, All,
}
use procfs.Go.Text.{space_width, fields_from, fields, flush}

-- Visible ASCII.
abbrev pub IsGraph : ℕ → Type 0
IsGraph c = (33 ≤ c) × (c ≤ 126)

abbrev pub IsWord : Bytes → Type 0
IsWord w = All IsGraph w × (w ≢ [])

abbrev pub unwords_behind : List Bytes → Bytes
unwords_behind [] = []
unwords_behind (w ∷ ws) = 32 ∷ (w ++ unwords_behind ws)

-- The words with one space between them.
abbrev pub unwords : List Bytes → Bytes
unwords [] = []
unwords (w ∷ ws) = w ++ unwords_behind ws

pub space_width-IsGraph : (c : ℕ) (s : Bytes) → IsGraph c → space_width c s ≡ 0
unfolding space_width
space_width-IsGraph c s h = ground arith

fields_from_graph :
    (c : ℕ) (s cur : Bytes)
    → space_width c s ≡ 0
    → fields_from (c ∷ s) 0 cur ≡ fields_from s 0 (cur ++ c ∷ [])
unfolding fields_from
fields_from_graph c s cur h = rw (h, fields_from)

pub fields_from-append :
    (w rest cur : Bytes)
    → All IsGraph w
    → fields_from (w ++ rest) 0 cur ≡ fields_from rest 0 (cur ++ w)
fields_from-append [] rest cur h = rw append-nil
fields_from-append (c ∷ w) rest cur (g, h) =
    fields_from_graph c (w ++ rest) cur (space_width-IsGraph c (w ++ rest) g)
    ∙ fields_from-append w rest (cur ++ c ∷ []) h
    ∙ rw append_assoc

pub flush-ne-nil : (w : Bytes) (ws : List Bytes) → w ≢ [] → flush w ws ≡ w ∷ ws
flush-ne-nil [] ws h = absurd (h refl)
flush-ne-nil (c ∷ w) ws h = refl

fields_from-unwords_behind :
    (ws : List Bytes) (cur : Bytes)
    → cur ≢ []
    → All IsWord ws
    → fields_from (unwords_behind ws) 0 cur ≡ cur ∷ ws
unfolding fields_from space_width
fields_from-unwords_behind [] cur h g = flush-ne-nil cur [] h
fields_from-unwords_behind (w ∷ ws) cur h (g, gs) =
    flush-ne-nil cur _ h
    ∙ ap (◌∷◌ cur)
        (fields_from-append w (unwords_behind ws) [] g.0 ∙ fields_from-unwords_behind ws w g.1 gs)

pub fields-unwords : (ws : List Bytes) → All IsWord ws → fields (unwords ws) ≡ ws
unfolding fields
fields-unwords [] h = refl
fields-unwords (w ∷ ws) (h, hs) =
    fields_from-append w (unwords_behind ws) [] h.0 ∙ fields_from-unwords_behind ws w h.1 hs
