-- ===== src/Go/Text/Tabs.antt =====
-- `strings.Fields` reads back the words of a line that separates them by one tab.
use procfs.Base.{List, [], ◌∷◌, ◌≡◌, ◌∙◌, ◌≢◌, refl, ap, Bytes, All}
use procfs.Go.Text.Parts.{join, join_behind}
use procfs.Go.Text.Words.{IsWord, fields_from-append, flush-ne-nil}
use procfs.Go.Text.{fields, fields_from, space_width}

fields_from-join_behind :
    (ws : List Bytes) (cur : Bytes)
    → cur ≢ []
    → All IsWord ws
    → fields_from (join_behind b'\t' ws) 0 cur ≡ cur ∷ ws
unfolding fields_from space_width
fields_from-join_behind [] cur h g = flush-ne-nil cur [] h
fields_from-join_behind (w ∷ ws) cur h (g, gs) =
    flush-ne-nil cur _ h
    ∙ ap (◌∷◌ cur)
        (fields_from-append w (join_behind b'\t' ws) [] g.0 ∙ fields_from-join_behind ws w g.1 gs)

pub fields-join : (ws : List Bytes) → All IsWord ws → fields (join b'\t' ws) ≡ ws
unfolding fields
fields-join [] h = refl
fields-join (w ∷ ws) (h, hs) =
    fields_from-append w (join_behind b'\t' ws) [] h.0 ∙ fields_from-join_behind ws w h.1 hs
