-- ===== src/Text/Search.antt =====
-- `str::contains` and `str::is_empty`
use reth_crawler.Prelude.{Bool, true, false, ◌&&◌, ◌||◌, [], ◌∷◌, ◌==◌, nat_eq}
use reth_crawler.Text.{Text}

unfoldable pub starts_with : Text → Text → Bool
starts_with s [] = true
starts_with [] (c ∷ pat) = false
starts_with (d ∷ s) (c ∷ pat) = d == c && starts_with s pat

-- `s.contains(pat)`
unfoldable pub contains : Text → Text → Bool
unfolding starts_with
contains [] pat = starts_with [] pat
contains (c ∷ s) pat = starts_with (c ∷ s) pat || contains s pat

unfoldable pub is_empty : Text → Bool
is_empty [] = true
is_empty (c ∷ s) = false
