-- ===== src/P2p/Snooping.antt =====
-- What `_snoop` prints.
use mathlib.Core.List.{filter_map}
use reth_crawler.Prelude.{
  ◌≡◌, refl, ap, List, [], ◌∷◌, ◌++◌, map, Result, ok, err, inl, inr, Option-cases,
}
use reth_crawler.Text.{Text}
use reth_crawler.P2p.{EthMessage, line, snoop}

-- What `_snoop` prints is the lines of the messages before the first error, in their order, and
-- nothing of what comes after it.
pub snoop-filter_map :
    (address : Text) (updates : List EthMessage) (e : Text) (rest : List (Result Text EthMessage))
    → snoop address (map ok updates ++ (err e ∷ rest)) ≡ filter_map (line address) updates
unfolding snoop filter_map
snoop-filter_map address [] e rest = refl
snoop-filter_map address (update ∷ updates) e rest = elim (Option-cases (line address update)) [
  | inl nothing ↦ rw (nothing, snoop, filter_map) (snoop-filter_map address updates e rest)
  | inr (l, printed) ↦
      rw (printed, snoop, filter_map) (ap (◌∷◌ l) (snoop-filter_map address updates e rest))
]
