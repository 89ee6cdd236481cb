-- ===== src/BlockHashNum/Lag.antt =====
-- When a block counts as seen: by how far it lags behind the latest update.
use reth_crawler.Prelude.{
  ℕ, ◌<◌, ◌≡◌, refl, sym, ap, ◌∙◌, zero, suc, true, List, [], ◌∷◌, ◌++◌, Eq, take, length,
}
use reth_crawler.BlockHashNum.Lru.{LruCache, any_eq}
use reth_crawler.BlockHashNum.Window.{recency, hashes, keys-apply_updates}
use reth_crawler.BlockHashNum.Presence.{is_recent, is_recent_of_lag, is_recent_sound}
use reth_crawler.BlockHashNum.{synced_threshold, BlockUpdate, apply_updates}

module _ {H U64 : Type 0} ⦃e : Eq H⦄ (L : LruCache H U64) where
  open L use {Cache, keys, cap, contains, contains-keys, keys-new, cap-new}

  contains-is_recent :
      (h : H) (us : List (BlockUpdate H U64))
      → contains (apply_updates L (L.new synced_threshold) us).0 h ≡ is_recent h (hashes L us)
  contains-is_recent h us =
      let c = L.new synced_threshold in
      let empty : keys c ≡ take (cap c) [] = keys-new synced_threshold ∙ no_keys (cap c) in
      contains-keys (apply_updates L c us).0 h
      ∙ ap (any_eq h) (
          keys-apply_updates L c [] us empty
          ∙ ap (λ n. take n (recency [] (hashes L us))) (cap-new synced_threshold))
    where
      no_keys : (n : ℕ) → ◌≡◌ {A = List H} [] (take n [])
      no_keys = elim [ zero ↦ refl | suc n ↦ refl ]

  -- After any updates of the empty cache, a hash is present if fewer than `synced_threshold` updates
  -- came after one with that hash, whatever hashes those had.
  pub present_of_lag :
      (us : List (BlockUpdate H U64)) (h : H) (before after : List H)
      → hashes L us ≡ before ++ (h ∷ after)
      → length after < synced_threshold
      → contains (apply_updates L (L.new synced_threshold) us).0 h ≡ true
  present_of_lag us h before after split lag =
      contains-is_recent h us ∙ ap (is_recent h) split ∙ is_recent_of_lag h before after lag

  -- A hash is present only if some update had it.
  pub present_sound :
      (us : List (BlockUpdate H U64)) (h : H)
      → contains (apply_updates L (L.new synced_threshold) us).0 h ≡ true
      → any_eq h (hashes L us) ≡ true
  present_sound us h p = is_recent_sound h (hashes L us) (sym (contains-is_recent h us) ∙ p)
