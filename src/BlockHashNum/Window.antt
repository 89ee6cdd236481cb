-- ===== src/BlockHashNum/Window.antt =====
-- The contents of the cache after any updates: the latest hashes, each once.
use reth_crawler.Prelude.{
  ℕ, zero, suc, ◌≡◌, refl, ap, ◌∙◌, inl, inr, List, [], ◌∷◌, ◌++◌, map, Eq, ◌==◌, take, Bool-cases,
}
use reth_crawler.BlockHashNum.Lru.{LruCache, remove, touch}
use reth_crawler.BlockHashNum.{BlockUpdate, apply_updates}

module _ {ℓ} {H : Type ℓ} ⦃e : Eq H⦄ where
  -- All hashes of a sequence of updates, the latest first, each where it came last.
  abbrev pub recency : List H → List H → List H
  recency seen [] = seen
  recency seen (h ∷ hs) = recency (touch h seen) hs

  pub recency-append :
      (seen hs ks : List H) → recency seen (hs ++ ks) ≡ recency (recency seen hs) ks
  recency-append seen [] ks = refl
  recency-append seen (h ∷ hs) ks = recency-append (touch h seen) hs ks

  take-take : (n : ℕ) (l : List H) → take n (take n l) ≡ take n l
  take-take zero l = refl
  take-take (suc n) [] = refl
  take-take (suc n) (x ∷ l) = ap (◌∷◌ x) (take-take n l)

  take-remove-take :
      (n : ℕ) (h : H) (l : List H) → take n (remove h (take (suc n) l)) ≡ take n (remove h l)
  unfolding remove
  take-remove-take zero h l = refl
  take-remove-take (suc n) h [] = refl
  take-remove-take (suc n) h (k ∷ l) = elim (Bool-cases (k == h)) [
    | inl same ↦ rw same (take-take (suc n) l)
    | inr other ↦ rw other (ap (◌∷◌ k) (take-remove-take n h l))
  ]

  -- Of the entries behind the window none comes back.
  pub take-touch-take :
      (n : ℕ) (h : H) (l : List H) → take n (touch h (take n l)) ≡ take n (touch h l)
  take-touch-take zero h l = refl
  take-touch-take (suc n) h l = ap (◌∷◌ h) (take-remove-take n h l)

module _ {H U64 : Type 0} ⦃e : Eq H⦄ (L : LruCache H U64) where
  open L use {Cache, keys, cap, keys-put, cap-put}

  abbrev pub hashes : List (BlockUpdate H U64) → List H
  hashes = map (λ u. u.hash)

  pub cap-apply_updates :
      (c : Cache) (us : List (BlockUpdate H U64)) → cap (apply_updates L c us).0 ≡ cap c
  unfolding apply_updates
  cap-apply_updates c [] = refl
  cap-apply_updates c (u ∷ us) =
      cap-apply_updates (L.put c u.hash u.number) us ∙ cap-put c u.hash u.number

  -- If the cache holds a window of a history, then it holds the window of the history that the
  -- updates go on with.
  pub keys-apply_updates :
      (c : Cache) (seen : List H) (us : List (BlockUpdate H U64))
      → keys c ≡ take (cap c) seen
      → keys (apply_updates L c us).0 ≡ take (cap c) (recency seen (hashes us))
  unfolding apply_updates
  keys-apply_updates c seen [] h = h
  keys-apply_updates c seen (u ∷ us) h =
      let c' = L.put c u.hash u.number in
      let size = cap-put c u.hash u.number in
      let now : keys c' ≡ take (cap c') (touch u.hash seen) =
        rw (keys-put, h, size) (take-touch-take (cap c) u.hash seen) in
      keys-apply_updates c' (touch u.hash seen) us now
      ∙ ap (λ n. take n (recency (touch u.hash seen) (hashes us))) size
