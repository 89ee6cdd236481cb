-- ===== src/BlockHashNum/Lru.antt =====
-- The `LruCache` of the crate lru, as an interface: what its documentation promises of the
-- operations that the service calls. `keys` are those that its `iter` shows, the most recently
-- used first.
use reth_crawler.Prelude.{ℕ, ◌≡◌, Bool, List, if◌then◌else◌, [], ◌∷◌, take, any, Eq, ◌==◌}

module _ {ℓ} {H : Type ℓ} ⦃e : Eq H⦄ where
  -- Drops the first entry that equals the key.
  unfoldable pub remove : H → List H → List H
  remove h [] = []
  remove h (k ∷ ks) = if k == h then ks else k ∷ remove h ks

  -- The key moves to the front.
  abbrev pub touch : H → List H → List H
  touch h hs = h ∷ remove h hs

  abbrev pub any_eq : H → List H → Bool
  any_eq h = any (λ k. k == h)

pub record LruCache (H U64 : Type 0) ⦃e : Eq H⦄ : Type 1 where
  pub Cache : Type 0
  pub new : ℕ → Cache
  pub contains : Cache → H → Bool
  pub put : Cache → H → U64 → Cache
  pub keys : Cache → List H
  pub cap : Cache → ℕ
  pub keys-new : (n : ℕ) → keys (new n) ≡ []
  pub cap-new : (n : ℕ) → cap (new n) ≡ n
  pub contains-keys : (c : Cache) (h : H) → contains c h ≡ any_eq h (keys c)
  pub keys-put : (c : Cache) (h : H) (n : U64) → keys (put c h n) ≡ take (cap c) (touch h (keys c))
  pub cap-put : (c : Cache) (h : H) (n : U64) → cap (put c h n) ≡ cap c
