-- ===== src/BlockHashNum.antt =====
-- bins/reth-crawler/src/crawler/block_hash_num.rs: the service that remembers the hashes of the
-- latest blocks. A response channel is known by its number, and what the service sends on one is
-- part of the result of a poll.
pub mod Lru
pub mod Window
pub mod Queues
pub mod Presence
pub mod Lag
use reth_crawler.Prelude.{
  ℕ, ◌≡◌, Bool, true, Option, none, some, List, [], ◌∷◌, ◌++◌, map, Outcome, done, panic, Eq, ◌==◌,
  nat_eq, take, drop, if◌then◌else◌,
}
use Lru.{LruCache}

abbrev pub synced_threshold : ℕ
synced_threshold = 100

pub record HashRequest (H : Type 0) : Type 0 where
  pub hash : H
  pub response : ℕ

pub record BlockUpdate (H U64 : Type 0) : Type 0 where
  pub hash : H
  pub number : U64
  pub response : ℕ

module _ {H U64 : Type 0} ⦃e : Eq H⦄ (L : LruCache H U64) where
  open L use {Cache, contains, put}

  -- The queues hold the messages that the channels have not delivered yet, oldest first.
  pub record BlockHashNum : Type 0 where
    pub blocks_hash_to_number : Cache
    pub command_rx : List (HashRequest H)
    pub block_subscription_rx : List (BlockUpdate H U64)

  -- `NonZeroUsize::new(n).expect(..)`, then the cache of that capacity
  unfoldable pub new_cache : ℕ → Outcome Cache
  new_cache n = if n == 0 then panic else done (L.new n)

  unfoldable pub new : Outcome BlockHashNum
  unfolding new_cache
  new = elim (new_cache synced_threshold) [
    | done cache ↦
        done (record { blocks_hash_to_number = cache; command_rx = []; block_subscription_rx = [] })
    | panic ↦ panic
  ]

  -- the first loop of `poll`: the answers that it sends
  unfoldable pub answer_requests : Cache → List (HashRequest H) → List (ℕ × Bool)
  answer_requests cache [] = []
  answer_requests cache (request ∷ rest) =
      (request.response, contains cache request.hash) ∷ answer_requests cache rest

  -- the second loop of `poll`: the cache that it leaves, and the responses that it sends
  unfoldable pub apply_updates : Cache → List (BlockUpdate H U64) → Cache × List ℕ
  apply_updates cache [] = (cache, [])
  apply_updates cache (update ∷ rest) =
      let (cache', sent) = apply_updates (put cache update.hash update.number) rest in
      (cache', update.response ∷ sent)

  pub record Polled : Type 0 where
    pub service : BlockHashNum
    pub answers : List (ℕ × Bool)
    pub acks : List ℕ

  -- `poll`. The runtime may hold messages back: the channels deliver `n` requests and `m` updates
  -- before they are pending.
  unfoldable pub poll : ℕ → ℕ → BlockHashNum → Polled
  unfolding answer_requests apply_updates
  poll n m s =
      let answers = answer_requests s.blocks_hash_to_number (take n s.command_rx) in
      let (cache, acks) = apply_updates s.blocks_hash_to_number (take m s.block_subscription_rx) in
      record {
        service = record {
          blocks_hash_to_number = cache;
          command_rx = drop n s.command_rx;
          block_subscription_rx = drop m s.block_subscription_rx;
        };
        answers = answers;
        acks = acks;
      }

  -- the `send` of `BlockHashNumHandle::is_block_hash_present`, while the service lives
  unfoldable pub is_block_hash_present : H → ℕ → BlockHashNum → BlockHashNum
  is_block_hash_present hash tx s = record s {
    command_rx = s.command_rx ++ record { hash = hash; response = tx } ∷ [];
  }

  -- the `send` of `BlockHashNumHandle::new_block`, while the service lives
  unfoldable pub new_block : H → U64 → ℕ → BlockHashNum → BlockHashNum
  new_block hash number tx s = record s {
    block_subscription_rx =
        s.block_subscription_rx ++ record { hash = hash; number = number; response = tx } ∷ [];
  }

  -- What happens to the service: messages arrive and it is polled.
  pub data Event : Type 0 where
    request : H → ℕ → Event
    update : H → U64 → ℕ → Event
    wake : ℕ → ℕ → Event

  pub record Trace : Type 0 where
    pub service : BlockHashNum
    pub answers : List (ℕ × Bool)
    pub acks : List ℕ

  unfoldable pub step : Trace → Event → Trace
  step t (request hash tx) = record t { service = is_block_hash_present hash tx t.service }
  step t (update hash number tx) = record t { service = new_block hash number tx t.service }
  step t (wake n m) =
      let polled = poll n m t.service in
      record {
        service = polled.service;
        answers = t.answers ++ polled.answers;
        acks = t.acks ++ polled.acks;
      }

  unfoldable pub run : Trace → List Event → Trace
  unfolding step
  run t [] = t
  run t (event ∷ rest) = run (step t event) rest
