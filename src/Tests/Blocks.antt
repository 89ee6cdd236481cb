-- ===== src/Tests/Blocks.antt =====
-- The block hash service over a list, the most recently used hash first.
use reth_crawler.Prelude.{ℕ, ◌≡◌, refl, List, [], ◌∷◌, ◌++◌, nat_eq, take, done}
use reth_crawler.BlockHashNum.Lru.{LruCache, touch, any_eq}
use reth_crawler.BlockHashNum.Queues.{channels, update_channels, requested, updated, run_fifo}
use reth_crawler.BlockHashNum.Presence.{Ledger, Implements, promises, new-Implements, run-promises}
use reth_crawler.BlockHashNum.{BlockHashNum, Event, request, update, wake, Trace, new, run}

-- a capacity, and the hashes
abbrev pub lru : LruCache ℕ ℕ
lru = record {
  Cache = ℕ × List ℕ;
  new = λ n. (n, []);
  contains = λ c h. any_eq h c.1;
  put = λ c h n. (c.0, take c.0 (touch h c.1));
  keys = λ c. c.1;
  cap = λ c. c.0;
  keys-new = λ n. refl;
  cap-new = λ n. refl;
  contains-keys = λ c h. refl;
  keys-put = λ c h n. refl;
  cap-put = λ c h n. refl;
}

abbrev pub start : Trace lru
start = record {
  service = record {
    blocks_hash_to_number = (100, []);
    command_rx = [];
    block_subscription_rx = [];
  };
  answers = [];
  acks = [];
}

abbrev pub empty : Ledger ℕ ℕ
empty = record { seen = []; requests = []; updates = [] }

abbrev events : List (Event lru)
events = update 7 100 0 ∷ request 7 1 ∷ wake 5 5 ∷ request 7 2 ∷ request 8 3 ∷ wake 1 1 ∷ []

pub start-Implements : Implements lru start.service empty
start-Implements = record { size = refl; window = refl; requests = refl; updates = refl }

run-promises_example :
    Implements lru (run lru start events).service (promises lru empty events).0
    × ((run lru start events).answers ≡ [] ++ (promises lru empty events).1)
run-promises_example = run-promises lru start empty events start-Implements

new-Implements_example :
    (service : BlockHashNum lru) × (new lru ≡ done service)
    × Implements lru service (record { seen = []; requests = []; updates = [] })
new-Implements_example = new-Implements lru

run_fifo_example :
    (channels lru (run lru start events) ≡ channels lru start ++ requested lru events)
    × (update_channels lru (run lru start events) ≡ update_channels lru start ++ updated lru events)
run_fifo_example = run_fifo lru start events
