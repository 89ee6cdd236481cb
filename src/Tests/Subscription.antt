-- ===== src/Tests/Subscription.antt =====
-- Blocks of a subscription, and the service of Blocks.
use reth_crawler.Prelude.{List, arith, ℕ, ◌≡◌, refl, none, some, [], ◌∷◌, nat_eq}
use reth_crawler.BlockHashNum.{run, poll, is_block_hash_present, new_block}
use reth_crawler.StateListener.{Arrival, asked, woken, ended, panicked, waiting, follow}
use reth_crawler.StateListener.Following.{Followed, follow-Followed}
use reth_crawler.StateListener.Synced.{Answered, ask, follow-Answered}
use reth_crawler.StateListener.Serving.{IsServed, follow-ended}
use reth_crawler.Tests.Blocks.{lru, start, empty, start-Implements}

abbrev mined : ℕ → Arrival ℕ ℕ
mined h = record {
  block = record { hash = some h; number = some 1 };
  gone = none;
  meanwhile = asked h 50 ∷ woken 1 0 ∷ woken 1 1 ∷ [];
}

abbrev pending : Arrival ℕ ℕ
pending = record { block = record { hash = none; number = none }; gone = none; meanwhile = [] }

abbrev unpolled : Arrival ℕ ℕ
unpolled = record (mined 9) { meanwhile = asked 9 51 ∷ [] }

stops_at_pending : (follow lru 0 (mined 7 ∷ pending ∷ mined 8 ∷ []) start).1 ≡ panicked
unfolding follow run poll is_block_hash_present new_block
stops_at_pending = refl

waits_for_service : (follow lru 0 (mined 7 ∷ unpolled ∷ mined 8 ∷ []) start).1 ≡ waiting
unfolding follow run poll is_block_hash_present new_block
waits_for_service = refl

follow-Followed_example :
    let (t', fate) = follow lru 0 (mined 7 ∷ pending ∷ mined 8 ∷ []) start in
    Followed lru (mined 7 ∷ pending ∷ mined 8 ∷ []) [] t' fate
follow-Followed_example =
    follow-Followed lru (mined 7 ∷ pending ∷ mined 8 ∷ []) 0 start empty start-Implements refl

mined-IsServed : (h : ℕ) → IsServed lru (mined h)
mined-IsServed h = record {
  hash = h;
  number = 1;
  named = refl;
  numbered = refl;
  alive = refl;
  woken = refl;
}

follow-ended_example : (follow lru 0 (mined 7 ∷ mined 8 ∷ []) start).1 ≡ ended
follow-ended_example =
    follow-ended lru (mined 7 ∷ mined 8 ∷ []) 0 start empty start-Implements refl
      (mined-IsServed 7, (mined-IsServed 8, tt))

abbrev blocks : List (Arrival ℕ ℕ)
blocks = mined 7 ∷ mined 8 ∷ []

followed : Unit {0}
unfolding follow run poll is_block_hash_present new_block
followed = tt

follow-Answered_example :
    let (t', fate) = follow lru 0 blocks start in
    (f : Followed lru blocks [] t' fate) × Answered lru f.hashes 7 3 (ask lru 7 3 5 5 t').answers
unfolding followed
follow-Answered_example =
    follow-Answered lru blocks 0 start empty 7 3 5 5 start-Implements refl refl (omega arith)
