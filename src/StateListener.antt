-- ===== src/StateListener.antt =====
-- bins/reth-crawler/src/crawler/listener/state_listener.rs: the loop that hands the blocks of a
-- subscription to the block hash service. What else happens to the service while the loop waits for
-- an acknowledgement comes with each block.
pub mod Waiting
pub mod Following
pub mod Serving
pub mod Synced
use reth_crawler.Prelude.{
  ℕ, zero, suc, ◌≡◌, Bool, true, false, Option, none, some, List, [], ◌∷◌, map, Result, ok, err, Eq,
  ◌==◌, nat_eq, any, drop, length,
}
use reth_crawler.Text.{Text}
use reth_crawler.BlockHashNum.Lru.{LruCache}
use reth_crawler.BlockHashNum.{Event, request, update, wake, Trace, step, run}

-- the fields of a block that are read; a pending block lacks them
pub record Block (H U64 : Type 0) : Type 0 where
  pub hash : Option H
  pub number : Option U64

-- What others do with the service: a listener's request, or a poll by the runtime. Only this loop
-- sends updates.
pub data Meanwhile (H : Type 0) : Type 0 where
  asked : H → ℕ → Meanwhile H
  woken : ℕ → ℕ → Meanwhile H

-- The next block, and what happens up to the acknowledgement or up to the present. `gone` is the
-- error of `new_block` if the service has ended.
pub record Arrival (H U64 : Type 0) : Type 0 where
  pub block : Block H U64
  pub gone : Option Text
  pub meanwhile : List (Meanwhile H)

-- How the loop stands: the subscription has ended, the loop waits for an acknowledgement, it has
-- returned an error, or it has panicked.
pub data Fate : Type 0 where
  ended waiting panicked : Fate
  failed : Text → Fate

module _ {H U64 : Type 0} ⦃e : Eq H⦄ (L : LruCache H U64) where
  abbrev pub event : Meanwhile H → Event L
  event (asked hash tx) = request hash tx
  event (woken n m) = wake n m

  -- `new_block` up to its acknowledgement: the message is sent, and then others go on
  unfoldable pub send_block : H → U64 → ℕ → List (Meanwhile H) → Trace L → Trace L
  send_block hash number tx meanwhile t =
      run L (step L t (update hash number tx)) (map event meanwhile)

  -- whether the service has answered on a channel since
  unfoldable pub acknowledged : ℕ → Trace L → Trace L → Bool
  acknowledged tx before now = any (λ ack. ack == tx) (drop (length before.acks) now.acks)

  -- The loop over the blocks; `tx` is the number of the next response channel.
  unfoldable pub follow : ℕ → List (Arrival H U64) → Trace L → Trace L × Fate
  unfolding send_block acknowledged
  follow tx [] t = (t, ended)
  follow tx (a ∷ rest) t = elim a.block.hash [
    | none ↦ (t, panicked)
    | some hash ↦ elim a.block.number [
      | none ↦ (t, panicked)
      | some number ↦ elim a.gone [
        | some e ↦ (t, failed e)
        | none ↦
            let t' = send_block hash number tx a.meanwhile t in
            elim (acknowledged tx t t') [ true ↦ follow (suc tx) rest t' | false ↦ (t', waiting) ]
      ]
    ]
  ]

  -- `block_subscription_manager`, with what `subscribe_blocks` returns
  unfoldable pub block_subscription_manager :
      ℕ → Result Text (List (Arrival H U64)) → Trace L → Trace L × Fate
  unfolding follow
  block_subscription_manager tx (err e) t = (t, failed e)
  block_subscription_manager tx (ok arrivals) t = follow tx arrivals t
