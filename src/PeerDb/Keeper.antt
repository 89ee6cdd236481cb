-- ===== src/PeerDb/Keeper.antt =====
-- What the listener needs of a database: that `add_peer` keeps a collection of peers.
use reth_crawler.Prelude.{◌≡◌, sym, ap, ◌∙◌, inl, inr, List, ok, done, Result-cases, done-ne-panic}
use reth_crawler.Types.{PeerData}
use reth_crawler.PeerDb.{PeerDb, save_peer, unwrap}
use reth_crawler.PeerDb.Collection.{upsert}

-- A database that keeps a collection of peers, each under its id.
pub record Keeper {A S P : Type 0} (db : PeerDb A S P) : Type 1 where
  pub Keeps : db.Store → List PeerData → Type 0
  pub adds :
      (p : PeerData) (c c' : db.Store) (ps : List PeerData)
      → Keeps c ps
      → db.add_peer p c ≡ (c', ok tt)
      → Keeps c' (upsert p ps)

module _ {A S P : Type 0} (db : PeerDb A S P) (K : Keeper db) where
  -- `save_peer` without a panic adds the peer.
  pub save_peer-Keeps :
      (p : PeerData) (c : db.Store) (ps : List PeerData)
      → K.Keeps c ps
      → (save_peer db p c).1 ≡ done tt
      → K.Keeps (save_peer db p c).0 (upsert p ps)
  unfolding save_peer
  save_peer-Keeps p c ps h saved_it =
      let ran = db.add_peer p c in
      elim (Result-cases ran.1) [
        | inl (added, worked) ↦ K.adds p c ran.0 ps h (λ i. (ran.0, worked i))
        | inr (error, failed) ↦ absurd (done-ne-panic (sym saved_it ∙ ap unwrap failed))
      ]
