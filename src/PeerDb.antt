-- ===== src/PeerDb.antt =====
-- The trait `PeerDB` of db/src/db.rs as an interface, and `save_peer` of db/src/lib.rs. A method
-- that only reads leaves the store alone, and may panic. The program passes `none` or 50 for a page size.
pub mod Collection
pub mod Keeper
pub mod Merge
pub mod Subsets
use reth_crawler.Prelude.{
  ℕ, Option, List, Result, ok, err, Outcome, done, panic, ap, inl, inr, FailsOr, PanicsOr,
}
use reth_crawler.Text.{Text}
use reth_crawler.Types.{PeerData, ClientData, AddItemError, ScanTableError, QueryItemError}

-- `A`, `S` and `P` are the errors of the database clients.
pub record PeerDb (A S P : Type 0) : Type 1 where
  pub Store : Type 0
  pub add_peer : PeerData → Store → Store × Result (AddItemError A S P) (Unit {0})
  pub all_peers : Option ℕ → Store → Outcome (Result (ScanTableError A S P) (List PeerData))
  pub all_active_peers :
      Text → Option ℕ → Store → Outcome (Result (ScanTableError A S P) (List PeerData))
  pub node_by_id : Text → Store → Outcome (Result (QueryItemError A S P) (Option (List PeerData)))
  pub node_by_ip : Text → Store → Outcome (Result (QueryItemError A S P) (Option (List PeerData)))
  pub clients : Option ℕ → Store → Outcome (Result (ScanTableError A S P) (List ClientData))
  pub active_clients :
      Text → Option ℕ → Store → Outcome (Result (ScanTableError A S P) (List ClientData))

-- `r.unwrap()`
abbrev pub unwrap {ℓ κ} : {E : Type ℓ} {A : Type κ} → Result E A → Outcome A
unwrap (ok a) = done a
unwrap (err e) = panic

pub unwrap-PanicsOr {ℓ κ ι ν} :
    {E : Type ℓ} {F : Type κ} {A : Type ι} (error : E → F) (r : Result F A) (P : A → Type ν)
    → FailsOr error r P
    → PanicsOr error r (unwrap r) P
unwrap-PanicsOr error r P (inl (e, failed)) = inl (e, failed, ap unwrap failed)
unwrap-PanicsOr error r P (inr (a, got, h)) = inr (a, ap unwrap got, h)

unfoldable pub save_peer :
    {A S P : Type 0} (db : PeerDb A S P) → PeerData → db.Store → db.Store × Outcome (Unit {0})
save_peer db p store = let (store', r) = db.add_peer p store in (store', unwrap r)
