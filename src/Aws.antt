-- ===== src/Aws.antt =====
-- `AwsPeerDB` of db/src/db.rs: the item that `add_peer` stores; the methods are in Methods.
pub mod RoundTrip
pub mod Dynamo
pub mod Methods
pub mod Refines
pub mod Queries
use mathlib.Core.List.{foldl}
use reth_crawler.Prelude.{
  ℕ, Bool, true, String, none, some, List, [], ◌∷◌, Option, map, insert, string_eq,
}
use reth_crawler.Text.{Text}
use reth_crawler.Text.Decimal.{to_string}
use reth_crawler.Types.{PeerData}
use reth_crawler.Types.Attributes.{Attributes}

module _ (A : Attributes) where
  open A use {Value, s, n, l, bool, null}

  unfoldable pub synced_attribute : Option Bool → Value
  synced_attribute (some synced) = bool synced
  synced_attribute none = null true

  -- the calls of `.item(name, value)`, in the source's order
  abbrev pub attributes : Text → PeerData → List (String × Value)
  attributes region p =
      ("peer-id", s p.id)
      ∷ ("peer-ip", s p.address)
      ∷ ("client_name", s p.client_name)
      ∷ ("client_version", s p.client_version)
      ∷ ("client_build", s p.client_build)
      ∷ ("client_arch", s p.client_arch)
      ∷ ("os", s p.os)
      ∷ ("client_language", s p.client_language)
      ∷ ("enode_url", s p.enode_url)
      ∷ ("port", n (to_string p.tcp_port))
      ∷ ("chain", s p.chain)
      ∷ ("country", s p.country)
      ∷ ("city", s p.city)
      ∷ ("capabilities", l (map s p.capabilities))
      ∷ ("eth_version", n (to_string p.eth_version))
      ∷ ("last_seen", s p.last_seen)
      ∷ ("source_region", s region)
      ∷ ("genesis_block_hash", s p.genesis_block_hash)
      ∷ ("best_block", s p.best_block)
      ∷ ("total_difficulty", s p.total_difficulty)
      ∷ ("synced", synced_attribute p.synced)
      ∷ ("isp", s p.isp)
      ∷ []

  -- the map that the builder of `put_item` collects
  unfoldable pub put_item : Text → PeerData → List (String × Value)
  unfolding insert
  put_item region p = foldl (λ m a. insert a.0 a.1 m) [] (attributes region p)
