-- ===== src/Types/Item.antt =====
-- `impl From<&HashMap<String, AttributeValue>> for PeerData` of db/src/types.rs
use reth_crawler.Prelude.{String, none, List, [], lookup, string_eq}
use reth_crawler.Text.{Text}
use reth_crawler.Types.{PeerData, new}
use reth_crawler.Types.Attributes.{
  Attributes, as_string, as_u8, as_u16, as_string_vec, as_option_bool,
}

module _ (A : Attributes) where
  open A use {Value}

  unfoldable pub from_item : List (String × Value) → PeerData
  unfolding new
  from_item value =
      new (string "enode_url") (string "peer-id") (string "peer-ip")
        (as_u16 A (lookup "port" value) 30303) (string "client_name") (string "client_version")
        (string "client_build") (string "client_architecture") (string "os")
        (string "client_language") (as_string_vec A (lookup "capabilities" value))
        (string "last_seen") (string "country") (string "city") (string "genesis_block_hash")
        (string "best_block") (string "total_difficulty") (string "chain")
        (as_u8 A (lookup "eth_version" value) 0) (as_option_bool A (lookup "synced" value) none)
        (string "isp")
    where
      string : String → Text
      string name = as_string A (lookup name value) []
