-- ===== src/Types.antt =====
-- db/src/types.rs: the records of the database, its errors, and the conversion from the items of
-- DynamoDB. `String` is a list of code points, `u16` and `u8` are numbers with `InRange`.
pub mod Attributes
pub mod Item
use reth_crawler.Prelude.{
  ℕ, ◌<◌, String, Bool, Option, none, some, List, [], ◌∷◌, ok, err, map, lookup, string_eq,
}
use reth_crawler.Text.{Text}
use reth_crawler.Text.Decimal.{u8_bound, u16_bound}

pub record PeerData : Type 0 where
  pub enode_url : Text
  pub id : Text
  pub address : Text
  pub tcp_port : ℕ
  pub client_name : Text
  pub client_version : Text
  pub client_build : Text
  pub client_arch : Text
  pub os : Text
  pub client_language : Text
  pub eth_version : ℕ
  pub capabilities : List Text
  pub chain : Text
  pub total_difficulty : Text
  pub best_block : Text
  pub genesis_block_hash : Text
  pub last_seen : Text
  pub country : Text
  pub city : Text
  pub synced : Option Bool
  pub isp : Text

pub record ClientData : Type 0 where
  pub client_version : Text

-- The numbers of a peer fit their types.
pub record InRange (p : PeerData) : Type 0 where
  pub tcp_port : p.tcp_port < u16_bound
  pub eth_version : p.eth_version < u8_bound

-- `PeerData::new`, with its arguments in the source's order
unfoldable pub new :
    Text
    → Text
    → Text
    → ℕ
    → Text
    → Text
    → Text
    → Text
    → Text
    → Text
    → List Text
    → Text
    → Text
    → Text
    → Text
    → Text
    → Text
    → Text
    → ℕ
    → Option Bool
    → Text
    → PeerData
new enode_url id address tcp_port client_name client_version client_build client_arch os
      client_language capabilities last_seen country city genesis_block_hash best_block
      total_difficulty chain eth_version synced isp =
    record {
      enode_url = enode_url;
      id = id;
      address = address;
      tcp_port = tcp_port;
      client_name = client_name;
      client_version = client_version;
      client_build = client_build;
      client_arch = client_arch;
      os = os;
      client_language = client_language;
      eth_version = eth_version;
      capabilities = capabilities;
      chain = chain;
      total_difficulty = total_difficulty;
      best_block = best_block;
      genesis_block_hash = genesis_block_hash;
      last_seen = last_seen;
      country = country;
      city = city;
      synced = synced;
      isp = isp;
    }

-- The errors of the operations. `A`, `S` and `P` are the errors of the clients of DynamoDB, SQLite
-- and PostgreSQL.
pub data AddItemError (A S P : Type 0) : Type 0 where
  aws_add_item_error : A → AddItemError A S P
  in_memory_db_add_item_error : AddItemError A S P
  sql_add_item_error : S → AddItemError A S P
  postgres_add_item_error : P → AddItemError A S P

pub data ScanTableError (A S P : Type 0) : Type 0 where
  aws_scan_error : A → ScanTableError A S P
  in_memory_db_scan_error : ScanTableError A S P
  sql_scan_error : S → ScanTableError A S P
  postgres_scan_error : P → ScanTableError A S P

pub data QueryItemError (A S P : Type 0) : Type 0 where
  aws_query_item_error : A → QueryItemError A S P
  in_memory_db_query_item_error : QueryItemError A S P
  sql_query_item_error : S → QueryItemError A S P
  postgres_query_item_error : P → QueryItemError A S P
