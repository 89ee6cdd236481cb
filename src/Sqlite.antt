-- ===== src/Sqlite.antt =====
-- `SqlPeerDB` of db/src/db.rs, over the client of SQLite.
pub mod Rows
pub mod Steps
pub mod Selecting
pub mod Opening
pub mod Refines
pub mod Keeper
pub mod ReadBack
pub mod Copies
use mathlib.Core.List.{filter_map}
use mathlib.Core.Option.{get_or}
use reth_crawler.Prelude.{
  ℕ, zero, suc, ◌^◌, ◌<◌, ◌≡◌, String, Bool, Option, none, some, List, [], ◌∷◌, ◌++◌, map, Result,
  ok, err, ◌>>=◌, to_option, map_ok, map_err, done,
}
use reth_crawler.Text.{Text, text_ltb, split, join}
use reth_crawler.Text.Decimal.{u8_bound, u16_bound}
use reth_crawler.Types.{
  PeerData, ClientData, AddItemError, sql_add_item_error, ScanTableError, sql_scan_error,
  QueryItemError, sql_query_item_error,
}
use reth_crawler.PeerDb.{PeerDb}
use reth_crawler.Sql.{
  Placeholder, question, Condition, always, equals, greater, star, Statement, insert_or_replace,
  select,
}
use reth_crawler.Sql.Stepping.{StepEngine}

abbrev pub table : String
table = "eth_peer_data"

-- `PRIMARY KEY`, `NOT NULL`, or neither; SQLite takes `TEXT NON NULL` for a type and `NULL`
pub data Constraint : Type 0 where
  primary_key not_null nullable : Constraint

-- the columns of `CREATE TABLE`, in order
abbrev pub columns : List (String × Constraint)
columns =
    ("id", primary_key)
    ∷ ("ip", not_null)
    ∷ ("client_name", nullable)
    ∷ ("client_version", not_null)
    ∷ ("client_build", nullable)
    ∷ ("client_arch", nullable)
    ∷ ("os", nullable)
    ∷ ("client_language", nullable)
    ∷ ("enode_url", not_null)
    ∷ ("port", not_null)
    ∷ ("chain", not_null)
    ∷ ("genesis_hash", not_null)
    ∷ ("best_block", not_null)
    ∷ ("total_difficulty", not_null)
    ∷ ("country", nullable)
    ∷ ("city", nullable)
    ∷ ("last_seen", not_null)
    ∷ ("capabilities", nullable)
    ∷ ("eth_version", nullable)
    ∷ ("synced", nullable)
    ∷ ("isp", nullable)
    ∷ []

abbrev pub schema : List String
schema = map (λ column. column.0) columns

abbrev pub key_of : List (String × Constraint) → Option String
key_of [] = none
key_of ((name, primary_key) ∷ more) = some name
key_of ((name, not_null) ∷ more) = key_of more
key_of ((name, nullable) ∷ more) = key_of more

-- the primary key
abbrev pub key : String
key = get_or (key_of columns) ""

-- the column list of the `INSERT` of `add_peer`
abbrev pub inserted : List String
inserted =
    "id" ∷ "ip" ∷ "client_name" ∷ "client_version" ∷ "client_build" ∷ "client_arch" ∷ "os"
    ∷ "client_language" ∷ "enode_url" ∷ "port" ∷ "chain" ∷ "genesis_hash" ∷ "best_block"
    ∷ "total_difficulty" ∷ "country" ∷ "city" ∷ "last_seen" ∷ "capabilities" ∷ "eth_version"
    ∷ "synced" ∷ "isp" ∷ []

-- `?1` to `?21`
abbrev pub placeholders : List Placeholder
placeholders = map question (
    1 ∷ 2 ∷ 3 ∷ 4 ∷ 5 ∷ 6 ∷ 7 ∷ 8 ∷ 9 ∷ 10 ∷ 11 ∷ 12 ∷ 13 ∷ 14 ∷ 15 ∷ 16 ∷ 17 ∷ 18 ∷ 19 ∷ 20 ∷ 21
    ∷ [])

-- The client of SQLite: it also reads integers into the types of the port and the version, and
-- refuses a column that is not there. Texts are compared by their bytes.
pub record Driver : Type 1 where
  pub engine : StepEngine
  pub open engine use *
  pub get_u16 : Value → Result Error ℕ
  pub get_u8 : Value → Result Error ℕ
  pub invalid_column : Error
  pub get_u16-integer : (n : ℕ) → n < u16_bound → get_u16 (integer n) ≡ ok n
  pub get_u8-integer : (n : ℕ) → n < u8_bound → get_u8 (integer n) ≡ ok n
  pub less-text : (s t : Text) → less (text s) (text t) ≡ text_ltb s t

-- what `clients` and `active_clients` keep of a peer
abbrev pub client : PeerData → ClientData
client p = record { client_version = p.client_version }

module _ (D : Driver) where
  open D use {
    Value, Connection, Error, execute, query_map, text, integer, optional_bool, get_text,
    get_optional_bool, get_u16, get_u8, invalid_column,
  }

  -- the `params!` of `add_peer`
  unfoldable pub params : PeerData → List Value
  params p =
      text p.id
      ∷ text p.address
      ∷ text p.client_name
      ∷ text p.client_version
      ∷ text p.client_build
      ∷ text p.client_arch
      ∷ text p.os
      ∷ text p.client_language
      ∷ text p.enode_url
      ∷ integer p.tcp_port
      ∷ text p.chain
      ∷ text p.genesis_block_hash
      ∷ text p.best_block
      ∷ text p.total_difficulty
      ∷ text p.country
      ∷ text p.city
      ∷ text p.last_seen
      ∷ text (join b',' p.capabilities)
      ∷ integer p.eth_version
      ∷ optional_bool p.synced
      ∷ text p.isp
      ∷ []

  -- `row.get(i)`
  unfoldable pub get : {A : Type 0} → (Value → Result Error A) → ℕ → List Value → Result Error A
  get read i [] = err invalid_column
  get read zero (v ∷ vs) = read v
  get read (suc i) (v ∷ vs) = get read i vs

  -- the closure that the six queries map over the rows
  unfoldable pub from_row : List Value → Result Error PeerData
  unfolding get
  from_row row = do
    id ← get get_text 0 row
    address ← get get_text 1 row
    client_name ← get get_text 2 row
    client_version ← get get_text 3 row
    client_build ← get get_text 4 row
    client_arch ← get get_text 5 row
    os ← get get_text 6 row
    client_language ← get get_text 7 row
    enode_url ← get get_text 8 row
    tcp_port ← get get_u16 9 row
    chain ← get get_text 10 row
    genesis_block_hash ← get get_text 11 row
    best_block ← get get_text 12 row
    total_difficulty ← get get_text 13 row
    country ← get get_text 14 row
    city ← get get_text 15 row
    last_seen ← get get_text 16 row
    capabilities ← get get_text 17 row
    eth_version ← get get_u8 18 row
    synced ← get get_optional_bool 19 row
    isp ← get get_text 20 row
    ok (record {
      enode_url = enode_url;
      id = id;
      address = address;
      tcp_port = tcp_port;
      client_name = client_name;
      client_version = client_version;
      client_build = client_build;
      client_arch = client_arch;
      os = os;
      client_language = client_language;
      eth_version = eth_version;
      capabilities = split b',' capabilities;
      chain = chain;
      total_difficulty = total_difficulty;
      best_block = best_block;
      genesis_block_hash = genesis_block_hash;
      last_seen = last_seen;
      country = country;
      city = city;
      synced = synced;
      isp = isp;
    })

  -- `rows.flatten()`: errors are dropped, those of a step and those of reading a row
  unfoldable pub flatten : List (Result Error PeerData) → List PeerData
  flatten rows = filter_map (λ peer. to_option peer) rows

  -- `query_map` with the closure, and the peers of its items
  unfoldable pub peers : Condition → List Value → Connection → Result Error (List PeerData)
  unfolding flatten
  peers condition args c =
      map_ok (λ items. flatten (map (λ item. item >>= from_row) items))
        (query_map (select star table condition) args c)

  unfoldable pub add_peer :
      {A P : Type 0}
      → PeerData
      → Connection
      → Connection × Result (AddItemError A Error P) (Unit {0})
  unfolding params
  add_peer p c =
      let (c', r) = execute (insert_or_replace table inserted placeholders) (params p) c in
      (c', map_err sql_add_item_error r)

  unfoldable pub all_peers :
      {A P : Type 0} → Option ℕ → Connection → Result (ScanTableError A Error P) (List PeerData)
  unfolding peers
  all_peers page_size c = map_err sql_scan_error (peers always [] c)

  unfoldable pub all_active_peers :
      {A P : Type 0}
      → Text
      → Option ℕ
      → Connection
      → Result (ScanTableError A Error P) (List PeerData)
  unfolding peers
  all_active_peers last_seen page_size c =
      map_err sql_scan_error (peers (greater "last_seen" (question 1)) (text last_seen ∷ []) c)

  unfoldable pub node_by_id :
      {A P : Type 0}
      → Text
      → Connection
      → Result (QueryItemError A Error P) (Option (List PeerData))
  unfolding peers
  node_by_id id c =
      map_ok some (map_err sql_query_item_error (peers (equals "id" (question 1)) (text id ∷ []) c))

  unfoldable pub node_by_ip :
      {A P : Type 0}
      → Text
      → Connection
      → Result (QueryItemError A Error P) (Option (List PeerData))
  unfolding peers
  node_by_ip ip c =
      map_ok some (map_err sql_query_item_error (peers (equals "ip" (question 1)) (text ip ∷ []) c))

  unfoldable pub clients :
      {A P : Type 0} → Option ℕ → Connection → Result (ScanTableError A Error P) (List ClientData)
  unfolding peers
  clients page_size c = map_ok (map client) (map_err sql_scan_error (peers always [] c))

  unfoldable pub active_clients :
      {A P : Type 0}
      → Text
      → Option ℕ
      → Connection
      → Result (ScanTableError A Error P) (List ClientData)
  unfolding peers
  active_clients last_seen page_size c =
      map_ok (map client)
        (map_err sql_scan_error (peers (greater "last_seen" (question 1)) (text last_seen ∷ []) c))

  -- `SqlPeerDB` as an implementation of the trait
  abbrev pub sql_peer_db : {A P : Type 0} → PeerDb A Error P
  sql_peer_db = record {
    Store = Connection;
    add_peer = add_peer;
    all_peers = λ n c. done (all_peers n c);
    all_active_peers = λ t n c. done (all_active_peers t n c);
    node_by_id = λ t c. done (node_by_id t c);
    node_by_ip = λ t c. done (node_by_ip t c);
    clients = λ n c. done (clients n c);
    active_clients = λ t n c. done (active_clients t n c);
  }
