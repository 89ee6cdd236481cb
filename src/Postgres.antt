-- ===== src/Postgres.antt =====
-- `PostgreSQLPeerDb` of db/src/db.rs, over the client of PostgreSQL. Reading a column panics where
-- the client of SQLite returns an error.
pub mod Rows
pub mod Opening
pub mod Refines
pub mod Keeper
use reth_crawler.Prelude.{
  ℕ, zero, suc, ◌^◌, ◌<◌, ◌≡◌, String, Bool, true, false, Option, some, List, [], ◌∷◌, map, Result,
  ok, err, map_err, map_ok, Outcome, done, panic,
}
use reth_crawler.Prelude.Ints.{ℤ, pos, as_unsigned}
use reth_crawler.Prelude.Panics.{◌>>=◌, collect_all}
use reth_crawler.Text.{Text, split, join}
use reth_crawler.Types.{
  PeerData, ClientData, AddItemError, postgres_add_item_error, ScanTableError, postgres_scan_error,
  QueryItemError, postgres_query_item_error,
}
use reth_crawler.PeerDb.{PeerDb}
use reth_crawler.Sql.{
  Engine, Placeholder, question, dollar, Condition, always, equals, greater, Selection, star,
  columns, Statement, insert_on_conflict, select,
}

abbrev pub table : String
table = "eth_peer_data"

-- the columns of `ON CONFLICT (id) DO UPDATE SET`
abbrev pub overwritten : List String
overwritten =
    "ip" ∷ "client_name" ∷ "client_version" ∷ "client_build" ∷ "client_arch" ∷ "os"
    ∷ "client_language" ∷ "enode_url" ∷ "port" ∷ "chain" ∷ "genesis_hash" ∷ "best_block"
    ∷ "total_difficulty" ∷ "country" ∷ "city" ∷ "last_seen" ∷ "capabilities" ∷ "eth_version"
    ∷ "synced" ∷ "isp" ∷ []

-- the column list of the `INSERT` of `add_peer`
abbrev pub inserted : List String
inserted =
    "id" ∷ "ip" ∷ "client_name" ∷ "client_version" ∷ "client_build" ∷ "client_arch" ∷ "os"
    ∷ "client_language" ∷ "enode_url" ∷ "port" ∷ "chain" ∷ "genesis_hash" ∷ "best_block"
    ∷ "total_difficulty" ∷ "country" ∷ "city" ∷ "last_seen" ∷ "capabilities" ∷ "eth_version"
    ∷ "synced" ∷ "isp" ∷ []

-- `$1` to `$21`
abbrev pub placeholders : List Placeholder
placeholders = map dollar (
    1 ∷ 2 ∷ 3 ∷ 4 ∷ 5 ∷ 6 ∷ 7 ∷ 8 ∷ 9 ∷ 10 ∷ 11 ∷ 12 ∷ 13 ∷ 14 ∷ 15 ∷ 16 ∷ 17 ∷ 18 ∷ 19 ∷ 20 ∷ 21
    ∷ [])

-- PostgreSQL numbers its parameters `$n`; in `> ?1` it reads an operator `?` that it does not have.
abbrev pub has_question : Condition → Bool
has_question (equals column (question n)) = true
has_question (greater column (question n)) = true
has_question _ = false

-- The client of PostgreSQL: its integers have 32 bits and a sign.
pub record Driver : Type 1 where
  pub engine : Engine
  pub open engine use *
  pub get_i32 : Value → Result Error ℤ
  pub get_i32-integer : (n : ℕ) → n < 2 ^ 31 → get_i32 (integer n) ≡ ok (pos n)
  pub refuses_question :
      (selection : Selection) (from : String) (condition : Condition) (args : List Value)
      (c : Connection)
      → has_question condition ≡ true
      → (e : Error) × (query (select selection from condition) args c ≡ err e)

module _ (D : Driver) where
  open D use {
    Value, Connection, Error, execute, query, text, integer, optional_bool, get_text,
    get_optional_bool, get_i32,
  }

  -- the parameters of `add_peer`; the casts of the port and the version to `i32` keep the numbers
  unfoldable pub params : PeerData → List Value
  params p =
      text p.id
      ∷ text p.address
      ∷ text p.client_name
      ∷ text p.client_version
      ∷ text p.client_build
      ∷ text p.client_arch
      ∷ text p.os
      ∷ text p.client_language
      ∷ text p.enode_url
      ∷ integer p.tcp_port
      ∷ text p.chain
      ∷ text p.genesis_block_hash
      ∷ text p.best_block
      ∷ text p.total_difficulty
      ∷ text p.country
      ∷ text p.city
      ∷ text p.last_seen
      ∷ text (join b',' p.capabilities)
      ∷ integer p.eth_version
      ∷ optional_bool p.synced
      ∷ text p.isp
      ∷ []

  -- `row.get(i)`
  unfoldable pub get : {A : Type 0} → (Value → Result Error A) → ℕ → List Value → Outcome A
  get read i [] = panic
  get read zero (v ∷ vs) = elim (read v) [ ok a ↦ done a | err e ↦ panic ]
  get read (suc i) (v ∷ vs) = get read i vs

  -- the closure that four queries map over the rows
  unfoldable pub from_row : List Value → Outcome PeerData
  unfolding get
  from_row row = do
    id ← get get_text 0 row
    address ← get get_text 1 row
    client_name ← get get_text 2 row
    client_version ← get get_text 3 row
    client_build ← get get_text 4 row
    client_arch ← get get_text 5 row
    os ← get get_text 6 row
    client_language ← get get_text 7 row
    enode_url ← get get_text 8 row
    tcp_port ← get get_i32 9 row
    chain ← get get_text 10 row
    genesis_block_hash ← get get_text 11 row
    best_block ← get get_text 12 row
    total_difficulty ← get get_text 13 row
    country ← get get_text 14 row
    city ← get get_text 15 row
    last_seen ← get get_text 16 row
    capabilities ← get get_text 17 row
    eth_version ← get get_i32 18 row
    synced ← get get_optional_bool 19 row
    isp ← get get_text 20 row
    done (record {
      enode_url = enode_url;
      id = id;
      address = address;
      tcp_port = as_unsigned 16 tcp_port;
      client_name = client_name;
      client_version = client_version;
      client_build = client_build;
      client_arch = client_arch;
      os = os;
      client_language = client_language;
      eth_version = as_unsigned 8 eth_version;
      capabilities = split b',' capabilities;
      chain = chain;
      total_difficulty = total_difficulty;
      best_block = best_block;
      genesis_block_hash = genesis_block_hash;
      last_seen = last_seen;
      country = country;
      city = city;
      synced = synced;
      isp = isp;
    })

  -- the closure of `clients` and `active_clients`
  unfoldable pub client_from_row : List Value → Outcome ClientData
  unfolding get
  client_from_row row = do
    client_version ← get get_text 0 row
    done (record { client_version = client_version })

  -- a query, its error by `?`, and then its rows by a closure
  unfoldable pub read_rows :
      {A F : Type 0}
      → (Error → F)
      → (List Value → Outcome A)
      → Selection
      → Condition
      → List Value
      → Connection
      → Outcome (Result F (List A))
  read_rows error read selection condition args c =
      elim (query (select selection table condition) args c) [
        | ok rows ↦ collect_all read rows >>= (λ found. done (ok found))
        | err e ↦ done (err (error e))
      ]

  unfoldable pub add_peer :
      {A S : Type 0}
      → PeerData
      → Connection
      → Connection × Result (AddItemError A S Error) (Unit {0})
  unfolding params
  add_peer p c =
      let (c', r) =
        execute (insert_on_conflict table inserted placeholders "id" overwritten) (params p) c in
      (c', map_err postgres_add_item_error r)

  module _ {A S : Type 0} where
    unfoldable pub all_peers :
        Option ℕ → Connection → Outcome (Result (ScanTableError A S Error) (List PeerData))
    unfolding read_rows
    all_peers page_size c = read_rows postgres_scan_error from_row star always [] c

    unfoldable pub all_active_peers :
        Text → Option ℕ → Connection → Outcome (Result (ScanTableError A S Error) (List PeerData))
    unfolding read_rows
    all_active_peers last_seen page_size c =
        read_rows postgres_scan_error from_row star (greater "last_seen" (question 1))
          (text last_seen ∷ []) c

    unfoldable pub clients :
        Option ℕ → Connection → Outcome (Result (ScanTableError A S Error) (List ClientData))
    unfolding read_rows
    clients page_size c =
        read_rows postgres_scan_error client_from_row (columns ("client_name" ∷ [])) always [] c

    unfoldable pub active_clients :
        Text → Option ℕ → Connection → Outcome (Result (ScanTableError A S Error) (List ClientData))
    unfolding read_rows
    active_clients last_seen page_size c =
        read_rows postgres_scan_error client_from_row (columns ("client_name" ∷ []))
          (greater "last_seen" (question 1)) (text last_seen ∷ []) c

    unfoldable pub node_by_id :
        Text → Connection → Outcome (Result (QueryItemError A S Error) (Option (List PeerData)))
    unfolding read_rows
    node_by_id id c =
        read_rows postgres_query_item_error from_row star (equals "id" (question 1)) (text id ∷ [])
          c
        >>= (λ found. done (map_ok some found))

    unfoldable pub node_by_ip :
        Text → Connection → Outcome (Result (QueryItemError A S Error) (Option (List PeerData)))
    unfolding read_rows
    node_by_ip ip c =
        read_rows postgres_query_item_error from_row star (equals "ip" (question 1)) (text ip ∷ [])
          c
        >>= (λ found. done (map_ok some found))

  -- `PostgreSQLPeerDb` as an implementation of the trait
  abbrev pub postgres_peer_db : {A S : Type 0} → PeerDb A S Error
  postgres_peer_db = record {
    Store = Connection;
    add_peer = add_peer;
    all_peers = all_peers;
    all_active_peers = all_active_peers;
    node_by_id = node_by_id;
    node_by_ip = node_by_ip;
    clients = clients;
    active_clients = active_clients;
  }
