-- ===== src/Postgres/Rows.antt =====
-- The row that `add_peer` of `PostgreSQLPeerDb` stores, and what the queries make of it.
use mathlib.Core.List.{zip}
use mathlib.Core.Option.{get_or}
use reth_crawler.Prelude.{
  ℕ, ◌<◌, ◌^◌, ◌≡◌, refl, fun_ext, inl, inr, false, none, List, [], ◌∷◌, done, lookup, any, drop,
  string_eq, ◌==◌, arith, if◌then◌else◌, Bool-cases, String,
}
use reth_crawler.Prelude.Ints.{pos, as_unsigned}
use reth_crawler.Text.Decimal.{u8_bound, u16_bound}
use reth_crawler.Types.{PeerData, ClientData, InRange}
use reth_crawler.Sql.{Row, assigned, project, star, columns}
use reth_crawler.Sql.Conflict.{updated}
use reth_crawler.Sqlite.Rows.{reread}
use reth_crawler.Postgres.{
  Driver, inserted, overwritten, placeholders, params, from_row, client_from_row, get,
}

-- A client as PostgreSQL returns it: its name stands where its version should.
abbrev pub named_client : PeerData → ClientData
named_client p = record { client_version = p.client_name }

port_fits : (n : ℕ) → n < u16_bound → as_unsigned 16 (pos n) ≡ n
port_fits n h = omega arith

version_fits : (n : ℕ) → n < u8_bound → as_unsigned 8 (pos n) ≡ n
version_fits n h = omega arith

small_port : (n : ℕ) → n < u16_bound → n < 2 ^ 31
small_port n h = omega arith

small_version : (n : ℕ) → n < u8_bound → n < 2 ^ 31
small_version n h = omega arith

-- A column that is not named gets no value.
lookup-zip-none {ℓ} :
    {V : Type ℓ} (names : List String) (vs : List V) (column : String)
    → any (λ c. c == column) names ≡ false
    → lookup column (zip names vs) ≡ none
unfolding lookup zip
lookup-zip-none [] vs column h = refl
lookup-zip-none (c ∷ names) [] column h = refl
lookup-zip-none (c ∷ names) (v ∷ vs) column h = ground (arith, h, lookup-zip-none names vs column)

get_or-lookup-zip {ℓ} :
    {V : Type ℓ} (c : String) (names : List String) (v d : V) (vs : List V) (column : String)
    → any (λ c. c == column) names ≡ false
    → get_or (lookup column (zip (c ∷ names) (v ∷ vs))) d ≡ (if c == column then v else d)
unfolding lookup zip
get_or-lookup-zip c names v d vs column h = elim (Bool-cases (c == column)) [
  | inl same ↦ rw (same) refl
  | inr other ↦ rw (other, lookup-zip-none names vs column h) refl
]

module _ (D : Driver) where
  open D use {
    engine, Value, text, integer, optional_bool, null, get_text-text, get_i32-integer,
    get_optional_bool-optional_bool,
  }

  -- the row of a peer
  unfoldable pub stored : PeerData → Row Value
  unfolding assigned params lookup zip
  stored p = assigned engine.values inserted placeholders (params D p)

  stored_values : (p : PeerData) → project inserted star (stored p) ≡ params D p
  unfolding stored project
  stored_values p = refl

  -- The closure of the queries reads the row of a peer, whose numbers fit, without a panic.
  pub from_row-stored :
      (p : PeerData) → InRange p → from_row D (project inserted star (stored p)) ≡ done (reread p)
  unfolding from_row params get
  from_row-stored p h = rw (stored_values p) (
      simp (
        get_text-text,
        get_i32-integer p.tcp_port (small_port p.tcp_port h.tcp_port),
        get_i32-integer p.eth_version (small_version p.eth_version h.eth_version),
        get_optional_bool-optional_bool,
        port_fits p.tcp_port h.tcp_port,
        version_fits p.eth_version h.eth_version,
      ))

  pub client_from_row-stored :
      (p : PeerData)
      → client_from_row D (project inserted (columns ("client_name" ∷ [])) (stored p))
        ≡ done (named_client p)
  unfolding client_from_row get stored project
  client_from_row-stored p = simp (get_text-text)

  pub stored-id : (p : PeerData) → stored p "id" ≡ text p.id
  unfolding stored
  stored-id p = refl

  -- A column that no conflict overwrites is the id, or has no value.
  kept :
      (p : PeerData) (column : String)
      → any (λ c. c == column) overwritten ≡ false
      → stored p column ≡ (if "id" == column then text p.id else null)
  unfolding stored lookup zip params
  kept p column h =
      get_or-lookup-zip "id" overwritten (text p.id) null (drop 1 (params D p)) column h

  -- An id determines what a conflict keeps, so the row becomes that of the new peer.
  pub updated-stored :
      (p q : PeerData) → q.id ≡ p.id → updated overwritten (stored p) (stored q) ≡ stored p
  unfolding updated
  updated-stored p q e = fun_ext (λ column. elim (Bool-cases (any (λ c. c == column) overwritten)) [
    | inl set ↦ rw set refl
    | inr kept_as_is ↦ rw (kept_as_is, kept p column kept_as_is, kept q column kept_as_is, e) refl
  ])
