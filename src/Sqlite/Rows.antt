-- ===== src/Sqlite/Rows.antt =====
-- The row that `add_peer` of `SqlPeerDB` stores, and what the queries make of it.
use mathlib.Core.List.{zip}
use reth_crawler.Prelude.{◌≡◌, refl, ap, List, [], ◌∷◌, ok, lookup, All, string_eq}
use reth_crawler.Text.{Text, split, join}
use reth_crawler.Text.Split.{Lacks, split-join, join-split}
use reth_crawler.Types.{PeerData, InRange}
use reth_crawler.Sql.{Row, assigned, project, star}
use reth_crawler.Sqlite.{Driver, schema, inserted, placeholders, params, from_row}

-- A peer as it is read back: its capabilities are joined by commas and split again.
abbrev pub reread : PeerData → PeerData
reread p = record p { capabilities = split b',' (join b',' p.capabilities) }

-- A peer is read back as it was, if it has a capability and no capability has a comma.
pub reread_same :
    (p : PeerData) (capability : Text) (more : List Text)
    → p.capabilities ≡ capability ∷ more
    → All (Lacks b',') (capability ∷ more)
    → reread p ≡ p
reread_same p capability more e h =
    let same : split b',' (join b',' p.capabilities) ≡ p.capabilities =
      rw e (split-join b',' capability more h) in
    ap (λ cs. record p { capabilities = cs }) same

-- A peer that was read back is read back as it is.
pub reread-reread : (p : PeerData) → reread (reread p) ≡ reread p
reread-reread p =
    ap (λ cs. record p { capabilities = split b',' cs })
      (join-split b',' (join b',' p.capabilities))

-- A peer without capabilities is read back with one, the empty text.
pub reread_none : (p : PeerData) → p.capabilities ≡ [] → (reread p).capabilities ≡ [] ∷ []
unfolding split join
reread_none p e = rw e

module _ (D : Driver) where
  open D use {
    engine, Value, text, integer, optional_bool, get_text-text, get_u16-integer, get_u8-integer,
    get_optional_bool-optional_bool,
  }

  -- the row of a peer
  unfoldable pub stored : PeerData → Row Value
  unfolding assigned params lookup zip
  stored p = assigned engine.values inserted placeholders (params D p)

  -- The values of the row in the order of the table are the parameters.
  stored_values : (p : PeerData) → project schema star (stored p) ≡ params D p
  unfolding stored project
  stored_values p = refl

  -- The closure of the queries reads the row of a peer, whose numbers fit, without an error.
  pub from_row-stored :
      (p : PeerData) → InRange p → from_row D (project schema star (stored p)) ≡ ok (reread p)
  unfolding from_row params
  from_row-stored p h = rw (stored_values p) (
      simp (
        get_text-text,
        get_u16-integer p.tcp_port h.tcp_port,
        get_u8-integer p.eth_version h.eth_version,
        get_optional_bool-optional_bool,
      ))

  pub stored-id : (p : PeerData) → stored p "id" ≡ text p.id
  unfolding stored
  stored-id p = refl

  pub stored-ip : (p : PeerData) → stored p "ip" ≡ text p.address
  unfolding stored
  stored-ip p = refl

  pub stored-last_seen : (p : PeerData) → stored p "last_seen" ≡ text p.last_seen
  unfolding stored
  stored-last_seen p = refl
