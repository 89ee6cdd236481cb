-- ===== src/Aws/RoundTrip.antt =====
-- What a peer becomes when it is stored in DynamoDB and read back.
use reth_crawler.Prelude.{
  ℕ, ◌<◌, ◌≡◌, refl, ap, string_eq, [], ◌∷◌, List, none, some, Option, Bool, map, lookup,
}
use reth_crawler.Text.{Text}
use reth_crawler.Text.Decimal.{u8_bound, u16_bound, to_string}
use reth_crawler.Text.Decimal.RoundTrip.{parse-to_string}
use reth_crawler.Types.{PeerData, InRange}
use reth_crawler.Types.Attributes.{
  Attributes, as_string, as_uint, as_u8, as_u16, as_string_vec, as_option_bool,
}
use reth_crawler.Types.Item.{from_item}
use reth_crawler.Aws.{synced_attribute, put_item}

module _ (A : Attributes) where
  open A use {Value, s, n, l, bool, null, as_s-s, as_n-n, as_l-l, as_bool-bool, as_bool-null}

  map-as_string : (ts : List Text) → map (λ v. as_string A (some v) []) (map s ts) ≡ ts
  unfolding as_string
  map-as_string [] = refl
  map-as_string (t ∷ ts) = rw (as_s-s, as_string) (ap (◌∷◌ t) (map-as_string ts))

  as_string_vec-l : (ts : List Text) → as_string_vec A (some (l (map s ts))) ≡ ts
  unfolding as_string_vec
  as_string_vec-l ts = rw (as_l-l, as_string_vec) (map-as_string ts)

  as_string-s : (t : Text) → as_string A (some (s t)) [] ≡ t
  unfolding as_string
  as_string-s t = rw (as_s-s, as_string)

  as_option_bool-synced_attribute :
      (o : Option Bool) → as_option_bool A (some (synced_attribute A o)) none ≡ o
  unfolding as_option_bool synced_attribute
  as_option_bool-synced_attribute none = rw (as_bool-null, as_option_bool)
  as_option_bool-synced_attribute (some b) = rw (as_bool-bool, as_option_bool)

  as_string-none : as_string A none [] ≡ []
  unfolding as_string
  as_string-none = refl

  as_u16-n : (k default : ℕ) → k < u16_bound → as_u16 A (some (n (to_string k))) default ≡ k
  unfolding as_u16
  as_u16-n k default h = rw (as_n-n, as_uint) (rw (parse-to_string u16_bound k h))

  as_u8-n : (k default : ℕ) → k < u8_bound → as_u8 A (some (n (to_string k))) default ≡ k
  unfolding as_u8
  as_u8-n k default h = rw (as_n-n, as_uint) (rw (parse-to_string u8_bound k h))

  -- A peer that is stored in DynamoDB and read back has every field as it was, whatever the region,
  -- but `client_arch`: that is empty, because it is stored as `client_arch` and read as
  -- `client_architecture`. The port and the protocol version must fit their types.
  pub from_item-put_item :
      (region : Text) (p : PeerData)
      → InRange p
      → from_item A (put_item A region p) ≡ record p { client_arch = [] }
  unfolding from_item put_item lookup
  from_item-put_item region p h = simp (
    as_string-s,
    as_string-none,
    as_u16-n p.tcp_port 30303 h.tcp_port,
    as_u8-n p.eth_version 0 h.eth_version,
    as_string_vec-l,
    as_option_bool-synced_attribute,
  )
