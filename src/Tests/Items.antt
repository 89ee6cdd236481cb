-- ===== src/Tests/Items.antt =====
-- Attribute values as a data type, and a peer through DynamoDB.
use reth_crawler.Prelude.{◌≡◌, refl, ap, Bool, none, List, [], ◌∷◌, Result, ok, err, arith}
use reth_crawler.Text.{Text, text}
use reth_crawler.Types.{PeerData, InRange}
use reth_crawler.Types.Attributes.{Attributes}
use reth_crawler.Types.Item.{from_item}
use reth_crawler.Aws.{put_item}
use reth_crawler.Aws.RoundTrip.{from_item-put_item}

mutual
  pub data Value : Type 0 where
    s n : Text → Value
    l : Values → Value
    bool null : Bool → Value

  pub data Values : Type 0 where
    nil : Values
    cons : Value → Values → Values

abbrev of_list : List Value → Values
of_list [] = nil
of_list (v ∷ vs) = cons v (of_list vs)

abbrev to_list : Values → List Value
to_list nil = []
to_list (cons v vs) = v ∷ to_list vs

pub to_list-of_list : (vs : List Value) → to_list (of_list vs) ≡ vs
to_list-of_list [] = refl
to_list-of_list (v ∷ vs) = ap (◌∷◌ v) (to_list-of_list vs)

abbrev as_s : Value → Result Value Text
as_s (s t) = ok t
as_s v = err v

abbrev as_n : Value → Result Value Text
as_n (n t) = ok t
as_n v = err v

abbrev as_l : Value → Result Value (List Value)
as_l (l vs) = ok (to_list vs)
as_l v = err v

abbrev as_bool : Value → Result Value Bool
as_bool (bool b) = ok b
as_bool v = err v

abbrev pub values : Attributes
values = record {
  Value = Value;
  s = s;
  n = n;
  l = λ vs. l (of_list vs);
  bool = bool;
  null = null;
  as_s = as_s;
  as_n = as_n;
  as_l = as_l;
  as_bool = as_bool;
  as_s-s = λ t. refl;
  as_n-n = λ t. refl;
  as_l-l = λ vs. ap ok (to_list-of_list vs);
  as_bool-bool = λ b. refl;
  as_bool-null = λ b. refl;
}

abbrev pub geth : PeerData
geth = record {
  enode_url = text "enode://0bb4@158.220.96.114:34310";
  id = text "0x0bb4";
  address = text "158.220.96.114";
  tcp_port = 34310;
  client_name = text "Geth";
  client_version = text "v1.13.4";
  client_build = text "stable";
  client_arch = text "amd64";
  os = text "linux";
  client_language = text "go1.21.3";
  eth_version = 68;
  capabilities = text "eth/67" ∷ text "snap/1" ∷ [];
  chain = text "mainnet";
  total_difficulty = text "17179869184";
  best_block = text "0xd4e5";
  genesis_block_hash = text "0xd4e5";
  last_seen = text "2023-11-08 15:41:04";
  country = text "Germany";
  city = text "Berlin";
  synced = none;
  isp = text "Contabo";
}

pub geth-InRange : InRange geth
geth-InRange = record { tcp_port = omega arith; eth_version = omega arith }

from_item-put_item_example :
    from_item values (put_item values (text "us-west-2") geth) ≡ record geth { client_arch = [] }
from_item-put_item_example = from_item-put_item values (text "us-west-2") geth geth-InRange
