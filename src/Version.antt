-- ===== src/Version.antt =====
-- `split_version` and `split_at_dash_or_plus` of
-- bins/reth-crawler/src/crawler/listener/update_listener.rs
pub mod Laws
use reth_crawler.Prelude.{Option, none, some, List, [], ◌∷◌}
use reth_crawler.Text.{Text, split, split_once}

-- the tuple that `split_version` returns, in its order
pub record Version : Type 0 where
  pub client_name : Text
  pub client_version : Text
  pub client_build : Text
  pub client_arch : Text
  pub os : Text
  pub client_language : Text

unfoldable pub split_at_dash_or_plus : Text → Text × Text
split_at_dash_or_plus input = elim (split_once b'-' input) [
  | some (before, after) ↦ (before, after)
  | none ↦ elim (split_once b'+' input) [
    | some (before, after) ↦ (before, after)
    | none ↦ (input, [])
  ]
]

-- the version of an input that is not in four parts
abbrev pub whole : Text → Version
whole input = record {
  client_name = input;
  client_version = [];
  client_build = [];
  client_arch = [];
  os = [];
  client_language = [];
}

-- the branch on `split.len() == 4`
unfoldable pub version_of : Text → List Text → Version
version_of input (name ∷ version ∷ platform ∷ language ∷ []) =
    let (client_version, client_build) = split_at_dash_or_plus version in
    let (os, client_arch) = split_at_dash_or_plus platform in
    record {
      client_name = name;
      client_version = client_version;
      client_build = client_build;
      client_arch = client_arch;
      os = os;
      client_language = language;
    }
version_of input _ = whole input

unfoldable pub split_version : Text → Version
unfolding version_of
split_version input = version_of input (split b'/' input)
