-- ===== src/Tests/Versions.antt =====
-- `split_version` on client versions of the network.
use reth_crawler.Prelude.{◌≡◌, refl, arith}
use reth_crawler.Text.{text, split, split_once}
use reth_crawler.Version.{split_at_dash_or_plus, split_version}
use reth_crawler.Version.Laws.{split_version_parts}

geth : split_version (text "Geth/v1.13.4-stable-3f907d6a/linux-amd64/go1.21.3") ≡ record {
  client_name = text "Geth";
  client_version = text "v1.13.4";
  client_build = text "stable-3f907d6a";
  client_arch = text "amd64";
  os = text "linux";
  client_language = text "go1.21.3";
}
unfolding split_version split_at_dash_or_plus split split_once
geth = refl

split_version_parts_example : split_version (text "reth/v0.1-dev/linux-x64/rust") ≡ record {
  client_name = text "reth";
  client_version = text "v0.1";
  client_build = text "dev";
  client_arch = text "x64";
  os = text "linux";
  client_language = text "rust";
}
split_version_parts_example =
    split_version_parts (text "reth") (text "v0.1") (text "dev") (text "linux") (text "x64")
      (text "rust") (omega arith) (omega arith)
