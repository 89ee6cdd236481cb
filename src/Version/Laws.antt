-- ===== src/Version/Laws.antt =====
-- What `split_version` makes of every input.
use reth_crawler.Prelude.{
  ◌≡◌, refl, ◌≢◌, ◌⊎◌, inl, inr, Option, none, some, List, [], ◌∷◌, ◌++◌, arith, length, All,
  nat_eq,
}
use reth_crawler.Text.{Text, split, split_once}
use reth_crawler.Text.Split.{
  Lacks, count, length-split, split-append, split-Lacks, Lacks-around, split_once-Cut, Cut,
  split_once_at,
}
use reth_crawler.Version.{whole, split_at_dash_or_plus, version_of, split_version}

-- The first `-` is the cut, else the first `+`, else all of the input stands before the cut.
abbrev pub DashOrPlus : Text → Text × Text → Type 0
DashOrPlus input (before, after) =
    (Lacks b'-' before × (input ≡ before ++ (b'-' ∷ after)))
    ⊎ (Lacks b'-' input × Lacks b'+' before × (input ≡ before ++ (b'+' ∷ after)))
    ⊎ (Lacks b'-' input × Lacks b'+' input × (before ≡ input) × (after ≡ []))

DashOrPlus-cases :
    (input : Text) (dash plus : Option (Text × Text))
    → Cut b'-' input dash
    → Cut b'+' input plus
    → DashOrPlus input (elim dash [
      | some (before, after) ↦ (before, after)
      | none ↦ elim plus [ some (before, after) ↦ (before, after) | none ↦ (input, []) ]
    ])
DashOrPlus-cases input (some (before, after)) plus cut _ = inl cut
DashOrPlus-cases input none (some (before, after)) lacks (h, e) = inr (inl (lacks, h, e))
DashOrPlus-cases input none none lacks lacks' = inr (inr (lacks, lacks', refl, refl))

split_at_dash :
    (before after : Text)
    → Lacks b'-' before
    → split_at_dash_or_plus (before ++ (b'-' ∷ after)) ≡ (before, after)
unfolding split_at_dash_or_plus
split_at_dash before after h = rw (split_once_at b'-' before after h, split_at_dash_or_plus)

-- `split_at_dash_or_plus` cuts at the first `-`; without a `-`, at the first `+`; and without
-- either it returns the whole input and an empty second part.
pub split_at_dash_or_plus-DashOrPlus :
    (input : Text) → DashOrPlus input (split_at_dash_or_plus input)
unfolding split_at_dash_or_plus
split_at_dash_or_plus-DashOrPlus input =
    DashOrPlus-cases input (split_once b'-' input) (split_once b'+' input)
      (split_once-Cut b'-' input) (split_once-Cut b'+' input)

-- A client version `name/version-build/os-arch/language` is taken apart into its six parts, if no
-- part has a `/` and neither the version nor the system has a `-`.
pub split_version_parts :
    (name version build os arch language : Text)
    → All (Lacks b'/') (name ∷ version ∷ build ∷ os ∷ arch ∷ language ∷ [])
    → All (Lacks b'-') (version ∷ os ∷ [])
    → split_version (
        name
        ++ (b'/' ∷ (version ++ (b'-' ∷ build))
            ++ (b'/' ∷ (os ++ (b'-' ∷ arch)) ++ (b'/' ∷ language))))
      ≡ record {
        client_name = name;
        client_version = version;
        client_build = build;
        client_arch = arch;
        os = os;
        client_language = language;
      }
unfolding split_version
split_version_parts name version build os arch language (sn, (sv, (sb, (so, (sa, (sl, _)))))) d =
    let joined = version ++ (b'-' ∷ build) in
    let platform = os ++ (b'-' ∷ arch) in
    let around = Lacks-around b'/' b'-' in
    rw (split-append b'/' name (joined ++ (b'/' ∷ platform ++ (b'/' ∷ language))) sn) (
      rw
        (split-append b'/' joined (platform ++ (b'/' ∷ language))
          (around version build (omega arith) sv sb))
        (rw (split-append b'/' platform language (around os arch (omega arith) so sa)) (
          rw (split-Lacks b'/' language sl)
            (rw (version_of, split_at_dash version build d.0, split_at_dash os arch d.1.0)))))

version_of-length :
    (input : Text) (parts : List Text) → length parts ≢ 4 → version_of input parts ≡ whole input
unfolding version_of
version_of-length input (a ∷ b ∷ c ∷ d ∷ []) h = absurd (h refl)
version_of-length input [] h = refl
version_of-length input (a ∷ []) h = refl
version_of-length input (a ∷ b ∷ []) h = refl
version_of-length input (a ∷ b ∷ c ∷ []) h = refl
version_of-length input (a ∷ b ∷ c ∷ d ∷ e ∷ rest) h = refl

-- An input that does not have exactly three `/` becomes the client name as it stands, and the
-- other five parts are empty.
pub split_version-whole : (input : Text) → count b'/' input ≢ 3 → split_version input ≡ whole input
unfolding split_version
split_version-whole input h =
    version_of-length input (split b'/' input) (λ e. h (omega (arith, length-split b'/' input)))
