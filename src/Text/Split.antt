-- ===== src/Text/Split.antt =====
-- Laws of `split`, `split_once` and `join`.
use reth_crawler.Prelude.{
  ℕ, suc, ◌≡◌, refl, sym, ap, ◌∙◌, beq_sound, ◌≢◌, inl, inr, Option, none, some, List, [], ◌∷◌,
  ◌++◌, arith, length, All, ◌==◌, nat_eq, nat_beq_iff, if◌then◌else◌, Bool-cases,
}
use reth_crawler.Text.{Text, onto_first, split, split_once, join}

-- A text that has no `sep`.
abbrev pub Lacks : ℕ → Text → Type 0
Lacks sep = All (λ c. c ≢ sep)

-- How often `sep` stands in a text.
abbrev pub count : ℕ → Text → ℕ
count sep [] = 0
count sep (c ∷ s) = if c == sep then suc (count sep s) else count sep s

-- A text without the separator is one piece.
pub split-Lacks : (sep : ℕ) (s : Text) → Lacks sep s → split sep s ≡ s ∷ []
unfolding split
split-Lacks sep [] h = refl
split-Lacks sep (c ∷ s) (ne, h) = ground (arith, split-Lacks sep s h)

pub split-append :
    (sep : ℕ) (s t : Text) → Lacks sep s → split sep (s ++ (sep ∷ t)) ≡ s ∷ split sep t
unfolding split
split-append sep [] t h = ground arith
split-append sep (c ∷ s) t (ne, h) = ground (arith, split-append sep s t h)

pub length-onto_first :
    (c : ℕ) (sep : ℕ) (s : Text) → length (onto_first c (split sep s)) ≡ length (split sep s)
unfolding split
length-onto_first c sep [] = refl
length-onto_first c sep (d ∷ s) = ground (arith, length-onto_first d sep s)

pub length-split : (sep : ℕ) (s : Text) → length (split sep s) ≡ suc (count sep s)
unfolding split
length-split sep [] = refl
length-split sep (c ∷ s) = ground (arith, length-split sep s, length-onto_first c sep s)

pub Lacks-around :
    (sep c : ℕ) (s t : Text) → c ≢ sep → Lacks sep s → Lacks sep t → Lacks sep (s ++ (c ∷ t))
Lacks-around sep c [] t ne h k = (ne, k)
Lacks-around sep c (d ∷ s) t ne (x, h) k = (x, Lacks-around sep c s t ne h k)

-- What `join` has put together, `split` takes apart.
pub split-join :
    (sep : ℕ) (piece : Text) (pieces : List Text)
    → All (Lacks sep) (piece ∷ pieces)
    → split sep (join sep (piece ∷ pieces)) ≡ piece ∷ pieces
unfolding join
split-join sep piece [] (h, _) = split-Lacks sep piece h
split-join sep piece (next ∷ rest) (h, hs) =
    split-append sep piece (join sep (next ∷ rest)) h ∙ ap (◌∷◌ piece) (split-join sep next rest hs)

split-cons :
    (sep : ℕ) (s : Text) → (piece : Text) × (more : List Text) × (split sep s ≡ piece ∷ more)
unfolding split
split-cons sep [] = ([], [], refl)
split-cons sep (c ∷ s) =
    let (piece, more, same) = split-cons sep s in
    elim (Bool-cases (c == sep)) [
      | inl cut ↦ ([], split sep s, rw cut refl)
      | inr on ↦ (c ∷ piece, more, rw (on, same, onto_first) refl)
    ]

join-onto_first :
    (sep c : ℕ) (piece : Text) (more : List Text)
    → join sep ((c ∷ piece) ∷ more) ≡ c ∷ join sep (piece ∷ more)
unfolding join
join-onto_first sep c piece [] = refl
join-onto_first sep c piece (next ∷ more) = refl

-- What `split` has taken apart, `join` puts together.
pub join-split : (sep : ℕ) (s : Text) → join sep (split sep s) ≡ s
unfolding split join
join-split sep [] = refl
join-split sep (c ∷ s) =
    let (piece, more, same) = split-cons sep s in
    let rest : join sep (piece ∷ more) ≡ s = ap (join sep) (sym same) ∙ join-split sep s in
    elim (Bool-cases (c == sep)) [
      | inl cut ↦ rw (cut, same) (cc (rest, beq_sound c sep cut))
      | inr on ↦ rw (on, same, onto_first) (join-onto_first sep c piece more ∙ ap (◌∷◌ c) rest)
    ]

-- What `split_once` answers for `s`.
abbrev pub Cut : ℕ → Text → Option (Text × Text) → Type 0
Cut sep s none = Lacks sep s
Cut sep s (some (before, after)) = Lacks sep before × (s ≡ before ++ (sep ∷ after))

Cut-cons :
    (sep c : ℕ) (s : Text) (o : Option (Text × Text))
    → c ≢ sep
    → Cut sep s o
    → Cut sep (c ∷ s) (elim o [ none ↦ none | some (before, after) ↦ some (c ∷ before, after) ])
Cut-cons sep c s none ne h = (ne, h)
Cut-cons sep c s (some (before, after)) ne (h, e) = ((ne, h), ap (◌∷◌ c) e)

pub split_once-Cut : (sep : ℕ) (s : Text) → Cut sep s (split_once sep s)
unfolding split_once
split_once-Cut sep [] = tt
split_once-Cut sep (c ∷ s) = elim (Bool-cases (c == sep)) [
  | inl here ↦ rw here (tt, ap (λ d. d ∷ s) ((nat_beq_iff c sep).0 here))
  | inr later ↦ rw later (
      Cut-cons sep c s (split_once sep s) (λ e. ground (arith, nat_beq_iff c sep))
        (split_once-Cut sep s))
]

pub split_once-Lacks : (sep : ℕ) (s : Text) → Lacks sep s → split_once sep s ≡ none
unfolding split_once
split_once-Lacks sep [] h = refl
split_once-Lacks sep (c ∷ s) (ne, h) = ground (arith, split_once-Lacks sep s h)

pub split_once_at :
    (sep : ℕ) (s t : Text) → Lacks sep s → split_once sep (s ++ (sep ∷ t)) ≡ some (s, t)
unfolding split_once
split_once_at sep [] t h = ground arith
split_once_at sep (c ∷ s) t (ne, h) = ground (arith, split_once_at sep s t h)
