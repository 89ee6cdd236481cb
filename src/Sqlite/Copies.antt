-- ===== src/Sqlite/Copies.antt =====
-- Facts about a collection of peers and a copy of it, as it is read back.
use mathlib.Core.List.{Perm, cons≢nil, head-eq_of_cons-eq, tail-eq_of_cons-eq}
use mathlib.Core.List.Perm
use mathlib.Core.Path.{subst}
use reth_crawler.Prelude.{
  ◌≡◌, refl, sym, ap, ◌∙◌, inl, inr, Bool, false, not, ◌&&◌, none, some, List, [], ◌∷◌, map, keep,
  All, Bool-cases, ltb, ◌==◌, list_eq, nat_eq, arith,
}
use reth_crawler.Text.{Text}
use reth_crawler.Text.Decimal.{u16_bound, u8_bound}
use reth_crawler.Types.{PeerData, InRange}
use reth_crawler.PeerDb.Collection.{eq_of_perm_singleton}
use reth_crawler.Sql.Bags.{keep-Perm, keep-map}
use reth_crawler.Sqlite.Rows.{reread}
use reth_crawler.Listener.Latest.{latest}

-- A peer whose numbers do not fit.
abbrev misfit : PeerData → Bool
misfit p = not (ltb p.tcp_port u16_bound && ltb p.eth_version u8_bound)

keep-misfit : (ps : List PeerData) → All InRange ps → keep misfit ps ≡ []
keep-misfit [] h = refl
keep-misfit (p ∷ ps) h =
    let port = h.0.tcp_port in
    let version = h.0.eth_version in
    let rest = keep-misfit ps h.1 in ground (arith, port, version, rest)

InRange-misfit : (p : PeerData) → misfit p ≡ false → InRange p
InRange-misfit p h = record { tcp_port = ground (arith, h); eth_version = ground (arith, h) }

All-InRange_of_none : (ps : List PeerData) → keep misfit ps ≡ [] → All InRange ps
All-InRange_of_none [] h = tt
All-InRange_of_none (p ∷ ps) h = elim (Bool-cases (misfit p)) [
  | inl bad ↦
      let kept : keep misfit (p ∷ ps) ≡ p ∷ keep misfit ps = rw bad refl in
      absurd (cons≢nil (sym kept ∙ h))
  | inr good ↦
      let dropped : keep misfit (p ∷ ps) ≡ keep misfit ps = rw good refl in
      (InRange-misfit p good, All-InRange_of_none ps (sym dropped ∙ h))
]

pub All-InRange-Perm : (ps qs : List PeerData) → Perm ps qs → All InRange qs → All InRange ps
All-InRange-Perm ps qs same h =
    All-InRange_of_none ps
      (Perm.eq-nil (subst (Perm (keep misfit ps)) (keep-misfit qs h) (keep-Perm misfit same)))

pub reread-InRange : (ps : List PeerData) → All InRange ps → All InRange (map reread ps)
reread-InRange [] h = tt
reread-InRange (p ∷ ps) h =
    (record { tcp_port = h.0.tcp_port; eth_version = h.0.eth_version }, reread-InRange ps h.1)

latest_of_none :
    (id : Text) (ps : List PeerData) → keep (λ q. q.id == id) ps ≡ [] → latest id ps ≡ none
unfolding latest
latest_of_none id [] h = refl
latest_of_none id (p ∷ ps) h = elim (Bool-cases (p.id == id)) [
  | inl same ↦
      let kept : keep (λ q. q.id == id) (p ∷ ps) ≡ p ∷ keep (λ q. q.id == id) ps = rw same refl in
      absurd (cons≢nil (sym kept ∙ h))
  | inr differ ↦
      let dropped : keep (λ q. q.id == id) (p ∷ ps) ≡ keep (λ q. q.id == id) ps = rw differ refl in
      rw (latest_of_none id ps (sym dropped ∙ h), differ, latest) refl
]

latest_of_one :
    (id : Text) (ps : List PeerData) (q : PeerData)
    → keep (λ q. q.id == id) ps ≡ q ∷ []
    → latest id ps ≡ some q
unfolding latest
latest_of_one id [] q h = absurd (cons≢nil (sym h))
latest_of_one id (p ∷ ps) q h = elim (Bool-cases (p.id == id)) [
  | inl same ↦
      let kept : keep (λ q. q.id == id) (p ∷ ps) ≡ p ∷ keep (λ q. q.id == id) ps = rw same refl in
      let one = sym kept ∙ h in
      rw (latest_of_none id ps (tail-eq_of_cons-eq one), same, latest)
        (ap some (head-eq_of_cons-eq one))
  | inr differ ↦
      let dropped : keep (λ q. q.id == id) (p ∷ ps) ≡ keep (λ q. q.id == id) ps = rw differ refl in
      rw (latest_of_one id ps q (sym dropped ∙ h), latest) refl
]

-- The last record with an id in a copy of a collection in which one peer has it.
pub latest-copied :
    (id : Text) (p : PeerData) (copied ps : List PeerData)
    → Perm copied (map reread ps)
    → keep (λ q. q.id == id) ps ≡ p ∷ []
    → latest id copied ≡ some (reread p)
latest-copied id p copied ps same alone =
    let here : keep (λ q. q.id == id) (map reread ps) ≡ reread p ∷ [] =
      keep-map (λ q. q.id == id) reread ps ∙ ap (map reread) alone in
    let kept =
      subst (Perm (keep (λ q. q.id == id) copied)) here (keep-Perm (λ q. q.id == id) same) in
    latest_of_one id copied (reread p) (eq_of_perm_singleton (reread p) _ kept)
