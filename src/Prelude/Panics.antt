-- ===== src/Prelude/Panics.antt =====
-- Code that may panic: its steps, one after another.
use mathlib.Core.Path.{◌≡◌, refl, sym, ap}
use mathlib.Core.Logic.{inl, inr}
use mathlib.Core.List.{List, [], ◌∷◌}
use reth_crawler.Prelude.Outcomes.{Outcome, done, panic, done-ne-panic, Result, PanicsOr}

infixl 5 ◌>>=◌
abbrev pub ◌>>=◌ {ℓ κ} : {A : Type ℓ} {B : Type κ} → Outcome A → (A → Outcome B) → Outcome B
done a >>= f = f a
panic >>= f = panic

pub done_of_bind {ℓ κ} :
    {A : Type ℓ} {B : Type κ} (o : Outcome A) (f : A → Outcome B) {b : B}
    → (o >>= f) ≡ done b
    → (a : A) × (o ≡ done a) × (f a ≡ done b)
done_of_bind (done a) f h = (a, refl, h)
done_of_bind panic f h = absurd (done-ne-panic (sym h))

pub PanicsOr-bind {ℓ κ ι ν μ ξ ρ} :
    {E : Type ℓ} {F : Type κ} {A : Type ι} {B : Type μ} {C : Type ρ} (error : E → F)
    (r : Result F A) (o : Outcome B) (f : B → C) (P : B → Type ν) (Q : C → Type ξ)
    → ((b : B) → P b → Q (f b))
    → PanicsOr error r o P
    → PanicsOr error r (o >>= λ b. done (f b)) Q
PanicsOr-bind error r o f P Q g (inl (e, failed, stops)) =
    inl (e, failed, ap (λ o. o >>= λ b. done (f b)) stops)
PanicsOr-bind error r o f P Q g (inr (b, got, h)) =
    inr (f b, ap (λ o. o >>= λ b. done (f b)) got, g b h)

-- `xs.into_iter().map(f).collect()`, where `f` may panic
unfoldable pub collect_all {ℓ κ} :
    {A : Type ℓ} {B : Type κ} → (A → Outcome B) → List A → Outcome (List B)
collect_all f [] = done []
collect_all f (x ∷ xs) = do y ← f x; ys ← collect_all f xs; done (y ∷ ys)
