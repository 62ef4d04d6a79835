-- ===== src/Config/Ensures.antt =====
-- Properties of what a computation over the reader's buffer gives, where it gives anything.
use sysmonitor.Base.{ℕ, List, Option, none, some}
use sysmonitor.Config.{Reads, ◌>>=◌, return}

-- The result, if there is one, has the property.
unfoldable pub Ensures {ℓ κ} : {A : Type ℓ} → (A → Type κ) → Option (A × List ℕ) → Type κ
Ensures P none = Unit
Ensures P (some (a, tmp)) = P a

module _ {ℓ κ μ ν} {A : Type ℓ} {B : Type κ} where
  pub bind-Ensures :
      (P : A → Type μ) (Q : B → Type ν) (r : Reads A) (f : A → Reads B) (tmp : List ℕ)
      → Ensures P (r tmp)
      → ((a : A) (t : List ℕ) → P a → Ensures Q (f a t))
      → Ensures Q ((r >>= f) tmp)
  unfolding Ensures ◌>>=◌
  bind-Ensures P Q r f tmp h k = go (r tmp) h
    where
      go :
          (o : Option (A × List ℕ))
          → Ensures P o
          → Ensures Q (elim o [ none ↦ none | some (a, t) ↦ f a t ])
      go none x = tt
      go (some (a, t)) x = k a t x

pub return-Ensures {ℓ κ} :
    {A : Type ℓ} (P : A → Type κ) (a : A) (tmp : List ℕ) → P a → Ensures P (return a tmp)
unfolding Ensures return
return-Ensures P a tmp h = h

module _ {ℓ} {A : Type ℓ} where
  -- Nothing is asked of a step.
  pub any-Ensures : (o : Option (A × List ℕ)) → Ensures (λ a. Unit {0}) o
  unfolding Ensures
  any-Ensures none = tt
  any-Ensures (some (a, t)) = tt
