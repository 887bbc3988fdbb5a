-- ===== src/Engine/Error.antt =====
-- crates/gamestore-engine/src/error.rs, and the outcome of an engine operation.
use game_store.Prelude.{◌≡◌, refl, ◌⊎◌, inl, inr}
use game_store.Bytes.{Bytes}

pub data EngineError : Type 0 where
  backend : Bytes → EngineError
  corruption : Bytes → EngineError
  wrong_type : EngineError

pub data Result {ℓ} (A : Type ℓ) : Type ℓ where
  ok : A → Result A
  err : EngineError → Result A

infixl 5 ◌>>=◌
abbrev pub ◌>>=◌ {ℓ κ} : {A : Type ℓ} {B : Type κ} → Result A → (A → Result B) → Result B
ok a >>= f = f a
err e >>= f = err e

pub Result-cases {ℓ} :
    {A : Type ℓ} (r : Result A) → ((a : A) × (r ≡ ok a)) ⊎ ((e : EngineError) × (r ≡ err e))
Result-cases (ok a) = inl (a, refl)
Result-cases (err e) = inr (e, refl)
