-- ===== src/Base/Result.antt =====
-- What a function of the program gives that may call `error`, which exits (Utils.cpp), and that may
-- run out of the model's fuel.

pub data Result {ℓ} (A : Type ℓ) : Type ℓ where
  ok : A → Result A
  exits : Result A
  no_fuel : Result A

infixl 5 ◌>>=◌
abbrev pub ◌>>=◌ {ℓ κ} : {A : Type ℓ} {B : Type κ} → Result A → (A → Result B) → Result B
ok a >>= f = f a
exits >>= f = exits
no_fuel >>= f = no_fuel
