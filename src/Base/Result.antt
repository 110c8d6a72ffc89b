-- ===== src/Base/Result.antt =====
-- error.rs: the errors that the modelled code returns (their texts are left out), and Rust's
-- outcomes: a returned value, a returned error, or a panic.
use Prim.Native.Nat.{ℕ}
use mathlib.Core.Path.{refl}
use mathlib.Core.Logic.{◌≢◌}
use mathlib.Core.Bool.{Bool, true, false}

pub data Error : Type 0 where
  corrupted_record : ℕ → ℕ → Error
  storage wal protocol io : Error

-- `panic` is an index out of range or a read past the end of a buffer.
pub data Result {ℓ} (A : Type ℓ) : Type ℓ where
  ok : A → Result A
  err : Error → Result A
  panic : Result A

infixl 5 ◌>>◌ ◌>>=◌
abbrev pub ◌>>=◌ {ℓ κ} : {A : Type ℓ} {B : Type κ} (m : Result A) (next : A → Result B) → Result B
panic >>= next = panic
err fault >>= next = err fault
ok value >>= next = next value

abbrev pub ◌>>◌ {κ} : {B : Type κ} (check : Result (Unit {0})) (next : Result B) → Result B
check >> next = check >>= (λ _. next)

-- `if !test { return Err(fault) }`
abbrev pub guard : (test : Bool) (fault : Error) → Result (Unit {0})
guard false fault = err fault
guard true fault = ok tt

pub bind-ne-panic {ℓ κ} :
    {A : Type ℓ} {B : Type κ} (m : Result A) (f : A → Result B)
    → m ≢ panic
    → ((a : A) → f a ≢ panic)
    → (m >>= f) ≢ panic
bind-ne-panic (ok a) f hm hf = hf a
bind-ne-panic (err e) f hm hf = λ p. cc
bind-ne-panic panic f hm hf = λ p. hm refl
