-- ===== src/Prelude/Word.antt =====
-- Machine words: `size_t` arithmetic wraps at 2 ^ 64. The `Option` monad stands for code that can
-- fault; `none` is undefined behaviour or a failed assertion.
use Prim.Native.Nat.{ℕ, ◌+◌, ◌-◌, ◌*◌, ◌%◌, ◌^◌}
use mathlib.Core.Bool.{Bool, true, false}
use mathlib.Core.Option.{Option, none, some}

abbrev pub size_max : ℕ
size_max = 2 ^ 64

abbrev pub add_size : ℕ → ℕ → ℕ
add_size a b = (a + b) % size_max

abbrev pub sub_size : ℕ → ℕ → ℕ
sub_size a b = (a + size_max - b) % size_max

abbrev pub mul_size : ℕ → ℕ → ℕ
mul_size a b = (a * b) % size_max

infixl 5 ◌>>=◌ ◌>>◌
abbrev pub ◌>>=◌ {ℓ κ} : {A : Type ℓ} {B : Type κ} → Option A → (A → Option B) → Option B
none >>= f = none
some a >>= f = f a

abbrev pub ◌>>◌ {ℓ} : {B : Type ℓ} → Option (Unit {0}) → Option B → Option B
m >> k = m >>= λ _. k

-- `assert (b)`
abbrev pub assert : Bool → Option (Unit {0})
assert true = some tt
assert false = none
