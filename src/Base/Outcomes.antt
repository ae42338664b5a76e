-- ===== src/Base/Outcomes.antt =====
-- What a run of kernel code ends in. The kernel is built with its assertions.
use mathlib.Core.Path.{◌≡◌, ap, ◌∙◌}
use mathlib.Core.Bool.{Bool, true, false}

-- `panic` is a failed assertion or a call of `panic`; `wild` an access to memory that the model
-- knows nothing of; `hang` waits for a lock that nobody will release; `no_fuel` says that a bounded
-- loop of the model ran out of rounds.
pub data Outcome {ℓ} (A : Type ℓ) : Type ℓ where
  panic wild hang no_fuel : Outcome A
  ok : A → Outcome A

module _ {ℓ κ} {A : Type ℓ} {B : Type κ} where
  infixl 5 ◌>>=◌
  abbrev pub ◌>>=◌ : Outcome A → (A → Outcome B) → Outcome B
  panic >>= next = panic
  wild >>= next = wild
  hang >>= next = hang
  no_fuel >>= next = no_fuel
  ok x >>= next = next x

  -- A run goes on with the result of its first part.
  pub >>=-ok : {m : Outcome A} {x : A} (next : A → Outcome B) → m ≡ ok x → (m >>= next) ≡ next x
  >>=-ok next e = ap (λ o. o >>= next) e

  pub >>=-run :
      {m : Outcome A} {x : A} (next : A → Outcome B) {r : Outcome B}
      → m ≡ ok x
      → next x ≡ r
      → (m >>= next) ≡ r
  >>=-run next e f = ap (λ o. o >>= next) e ∙ f

  -- A run that panics does not go on.
  pub >>=-panic : {m : Outcome A} (next : A → Outcome B) → m ≡ panic → (m >>= next) ≡ panic
  >>=-panic next e = ap (λ o. o >>= next) e

infixl 5 ◌>>◌
abbrev pub ◌>>◌ {κ} : {B : Type κ} → Outcome (Unit {0}) → Outcome B → Outcome B
first >> second = first >>= λ _. second

-- `assert(b)`
abbrev pub assert : Bool → Outcome (Unit {0})
assert true = ok tt
assert false = panic
