-- ===== src/Prelude/Partial.antt =====
-- `do` for computations that may panic: `none` is the panic.
use mathlib.Core.Path.{◌≡◌, refl}
use mathlib.Core.Option.{Option, none, some}

infixl 5 ◌>>=◌
abbrev pub ◌>>=◌ : {A B : Type 0} → Option A → (A → Option B) → Option B
none >>= f = none
some a >>= f = f a

-- A bind that returns: both parts returned.
pub >>=-eq-some :
    {A B : Type 0} (m : Option A) (f : A → Option B) {b : B}
    → (m >>= f) ≡ some b
    → (a : A) × (m ≡ some a) × (f a ≡ some b)
>>=-eq-some none f e = cc
>>=-eq-some (some a) f e = (a, refl, e)

-- A bind whose continuation panics wherever it is reached panics.
pub >>=-eq-none :
    {A B : Type 0} (m : Option A) (f : A → Option B)
    → ((a : A) → m ≡ some a → f a ≡ none)
    → (m >>= f) ≡ none
>>=-eq-none none f e = refl
>>=-eq-none (some a) f e = e a refl

-- The same, for what follows from it.
pub bind-step {ℓ} :
    {A B : Type 0} {C : Type ℓ} (m : Option A) {f : A → Option B} {b : B}
    → (m >>= f) ≡ some b
    → ((a : A) → m ≡ some a → f a ≡ some b → C)
    → C
bind-step none e k = cc
bind-step (some a) e k = k a refl e

-- A bind whose first part returns goes on with the second.
pub bind-some :
    {A B : Type 0} {m : Option A} (f : A → Option B) {a : A} {r : Option B}
    → m ≡ some a
    → f a ≡ r
    → (m >>= f) ≡ r
bind-some f e e' = rw e e'
