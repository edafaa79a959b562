-- ===== src/Base/Faults.antt =====
-- How a call ends: with a value; in `smoke` or a failed assertion, which abort the simulator
-- (sys161/main/console.c); by an access outside an object, which C leaves undefined; or not at all
-- within the fuel that the model was given.

use mathlib.Core.Path.{◌≡◌, refl, ap, sym, ◌∙◌, subst}
use mathlib.Core.Bool.{Bool, true, false}
use sys.Base.Tests.{if◌then◌else◌}

pub data Outcome {ℓ} (A : Type ℓ) : Type ℓ where
  ok : A → Outcome A
  smoke : Outcome A
  undefined : Outcome A
  out_of_fuel : Outcome A

infixl 5 ◌>>=◌
abbrev pub ◌>>=◌ {ℓ κ} : {A : Type ℓ} {B : Type κ} → Outcome A → (A → Outcome B) → Outcome B
ok a >>= f = f a
smoke >>= f = smoke
undefined >>= f = undefined
out_of_fuel >>= f = out_of_fuel

-- What a call that returns has computed satisfies `P`; it does return.
abbrev pub Returns {ℓ} : {A : Type ℓ} → Outcome A → (A → Type 0) → Type 0
Returns (ok a) P = P a
Returns smoke P = ⊥
Returns undefined P = ⊥
Returns out_of_fuel P = ⊥

pub Returns->>= :
    {A B : Type 0} (m : Outcome A) (k : A → Outcome B) (P : A → Type 0) (Q : B → Type 0)
    → Returns m P
    → ((a : A) → P a → Returns (k a) Q)
    → Returns (m >>= k) Q
Returns->>= (ok a) k P Q h f = f a h
Returns->>= smoke k P Q h f = h
Returns->>= undefined k P Q h f = h
Returns->>= out_of_fuel k P Q h f = h

pub Returns-mono :
    {A : Type 0} (m : Outcome A) (P Q : A → Type 0)
    → Returns m P
    → ((a : A) → P a → Q a)
    → Returns m Q
Returns-mono (ok a) P Q h f = f a h
Returns-mono smoke P Q h f = h
Returns-mono undefined P Q h f = h
Returns-mono out_of_fuel P Q h f = h

-- What holds of the value that a call returns.
pub Returns-at {ℓ} :
    {A : Type ℓ} (m : Outcome A) (P : A → Type 0) (a : A) → Returns m P → m ≡ ok a → P a
Returns-at (ok b) P a h e = let e' : b ≡ a = cc in subst P e' h
Returns-at smoke P a h e = absurd h
Returns-at undefined P a h e = absurd h
Returns-at out_of_fuel P a h e = absurd h

-- A call that is made where the test fails, and another where it holds.
pub Returns-if :
    {A : Type 0} (b : Bool) (m n : Outcome A) (P : A → Type 0)
    → (b ≡ true → Returns m P)
    → (b ≡ false → Returns n P)
    → Returns (if b then m else n) P
Returns-if true m n P f g = f refl
Returns-if false m n P f g = g refl

-- What the calls before have left alone is as it was where a call returns.
pub ok_frame :
    {A B D : Type 0} (m : Outcome A) (f : A → B) (g : B → D) (b : B) (d : D)
    → ((a : A) → g (f a) ≡ d)
    → (m >>= λ a. ok (f a)) ≡ ok b
    → g b ≡ d
ok_frame (ok a) f g b d same h = let e : f a ≡ b = cc in ap g (sym e) ∙ same a
ok_frame smoke f g b d same h = cc
ok_frame undefined f g b d same h = cc
ok_frame out_of_fuel f g b d same h = cc

-- What a call has computed satisfies `P` if it returns; the other ends are left open.
abbrev pub Ensures {ℓ} : {A : Type ℓ} → Outcome A → (A → Type 0) → Type 0
Ensures (ok a) P = P a
Ensures smoke P = Unit
Ensures undefined P = Unit
Ensures out_of_fuel P = Unit

pub Ensures->>= :
    {A B : Type 0} (m : Outcome A) (k : A → Outcome B) (P : A → Type 0) (Q : B → Type 0)
    → Ensures m P
    → ((a : A) → P a → Ensures (k a) Q)
    → Ensures (m >>= k) Q
Ensures->>= (ok a) k P Q h f = f a h
Ensures->>= smoke k P Q h f = tt
Ensures->>= undefined k P Q h f = tt
Ensures->>= out_of_fuel k P Q h f = tt

pub Ensures-any :
    {A B : Type 0} (m : Outcome A) (k : A → Outcome B) (Q : B → Type 0)
    → ((a : A) → Ensures (k a) Q)
    → Ensures (m >>= k) Q
Ensures-any (ok a) k Q f = f a
Ensures-any smoke k Q f = tt
Ensures-any undefined k Q f = tt
Ensures-any out_of_fuel k Q f = tt

pub Ensures-if :
    {A : Type 0} (b : Bool) (m n : Outcome A) (P : A → Type 0)
    → Ensures m P
    → Ensures n P
    → Ensures (if b then m else n) P
Ensures-if true m n P f g = f
Ensures-if false m n P f g = g

-- A property of both branches is one of the conditional.
pub either {ℓ} :
    {A : Type ℓ} (P : A → Type 0) (b : Bool) {x y : A} → P x → P y → P (if b then x else y)
either P true p q = p
either P false p q = q
