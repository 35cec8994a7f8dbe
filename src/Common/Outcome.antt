-- ===== src/Common/Outcome.antt =====
-- What a C function does beside returning: it may run into undefined behaviour, block on a mutex
-- that its own thread holds, or, where a loop is modelled with fuel, still be running.

use libiphone_debian.Common.{false, true, if◌then◌else◌, Bool}
use mathlib.Core.Path.{◌≡◌, refl, subst}

pub data Fault : Type 0 where
  -- A write past the end of an allocated or a caller's buffer.
  buffer_overflow : Fault
  -- A read past the end of a buffer.
  over_read : Fault
  -- A read through a NULL pointer.
  null_deref : Fault
  -- A read of a string or another block that was freed.
  use_after_free : Fault
  -- A lock of a mutex that is held.
  deadlock : Fault

pub data Outcome {ℓ} (A : Type ℓ) : Type ℓ where
  done : A → Outcome A
  fault : Fault → Outcome A
  running : Outcome A

infixl 5 ◌>>=◌
abbrev pub ◌>>=◌ {ℓ κ} : {A : Type ℓ} {B : Type κ} → Outcome A → (A → Outcome B) → Outcome B
done a >>= f = f a
fault x >>= f = fault x
running >>= f = running

-- The value satisfies `P` if the function returns.
abbrev pub IfDone {ℓ κ} : {A : Type ℓ} → (A → Type κ) → Outcome A → Type κ
IfDone P (done a) = P a
IfDone P (fault x) = Unit
IfDone P running = Unit

-- The function returns, with a value that satisfies `P`.
abbrev pub Returns {ℓ} : {A : Type ℓ} → (A → Type 0) → Outcome A → Type 0
Returns P (done a) = P a
Returns P (fault x) = ⊥
Returns P running = ⊥

pub Returns-bind {ℓ κ} :
    {A : Type ℓ} {B : Type κ} (P : A → Type 0) (Q : B → Type 0) (m : Outcome A) (f : A → Outcome B)
    → Returns P m
    → ((a : A) → P a → Returns Q (f a))
    → Returns Q (m >>= f)
Returns-bind P Q (done a) f h k = k a h
Returns-bind P Q (fault x) f h k = h
Returns-bind P Q running f h k = h

pub Returns-mono {ℓ} :
    {A : Type ℓ} (P Q : A → Type 0) (m : Outcome A)
    → Returns P m
    → ((a : A) → P a → Q a)
    → Returns Q m
Returns-mono P Q (done a) h k = k a h
Returns-mono P Q (fault x) h k = h
Returns-mono P Q running h k = h

pub IfDone-bind {ℓ κ μ} :
    {A : Type ℓ} {B : Type κ} (P : A → Type μ) (Q : B → Type μ) (m : Outcome A) (f : A → Outcome B)
    → IfDone P m
    → ((a : A) → P a → IfDone Q (f a))
    → IfDone Q (m >>= f)
IfDone-bind P Q (done a) f h k = k a h
IfDone-bind P Q (fault x) f h k = tt
IfDone-bind P Q running f h k = tt

-- What is made of a value that is returned.
pub IfDone-map {ℓ κ μ} :
    {A : Type ℓ} {B : Type κ} (P : B → Type μ) (f : A → B) (m : Outcome A)
    → ((a : A) → P (f a))
    → IfDone P (m >>= λ a. done (f a))
IfDone-map P f (done a) h = h a
IfDone-map P f (fault x) h = tt
IfDone-map P f running h = tt

pub IfDone-done {ℓ κ} :
    {A : Type ℓ} (P : A → Type κ) (m : Outcome A) (a : A) → m ≡ done a → IfDone P m → P a
IfDone-done P m a e h = subst (IfDone P) e h

pub done_injective {ℓ} : {A : Type ℓ} (a b : A) → done a ≡ done b → a ≡ b
done_injective a b h = IfDone-done (λ x. a ≡ x) (done a) b h refl

-- A sequence that returns: its first part returned, and the second part returned from there.
pub bind_done {ℓ κ} :
    {A : Type ℓ} {B : Type κ} (m : Outcome A) (f : A → Outcome B) (b : B)
    → m >>= f ≡ done b
    → (a : A) × (m ≡ done a) × (f a ≡ done b)
bind_done (done a) f b h = (a, refl, h)
bind_done (fault x) f b h = absurd (cc)
bind_done running f b h = absurd (cc)

pub IfDone-all {ℓ κ} :
    {A : Type ℓ} (P : A → Type κ) → ((a : A) → P a) → (m : Outcome A) → IfDone P m
IfDone-all P h (done a) = h a
IfDone-all P h (fault x) = tt
IfDone-all P h running = tt

-- A value that is returned.
pub Returns-done {ℓ} :
    {A : Type ℓ} (P : A → Type 0) (m : Outcome A) → Returns P m → (a : A) × (m ≡ done a) × P a
Returns-done P (done a) h = (a, refl, h)
Returns-done P (fault x) h = absurd h
Returns-done P running h = absurd h

-- The function does not block, and what it returns, if it returns, satisfies `P`.
abbrev pub Unblocked {ℓ} : {A : Type ℓ} → (A → Type 0) → Outcome A → Type 0
Unblocked P (done a) = P a
Unblocked P (fault buffer_overflow) = Unit
Unblocked P (fault over_read) = Unit
Unblocked P (fault null_deref) = Unit
Unblocked P (fault use_after_free) = Unit
Unblocked P (fault deadlock) = ⊥
Unblocked P running = Unit

pub Unblocked-bind {ℓ κ} :
    {A : Type ℓ} {B : Type κ} (P : A → Type 0) (Q : B → Type 0) (m : Outcome A) (f : A → Outcome B)
    → Unblocked P m
    → ((a : A) → P a → Unblocked Q (f a))
    → Unblocked Q (m >>= f)
Unblocked-bind P Q (done a) f h k = k a h
Unblocked-bind P Q (fault buffer_overflow) f h k = tt
Unblocked-bind P Q (fault over_read) f h k = tt
Unblocked-bind P Q (fault null_deref) f h k = tt
Unblocked-bind P Q (fault use_after_free) f h k = tt
Unblocked-bind P Q (fault deadlock) f h k = h
Unblocked-bind P Q running f h k = tt

pub Unblocked-Returns {ℓ} :
    {A : Type ℓ} (P Q : A → Type 0) (m : Outcome A)
    → Returns P m
    → ((a : A) → P a → Q a)
    → Unblocked Q m
Unblocked-Returns P Q (done a) h k = k a h
Unblocked-Returns P Q (fault x) h k = absurd h
Unblocked-Returns P Q running h k = tt

pub Unblocked-if {ℓ} :
    {A : Type ℓ} (P : A → Type 0) (b : Bool) (m n : Outcome A)
    → Unblocked P m
    → Unblocked P n
    → Unblocked P (if b then m else n)
Unblocked-if P true m n h k = h
Unblocked-if P false m n h k = k
