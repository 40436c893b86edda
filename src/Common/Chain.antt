-- ===== src/Common/Chain.antt =====
-- Chains of results that may be missing, and what holds of such a result if it is there.
use ben_eater.Common.{◌≡◌, refl}
use mathlib.Core.Option.{Option, none, some}

infixl 5 ◌>>=◌
abbrev pub ◌>>=◌ {ℓ κ} : {A : Type ℓ} {B : Type κ} → Option A → (A → Option B) → Option B
none >>= f = none
some a >>= f = f a

-- Of a result: `E` where it is missing, and of what is there `P`.
abbrev pub OrElse {ℓ κ} : {A : Type ℓ} → Type κ → (A → Type κ) → Option A → Type κ
OrElse E P none = E
OrElse E P (some a) = P a

pub OrElse-bind {ℓ κ μ} :
    {A : Type ℓ} {B : Type κ} (E : Type μ) (P : A → Type μ) (Q : B → Type μ) (m : Option A)
    (f : A → Option B)
    → OrElse E P m
    → ((a : A) → P a → OrElse E Q (f a))
    → OrElse E Q (m >>= f)
OrElse-bind E P Q none f h k = h
OrElse-bind E P Q (some a) f h k = k a h

-- Of a result that is there, and that it is there.
abbrev pub IsSome {ℓ} : {A : Type ℓ} → (A → Type 0) → Option A → Type 0
IsSome = OrElse ⊥

-- Of a result that is there.
abbrev pub IfSome {ℓ} : {A : Type ℓ} → (A → Type 0) → Option A → Type 0
IfSome = OrElse Unit

pub IfSome-bind {ℓ κ} :
    {A : Type ℓ} {B : Type κ} (P : A → Type 0) (Q : B → Type 0) (m : Option A) (f : A → Option B)
    → IfSome P m
    → ((a : A) → P a → IfSome Q (f a))
    → IfSome Q (m >>= f)
IfSome-bind = OrElse-bind Unit

-- Of a result that rests on another, where nothing need be known of that one.
pub IfSome-then {ℓ κ} :
    {A : Type ℓ} {B : Type κ} (Q : B → Type 0) (m : Option A) (f : A → Option B)
    → ((a : A) → IfSome Q (f a))
    → IfSome Q (m >>= f)
IfSome-then Q none f k = tt
IfSome-then Q (some a) f k = k a

pub IfSome-map {ℓ} :
    {A : Type ℓ} (P Q : A → Type 0) (m : Option A) → ((a : A) → P a → Q a) → IfSome P m → IfSome Q m
IfSome-map P Q none f h = tt
IfSome-map P Q (some a) f h = f a h

-- A result that is there, with what is known of it in both ways.
pub IsSome-both {ℓ} :
    {A : Type ℓ} (P Q : A → Type 0) (m : Option A)
    → IsSome P m
    → IfSome Q m
    → (a : A) × (m ≡ some a) × P a × Q a
IsSome-both P Q none h k = absurd h
IsSome-both P Q (some a) h k = (a, refl, h, k)

pub IsSome-IfSome {ℓ} :
    {A : Type ℓ} (P Q : A → Type 0) (m : Option A)
    → IsSome P m
    → IfSome Q m
    → IfSome (λ a. P a × Q a) m
IsSome-IfSome P Q none h k = tt
IsSome-IfSome P Q (some a) h k = (h, k)
