-- ===== src/Base/Outcome.antt =====
-- Results of fallible code, and the inversion of a chain of steps.
use mathlib.Core.Path.{◌≡◌, refl, ap, subst, ◌∙◌}
use mathlib.Core.Bool.{Bool, true, false}
use mathlib.Core.Logic.{◌⊎◌, ◌↔◌, inl, inr}
use mathlib.Core.Option.{Option, none, some}
use native.Mathlib.Omega.{arith}

pub data Result {ℓ κ} (E : Type κ) (A : Type ℓ) : Type (ℓ ⊔ κ) where
  ok : A → Result E A
  err : E → Result E A

module _ {ℓ κ ν} {E : Type ν} {A : Type ℓ} {B : Type κ} where
  infixl 5 ◌>>=◌
  abbrev pub ◌>>=◌ : Result E A → (A → Result E B) → Result E B
  ◌>>=◌ (err e) next = err e
  ◌>>=◌ (ok a) next = next a

  -- A chain that succeeds has a first step that does.
  pub bind-eq-ok :
      {b : B} (first : Result E A) (next : A → Result E B)
      → (first >>= next) ≡ ok b
      → (a : A) × (first ≡ ok a) × (next a ≡ ok b)
  bind-eq-ok (err e) next h = cc
  bind-eq-ok (ok a) next h = (a, refl, h)

  -- Chains that go on alike from what the first step gives are the same.
  pub bind_ext :
      (first : Result E A) (next other : A → Result E B)
      → ((a : A) → first ≡ ok a → next a ≡ other a)
      → (first >>= next) ≡ (first >>= other)
  bind_ext (err e) next other h = refl
  bind_ext (ok a) next other h = h a refl

  pub bind_both :
      {first second : Result E A} (next other : A → Result E B)
      → first ≡ second
      → ((a : A) → first ≡ ok a → next a ≡ other a)
      → (first >>= next) ≡ (second >>= other)
  bind_both {first} next other e h = bind_ext first next other h ∙ ap (λ m. m >>= other) e

infixl 5 ◌>>◌
abbrev pub ◌>>◌ {κ ν} : {E : Type ν} {B : Type κ} → Result E (Unit {0}) → Result E B → Result E B
first >> next = first >>= λ _. next

-- An early return with the error unless the test passes.
abbrev pub guard {ν} : {E : Type ν} → Bool → E → Result E (Unit {0})
guard true e = ok tt
guard false e = err e

abbrev pub or_err {ℓ ν} : {E : Type ν} {A : Type ℓ} → Option A → E → Result E A
or_err none e = err e
or_err (some a) e = ok a

-- The same for the two steps that a check or an optional value makes.
pub guard_then {ℓ ν} :
    {E : Type ν} {A : Type ℓ} (b : Bool) (e : E) (m : Result E A) {a : A}
    → (guard b e >>= λ _. m) ≡ ok a
    → (b ≡ true) × (m ≡ ok a)
guard_then true e m h = (refl, h)
guard_then false e m h = cc

pub or_err_then {ℓ κ ν} :
    {E : Type ν} {A : Type ℓ} {B : Type κ} (o : Option A) (e : E) (f : A → Result E B) {b : B}
    → (or_err o e >>= f) ≡ ok b
    → (a : A) × (o ≡ some a) × (f a ≡ ok b)
or_err_then none e f h = cc
or_err_then (some a) e f h = (a, refl, h)

pub Result-cases {ℓ ν} :
    {E : Type ν} {A : Type ℓ} (r : Result E A) → ((e : E) × (r ≡ err e)) ⊎ ((a : A) × (r ≡ ok a))
Result-cases (ok a) = inr (a, refl)
Result-cases (err e) = inl (e, refl)

-- A value, or this one error.
abbrev pub OkOr {ℓ ν} : {E : Type ν} {A : Type ℓ} → E → Result E A → Type (ℓ ⊔ ν)
OkOr {A} e r = ((a : A) × (r ≡ ok a)) ⊎ (r ≡ err e)

pub OkOr-or_err {ℓ ν} : {E : Type ν} {A : Type ℓ} (o : Option A) (e : E) → OkOr e (or_err o e)
OkOr-or_err none e = inr refl
OkOr-or_err (some a) e = inl (a, refl)

pub OkOr-or_err_then {ℓ κ ν} :
    {E : Type ν} {A : Type ℓ} {B : Type κ} (o : Option A) (e : E) (f : A → Result E B)
    → ((a : A) → OkOr e (f a))
    → OkOr e (or_err o e >>= f)
OkOr-or_err_then none e f h = inr refl
OkOr-or_err_then (some a) e f h = h a

pub OkOr-guard_then {ℓ ν} :
    {E : Type ν} {A : Type ℓ} (b : Bool) (e : E) (m : Result E A)
    → OkOr e m
    → OkOr e (guard b e >>= λ _. m)
OkOr-guard_then true e m h = h
OkOr-guard_then false e m h = inr refl

pub or_err-eq-ok {ℓ ν} :
    {E : Type ν} {A : Type ℓ} (o : Option A) (e : E) {a : A} → or_err o e ≡ ok a → o ≡ some a
or_err-eq-ok none e h = cc
or_err-eq-ok (some x) e h = ground arith

-- Equal results of two components.
pub ok-injective {ℓ κ ν} :
    {E : Type ν} {A : Type ℓ} {B : Type κ} {a c : A} {b d : B}
    → ◌≡◌ {A = Result E (A × B)} (ok (a, b)) (ok (c, d))
    → (a ≡ c) × (b ≡ d)
ok-injective {A = A} {B = B} {a} {c} {b} {d} h =
    let e : ◌≡◌ {A = A × B} (a, b) (c, d) = cc in (ap (λ p. p.0) e, ap (λ p. p.1) e)

-- The same result with this error in place of the one that it has.
abbrev pub with_error {ℓ κ ν} : {E : Type κ} {F : Type ν} {A : Type ℓ} → F → Result E A → Result F A
with_error f (ok a) = ok a
with_error f (err e) = err f

pub with_error-eq-ok {ℓ κ ν} :
    {E : Type κ} {F : Type ν} {A : Type ℓ} (f : F) (r : Result E A) {a : A}
    → with_error f r ≡ ok a
    → r ≡ ok a
with_error-eq-ok f (err e) h = cc
with_error-eq-ok f (ok b) h = ground arith

-- The same result with its error turned into another.
abbrev pub map_error {ℓ κ ν} :
    {E : Type κ} {F : Type ν} {A : Type ℓ} → (E → F) → Result E A → Result F A
map_error f (ok a) = ok a
map_error f (err e) = err (f e)

pub map_error-eq-ok {ℓ κ ν} :
    {E : Type κ} {F : Type ν} {A : Type ℓ} (f : E → F) (r : Result E A) {a : A}
    → map_error f r ≡ ok a
    → r ≡ ok a
map_error-eq-ok f (err e) h = cc
map_error-eq-ok f (ok b) h = ground arith

pub guard_iff {ν} : {E : Type ν} (b : Bool) (e : E) → (guard b e ≡ ok tt) ↔ (b ≡ true)
guard_iff true e = ((λ h. refl), λ h. refl)
guard_iff false e = ((λ h. cc), λ h. cc)

-- A success, or an error with the property.
pub data Fails {E A : Type 0} (P : E → Type 0) : Result E A → Type 0 where
  fine : {a : A} → Fails P (ok a)
  failing : {e : E} → P e → Fails P (err e)

module _ {E A : Type 0} {P : E → Type 0} where
  pub Fails-eq-err : {r : Result E A} {e : E} → r ≡ err e → Fails P r → P e
  Fails-eq-err h fine = cc
  Fails-eq-err h (failing {e} p) = let same : ◌≡◌ {A = E} e _ = cc in subst P same p

  pub Fails-bind :
      {B : Type 0} {first : Result E B} (next : B → Result E A)
      → Fails P first
      → ((b : B) → Fails P (next b))
      → Fails P (first >>= next)
  Fails-bind next (fine {a}) h = h a
  Fails-bind next (failing p) h = failing p

pub Fails-guard : {E : Type 0} {P : E → Type 0} (b : Bool) (e : E) → P e → Fails P (guard b e)
Fails-guard true e p = fine
Fails-guard false e p = failing p

pub Fails-with_error :
    {E F A : Type 0} {P : F → Type 0} (f : F) (r : Result E A) → P f → Fails P (with_error f r)
Fails-with_error f (ok a) p = fine
Fails-with_error f (err e) p = failing p
