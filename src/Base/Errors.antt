-- ===== src/Base/Errors.antt =====
-- What a Python function that may raise leaves: an exception of type `X`, or its value.
use mathlib.Core.Path.{◌≡◌, refl}
use mathlib.Core.Logic.{◌⊎◌, inl, inr}
use mathlib.Core.Bool.{Bool, true, false}
use cathedral_compute.Base.Tests.{if◌then◌else◌}

pub data Result {κ ℓ} (X : Type κ) (V : Type ℓ) : Type (κ ⊔ ℓ) where
  err : X → Result X V
  ok : V → Result X V

-- The statement `if failing: raise x`.
abbrev pub raise_if {κ} : {X : Type κ} → Bool → X → Result X (Unit {0})
raise_if failing x = elim failing [ true ↦ err x | false ↦ ok tt ]

infixl 5 ◌>>=◌ ◌>>◌
abbrev pub ◌>>=◌ {κ ℓ μ} :
    {X : Type κ} {V : Type ℓ} {W : Type μ} → Result X V → (V → Result X W) → Result X W
err x >>= next = err x
ok value >>= next = next value

abbrev pub ◌>>◌ {κ μ} : {X : Type κ} {W : Type μ} → Result X (Unit {0}) → Result X W → Result X W
first >> second = first >>= λ done. second

-- A sequence that returns went through a value of its first part.
pub >>=-eq-ok {κ ℓ μ} :
    {X : Type κ} {V : Type ℓ} {W : Type μ} (first : Result X V) (next : V → Result X W) {w : W}
    → (first >>= next) ≡ ok w
    → (v : V) × (first ≡ ok v) × (next v ≡ ok w)
>>=-eq-ok (err x) next returned = cc
>>=-eq-ok (ok v) next returned = (v, refl, returned)

-- A sequence that returns did not raise at its first statement.
pub raise_if->> {κ μ} :
    {X : Type κ} {W : Type μ} (failing : Bool) (x : X) (next : Result X W) {w : W}
    → (raise_if failing x >> next) ≡ ok w
    → (failing ≡ false) × (next ≡ ok w)
raise_if->> true x next returned = cc
raise_if->> false x next returned = (refl, returned)

pub ok-injective {κ ℓ} :
    {X : Type κ} {V : Type ℓ} {v w : V} → ◌≡◌ {A = Result X V} (ok v) (ok w) → v ≡ w
ok-injective h = cc

-- A conditional that returns does so by one of its branches.
pub if-eq-ok {κ ℓ} :
    {X : Type κ} {V : Type ℓ} (b : Bool) (x y : Result X V) {w : V}
    → (if b then x else y) ≡ ok w
    → ((b ≡ true) × (x ≡ ok w)) ⊎ ((b ≡ false) × (y ≡ ok w))
if-eq-ok true x y h = inl (refl, h)
if-eq-ok false x y h = inr (refl, h)

-- A sequence goes on when its first part returns.
pub ok->>= {κ ℓ μ} :
    {X : Type κ} {V : Type ℓ} {W : Type μ} (first : Result X V) (next : V → Result X W) {v : V}
    → first ≡ ok v
    → (first >>= next) ≡ next v
ok->>= first next returned = rw returned

pub pass->> {κ μ} :
    {X : Type κ} {W : Type μ} (failing : Bool) (x : X) (next : Result X W)
    → failing ≡ false
    → (raise_if failing x >> next) ≡ next
pass->> failing x next passes = rw passes

pub raise_if-ok {κ} :
    {X : Type κ} (failing : Bool) (x : X) {u : Unit {0}}
    → raise_if failing x ≡ ok u
    → failing ≡ false
raise_if-ok true x returned = cc
raise_if-ok false x returned = refl
