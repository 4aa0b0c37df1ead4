-- ===== src/Base/Result.antt =====
-- Code that returns a value and an error.
use mathlib.Core.Bool.{Bool, false, not, true}
use mathlib.Core.Logic.{inl, inr, ◌⊎◌}
use mathlib.Core.Option.{Option, none, some}
use mathlib.Core.Path.{refl, ◌≡◌}
use nudge.Base.Tests.{if◌then◌else◌}

pub data Result {ℓ} (E : Type 0) (A : Type ℓ) : Type ℓ where
  ok : A → Result E A
  err : E → Result E A

infixl 5 ◌>>=◌ ◌>>◌
-- An error ends the chain.
abbrev pub ◌>>=◌ {ℓ κ} :
    {E : Type 0} {A : Type ℓ} {B : Type κ} → Result E A → (A → Result E B) → Result E B
err e >>= next = err e
ok value >>= next = next value

abbrev pub ◌>>◌ {κ} : {E : Type 0} {B : Type κ} → Result E (Unit {0}) → Result E B → Result E B
check >> next = check >>= λ _. next

-- `if test { return err }`.
abbrev pub fail_if : {E : Type 0} → Bool → E → Result E (Unit {0})
fail_if true e = err e
fail_if false e = ok tt

abbrev pub is_ok {ℓ} : {E : Type 0} {A : Type ℓ} → Result E A → Bool
is_ok (ok a) = true
is_ok (err e) = false

-- A chain that succeeds has a first step that succeeds.
pub >>=-eq-ok {ℓ κ} :
    {E : Type 0} {A : Type ℓ} {B : Type κ} (step : Result E A) (next : A → Result E B) {out : B}
    → step >>= next ≡ ok out
    → (value : A) × (step ≡ ok value) × (next value ≡ ok out)
>>=-eq-ok (err e) next h = absurd (cc h)
>>=-eq-ok (ok value) next h = (value, refl, h)

abbrev pub map_result {ℓ κ} :
    {E : Type 0} {A : Type ℓ} {B : Type κ} → (A → B) → Result E A → Result E B
map_result f (ok a) = ok (f a)
map_result f (err e) = err e

-- A mapping passes over a step whose own result it follows.
pub map_result-bind {ℓ κ μ ν} :
    {E : Type 0} {A : Type ℓ} {A' : Type κ} {B : Type μ} {B' : Type ν} (g : B → B') (f : A → A')
    (m : Result E A) (k : A → Result E B) (k' : A' → Result E B')
    → ((a : A) → m ≡ ok a → k' (f a) ≡ map_result g (k a))
    → (map_result f m >>= k') ≡ map_result g (m >>= k)
map_result-bind g f (ok a) k k' h = h a refl
map_result-bind g f (err e) k k' h = refl

pub map_result-step {ℓ κ} :
    {E : Type 0} {B B' : Type ℓ} {C : Type κ} (g : B → B') (m : Result E C) (k : C → Result E B)
    (k' : C → Result E B')
    → ((c : C) → m ≡ ok c → k' c ≡ map_result g (k c))
    → (m >>= k') ≡ map_result g (m >>= k)
map_result-step g (ok c) k k' h = h c refl
map_result-step g (err e) k k' h = refl

pub map_result-if {ℓ κ} :
    {E : Type 0} {A : Type ℓ} {B : Type κ} (g : A → B) (t : Bool) (m n : Result E A)
    (m' n' : Result E B)
    → m' ≡ map_result g m
    → n' ≡ map_result g n
    → (if t then m' else n') ≡ map_result g (if t then m else n)
map_result-if g true m n m' n' p q = p
map_result-if g false m n m' n' p q = q

pub is_ok-value {ℓ} :
    {E : Type 0} {A : Type ℓ} (m : Result E A) → is_ok m ≡ true → (a : A) × (m ≡ ok a)
is_ok-value (ok a) h = (a, refl)
is_ok-value (err e) h = absurd (cc h)

pub is_ok-unit : {E : Type 0} (m : Result E (Unit {0})) → is_ok m ≡ true → m ≡ ok tt
is_ok-unit (ok a) h = refl
is_ok-unit (err e) h = absurd (cc h)

-- A guard that lets a result pass.
pub fail_if-eq-ok {ℓ} :
    {E : Type 0} {A : Type ℓ} (test : Bool) (e : E) {value out : A}
    → fail_if test e >> ok value ≡ ok out
    → (test ≡ false) × (value ≡ out)
fail_if-eq-ok true e h = absurd (cc h)
fail_if-eq-ok false e h = (refl, cc h)

-- A guard before more code.
pub fail_if->>-ok {ℓ} :
    {E : Type 0} {A : Type ℓ} (test : Bool) (e : E) (next : Result E A) {out : A}
    → fail_if test e >> next ≡ ok out
    → (test ≡ false) × (next ≡ ok out)
fail_if->>-ok true e next h = absurd (cc h)
fail_if->>-ok false e next h = (refl, h)

-- A guard at the end.
pub fail_if-ok : {E : Type 0} (test : Bool) (e : E) → fail_if test e ≡ ok tt → test ≡ false
fail_if-ok true e h = absurd (cc h)
fail_if-ok false e h = refl

-- A conditional that succeeds does so in the branch of its test.
pub if-eq-ok {ℓ} :
    {E : Type 0} {A : Type ℓ} (test : Bool) (m n : Result E A) {out : A}
    → (if test then m else n) ≡ ok out
    → ((test ≡ true) × (m ≡ ok out)) ⊎ ((test ≡ false) × (n ≡ ok out))
if-eq-ok true m n h = inl (refl, h)
if-eq-ok false m n h = inr (refl, h)

pub Result-cases {ℓ} :
    {E : Type 0} {A : Type ℓ} (m : Result E A) → ((a : A) × (m ≡ ok a)) ⊎ ((e : E) × (m ≡ err e))
Result-cases (ok a) = inl (a, refl)
Result-cases (err e) = inr (e, refl)

-- A chain fails in its first step or after it.
pub >>=-eq-err {ℓ κ} :
    {E : Type 0} {A : Type ℓ} {B : Type κ} (step : Result E A) (next : A → Result E B) {k : E}
    → step >>= next ≡ err k
    → (step ≡ err k) ⊎ ((value : A) × (step ≡ ok value) × (next value ≡ err k))
>>=-eq-err (err e) next h = inl (cc h)
>>=-eq-err (ok value) next h = inr (value, refl, h)

-- `p != nil && test(*p)`.
abbrev pub present_and {ℓ} : {A : Type ℓ} → (A → Bool) → Option A → Bool
present_and test none = false
present_and test (some a) = test a

-- `p.Validate() != nil`.
abbrev pub fails {ℓ} : {E : Type 0} {A : Type ℓ} → Result E A → Bool
fails r = not (is_ok r)

-- What holds of every error and of what follows a check holds of the check and what follows it.
pub >>-both {ℓ κ} :
    {E : Type 0} {A : Type ℓ} (Holds : Result E A → Type κ) (check : Result E (Unit {0}))
    {next : Result E A}
    → ((e : E) → Holds (err e))
    → Holds next
    → Holds (check >> next)
>>-both Holds (ok u) h k = k
>>-both Holds (err e) h k = h e
