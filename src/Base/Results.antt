-- ===== src/Base/Results.antt =====
-- The outcome of a Go function: its value, its error's message, or a run-time panic (a nil pointer
-- that is dereferenced, an index or a slice bound out of range).
use mathlib.Core.Path.{◌≡◌, refl, ap}
use mathlib.Core.Option.{Option, none, some}
use edgerouter.Base.Strings.{Str}

pub data Result {ℓ} (A : Type ℓ) : Type ℓ where
  ok : A → Result A
  err : Str → Result A
  panic : Result A

infixl 5 ◌>>=◌ ◌>>◌
abbrev pub ◌>>=◌ {ℓ κ} : {A : Type ℓ} {B : Type κ} → Result A → (A → Result B) → Result B
panic >>= rest = panic
err message >>= rest = err message
ok val >>= rest = rest val

-- What a call without a value is followed by.
abbrev pub ◌>>◌ {ℓ} : {B : Type ℓ} → Result (Unit {0}) → Result B → Result B
first >> rest = first >>= λ done. rest

-- `*p`: dereferencing a nil pointer panics.
abbrev pub deref {ℓ} : {A : Type ℓ} → Option A → Result A
deref none = panic
deref (some a) = ok a

-- `fmt.Errorf("...: %w", err)`
abbrev pub wrap {ℓ} : {A : Type ℓ} → (Str → Str) → Result A → Result A
wrap context (ok a) = ok a
wrap context (err e) = err (context e)
wrap context panic = panic

pub >>=-eq-ok {ℓ κ} :
    {A : Type ℓ} {B : Type κ} (first : Result A) (rest : A → Result B) {out : B}
    → (first >>= rest) ≡ ok out
    → (val : A) × (first ≡ ok val) × (rest val ≡ ok out)
>>=-eq-ok panic rest e = cc
>>=-eq-ok (err message) rest e = cc
>>=-eq-ok (ok val) rest e = (val, refl, e)

-- A call that may change the state `S` and may fail; what it changed before it failed stays. The
-- rest of the function runs on success.
abbrev pub and_then {ℓ κ μ} :
    {A : Type ℓ} {B : Type κ} {S : Type μ} → Result A × S → (A → S → Result B × S) → Result B × S
and_then (ok a, s) f = f a s
and_then (err e, s) f = (err e, s)
and_then (panic, s) f = (panic, s)

pub ok-injective {ℓ} : {A : Type ℓ} {a b : A} → ok a ≡ ok b → a ≡ b
ok-injective p = cc

pub wrap-eq-ok {ℓ} :
    {A : Type ℓ} (context : Str → Str) (m : Result A) {a : A} → wrap context m ≡ ok a → m ≡ ok a
wrap-eq-ok context (ok a) h = h
wrap-eq-ok context (err e) h = cc
wrap-eq-ok context panic h = cc

pub and_then-eq-ok {ℓ κ μ} :
    {A : Type ℓ} {B : Type κ} {S : Type μ} (m : Result A × S) (f : A → S → Result B × S) {b : B}
    {s'' : S}
    → and_then m f ≡ (ok b, s'')
    → (a : A) × (s' : S) × (m ≡ (ok a, s')) × (f a s' ≡ (ok b, s''))
and_then-eq-ok (ok a, s) f h = (a, s, refl, h)
and_then-eq-ok (err e, s) f h = let p = ap (λ r. r.0) h in cc
and_then-eq-ok (panic, s) f h = let p = ap (λ r. r.0) h in cc

-- If what follows always succeeds, a panic is the first call's.
pub >>=-ok-panic {ℓ κ} :
    {A : Type ℓ} {B : Type κ} (m : Result A) (f : A → B) → (m >>= λ a. ok (f a)) ≡ panic → m ≡ panic
>>=-ok-panic (ok a) f h = cc
>>=-ok-panic (err e) f h = cc
>>=-ok-panic panic f h = refl
