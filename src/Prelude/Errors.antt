-- ===== src/Prelude/Errors.antt =====
-- What a Go function with an `error` result returns. `message` is errors.New or fmt.Errorf without
-- %w; `not_found` is ErrMemoryNotFound, which callers test with errors.Is; `engine` is an error of
-- the database engine, by its text.
use Prim.Native.String.{String}
use mathlib.Core.Bool.{Bool, true, false}
use mathlib.Core.Path.{◌≡◌, refl}
use mathlib.Core.Logic.{◌⊎◌, inl, inr}

pub data Error : Type 0 where
  message : String → Error
  not_found : Error
  engine : String → Error

-- (value, nil) or (_, error)
pub data Result {ℓ} (V : Type ℓ) : Type ℓ where
  err : Error → Result V
  ok : V → Result V

infixl 5 ◌>>=◌ ◌>>◌
-- if err != nil { return err }, and on with the value
abbrev pub ◌>>=◌ {ℓ κ} : {V : Type ℓ} {W : Type κ} → Result V → (V → Result W) → Result W
err failure >>= next = err failure
ok value >>= next = next value

-- the same where there is no value
abbrev pub ◌>>◌ {ℓ} : {W : Type ℓ} → Result (Unit {0}) → Result W → Result W
check >> rest = check >>= λ _. rest

-- if test { return err }
abbrev pub refuse : Bool → Error → Result (Unit {0})
refuse true e = err e
refuse false e = ok tt

-- err == nil
abbrev pub is_ok {ℓ} : {V : Type ℓ} → Result V → Bool
is_ok (err failure) = false
is_ok (ok value) = true

-- err.Error()
abbrev pub error_text : Error → String
error_text (message s) = s
error_text not_found = "memory not found"
error_text (engine s) = s

-- either way a call can end
pub Result-cases {ℓ} :
    {V : Type ℓ} (call : Result V)
    → ((v : V) × (call ≡ ok v)) ⊎ ((failure : Error) × (call ≡ err failure))
Result-cases (err failure) = inr (failure, refl)
Result-cases (ok v) = inl (v, refl)

-- Where a chain has succeeded, so have both of its parts.
pub >>=-eq-ok {ℓ κ} :
    {V : Type ℓ} {W : Type κ} (first : Result V) (next : V → Result W) {w : W}
    → (first >>= next) ≡ ok w
    → (v : V) × (first ≡ ok v) × (next v ≡ ok w)
>>=-eq-ok (err failure) next done = cc
>>=-eq-ok (ok v) next done = (v, refl, done)

-- a guard that is passed
pub refuse-ok {ℓ} :
    {A : Type ℓ} (b : Bool) (m : String) (rest : Result A) (a : A)
    → (refuse b (message m) >> rest) ≡ ok a
    → (b ≡ false) × (rest ≡ ok a)
refuse-ok true m rest a h = cc
refuse-ok false m rest a h = (refl, h)

-- A last step that cannot fail does not change whether a call succeeds.
pub is_ok->>= {ℓ κ} :
    {V : Type ℓ} {W : Type κ} (first : Result V) (g : V → W)
    → is_ok (first >>= λ v. ok (g v)) ≡ is_ok first
is_ok->>= (err failure) g = refl
is_ok->>= (ok v) g = refl

-- the same for any error
pub refuse-passed {ℓ} :
    {A : Type ℓ} (b : Bool) (failure : Error) (rest : Result A) (a : A)
    → (refuse b failure >> rest) ≡ ok a
    → (b ≡ false) × (rest ≡ ok a)
refuse-passed true failure rest a h = cc
refuse-passed false failure rest a h = (refl, h)

-- A chain of two calls that succeed.
pub >>=-ok {ℓ κ} :
    {V : Type ℓ} {W : Type κ} (first : Result V) (next : V → Result W) (v : V) (w : W)
    → first ≡ ok v
    → next v ≡ ok w
    → (first >>= next) ≡ ok w
>>=-ok (err failure) next v w done then_done = cc
>>=-ok (ok u) next v w done then_done = let same : u ≡ v = cc in rw same then_done
