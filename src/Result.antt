-- ===== src/Result.antt =====
-- Python's exceptions as values, for pure code and for methods of an object. A method returns
-- the object beside its result, after a raise too: what was assigned stays assigned.
use swim_protocol.Prelude.{◌≡◌, refl}

pub data Error : Type 0 where
  value_error key_error assertion_error struct_error config_error transient_config_error type_error
        os_error :
      Error

pub data Result {ℓ} (A : Type ℓ) : Type ℓ where
  ok : A → Result A
  raise : Error → Result A

infixl 5 ◌>>=◌
abbrev pub ◌>>=◌ {ℓ κ} : {A : Type ℓ} {B : Type κ} → Result A → (A → Result B) → Result B
ok a >>= f = f a
raise e >>= f = raise e

-- A call of a method, and the calls after it if it did not raise.
abbrev pub and_then {ℓ κ} :
    {S : Type ℓ} {A B : Type κ} → Result A × S → (A → S → Result B × S) → Result B × S
and_then (ok a, s) f = f a s
and_then (raise e, s) f = (raise e, s)

-- What a call gives and the calls after it keep, they give together.
pub and_then_gives {ℓ κ} :
    {S : Type ℓ} {A B : Type κ} (P : S → Type ℓ) (Q : Result B × S → Type ℓ) (x : Result A × S)
    (f : A → S → Result B × S)
    → P x.1
    → ((e : Error) (s : S) → P s → Q (raise e, s))
    → ((a : A) (s : S) → P s → Q (f a s))
    → Q (and_then x f)
and_then_gives P Q (ok a, s) f p l k = k a s p
and_then_gives P Q (raise e, s) f p l k = l e s p

-- A chain that succeeds has a first step that does.
pub bind_ok {ℓ κ} :
    {A : Type ℓ} {B : Type κ} (r : Result A) (k : A → Result B) {b : B}
    → (r >>= k) ≡ ok b
    → (a : A) × (r ≡ ok a) × (k a ≡ ok b)
bind_ok (ok a) k e = (a, refl, e)
bind_ok (raise x) k e = cc
