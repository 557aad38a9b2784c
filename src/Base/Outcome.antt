-- ===== src/Base/Outcome.antt =====
-- How a Go call ends: with its result, with an error value, or with neither: a run-time panic, or a
-- wait for a lock that is not released, behind which nothing of the caller is run either.
use mathlib.Core.Path.{◌≡◌, refl}
use mathlib.Core.Logic.{◌⊎◌, inl, inr}
use Prim.Native.String.{String, ◌++◌ as str_append}

pub data Err : Type 0 where
  -- errors.New, and fmt.Errorf with no cause
  msg : String → Err
  -- fmt.Errorf("...: %v", err), and `%w`
  wrap : String → Err → Err

pub data Fault : Type 0 where
  nil_map nil_pointer out_of_range bad_type : Fault
  -- panic("...")
  explicit : String → Fault
  -- no panic: the call waits for a lock and does not come back
  blocked : Fault

pub data Outcome {ℓ} (A : Type ℓ) : Type ℓ where
  ok : A → Outcome A
  err : Err → Outcome A
  panic : Fault → Outcome A

-- err.Error()
abbrev pub error_text : Err → String
error_text (msg t) = t
error_text (wrap t e) = str_append t (str_append ": " (error_text e))

-- The steps of a pure computation.
abbrev pub and_then {ℓ κ} : {A : Type ℓ} {B : Type κ} → Outcome A → (A → Outcome B) → Outcome B
and_then (ok a) f = f a
and_then (err e) f = err e
and_then (panic p) f = panic p

abbrev pub or_wrapped {ℓ} : {A : Type ℓ} → String → Outcome A → Outcome A
or_wrapped t (ok a) = ok a
or_wrapped t (err e) = err (wrap t e)
or_wrapped t (panic p) = panic p

pub Outcome-cases {ℓ} :
    {A : Type ℓ} (o : Outcome A)
    → ((a : A) × (o ≡ ok a)) ⊎ (((e : Err) × (o ≡ err e)) ⊎ ((f : Fault) × (o ≡ panic f)))
Outcome-cases (ok a) = inl (a, refl)
Outcome-cases (err e) = inr (inl (e, refl))
Outcome-cases (panic p) = inr (inr (p, refl))
