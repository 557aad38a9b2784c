-- ===== src/Base/Inversion.antt =====
-- What a call that succeeded says of its parts.
use mathlib.Core.Path.{◌≡◌, refl}
use mathlib.Core.Logic.{◌⊎◌, inl, inr}
use Prim.Native.String.{String}
use kidecar.Base.Outcome.{Err, Outcome, and_then, or_wrapped, ok, err, panic}
use kidecar.Base.Exec.{Exec, continue, wrap_end, mask_end}

module _ {ℓ} {S A B : Type ℓ} where
  pub continue-ok :
      (x : Outcome A × S) (f : A → Exec S B) (b : B) (s' : S)
      → continue x f ≡ (ok b, s')
      → (a : A) × (s : S) × (x ≡ (ok a, s)) × (f a s ≡ (ok b, s'))
  continue-ok (ok a, s) f b s' h = (a, s, refl, h)
  continue-ok (err e, s) f b s' h = cc
  continue-ok (panic p, s) f b s' h = cc

  pub continue-err :
      (x : Outcome A × S) (f : A → Exec S B) (e : Err) (s' : S)
      → continue x f ≡ (err e, s')
      → (x ≡ (err e, s')) ⊎ ((a : A) × (s : S) × (x ≡ (ok a, s)) × (f a s ≡ (err e, s')))
  continue-err (ok a, s) f e s' h = inr (a, s, refl, h)
  continue-err (err e', s) f e s' h = inl (cc)
  continue-err (panic p, s) f e s' h = cc

module _ {ℓ} {S A : Type ℓ} where
  pub wrap_end-ok :
      (t : String) (x : Outcome A × S) (a : A) (s' : S) → wrap_end t x ≡ (ok a, s') → x ≡ (ok a, s')
  wrap_end-ok t (ok a', s) a s' h = h
  wrap_end-ok t (err e, s) a s' h = cc
  wrap_end-ok t (panic p, s) a s' h = cc

module _ {ℓ} {A B : Type ℓ} where
  pub and_then-ok :
      (x : Outcome A) (f : A → Outcome B) (b : B)
      → and_then x f ≡ ok b
      → (a : A) × (x ≡ ok a) × (f a ≡ ok b)
  and_then-ok (ok a) f b h = (a, refl, h)
  and_then-ok (err e) f b h = cc
  and_then-ok (panic p) f b h = cc

pub or_wrapped-ok {ℓ} :
    {A : Type ℓ} (t : String) (x : Outcome A) (a : A) → or_wrapped t x ≡ ok a → x ≡ ok a
or_wrapped-ok t (ok b) a h = h
or_wrapped-ok t (err e) a h = cc
or_wrapped-ok t (panic p) a h = cc

module _ {ℓ} {S A : Type ℓ} where
  pub mask_end-ok :
      (t : String) (x : Outcome A × S) (a : A) (s' : S) → mask_end t x ≡ (ok a, s') → x ≡ (ok a, s')
  mask_end-ok t (ok a', s) a s' h = h
  mask_end-ok t (err e, s) a s' h = cc
  mask_end-ok t (panic p, s) a s' h = cc
