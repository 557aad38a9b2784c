-- ===== src/Base/Exec.antt =====
-- Calls that read and change a state, and may fail. What was written before a failure stays
-- written, so the state comes back beside an error and a panic too.
use mathlib.Core.Logic.{◌⊎◌, inl, inr}
use Prim.Native.String.{String}
use kidecar.Base.Outcome.{Err, msg, wrap, Fault, Outcome, ok, err, panic}

abbrev pub Exec {ℓ} : Type ℓ → Type ℓ → Type ℓ
Exec S A = S → Outcome A × S

module _ {ℓ} {S A : Type ℓ} where
  abbrev pub pure : A → Exec S A
  pure a s = (ok a, s)

  abbrev pub fail : Err → Exec S A
  fail e s = (err e, s)

  abbrev pub crash : Fault → Exec S A
  crash p s = (panic p, s)

  abbrev pub lift : Outcome A → Exec S A
  lift r s = (r, s)

  abbrev pub gets : (S → A) → Exec S A
  gets f s = (ok (f s), s)

  abbrev pub wrap_end : String → Outcome A × S → Outcome A × S
  wrap_end t (ok a, s) = (ok a, s)
  wrap_end t (err e, s) = (err (wrap t e), s)
  wrap_end t (panic p, s) = (panic p, s)

  -- if err != nil { return fmt.Errorf("t: %v", err) }
  abbrev pub wrapping : String → Exec S A → Exec S A
  wrapping t m s = wrap_end t (m s)

  abbrev pub mask_end : String → Outcome A × S → Outcome A × S
  mask_end t (ok a, s) = (ok a, s)
  mask_end t (err e, s) = (err (msg t), s)
  mask_end t (panic p, s) = (panic p, s)

  -- if err != nil { return fmt.Errorf("t") }
  abbrev pub masking : String → Exec S A → Exec S A
  masking t m s = mask_end t (m s)

  abbrev pub caught_end : Outcome A × S → Outcome (Err ⊎ A) × S
  caught_end (ok a, s) = (ok (inr a), s)
  caught_end (err e, s) = (ok (inl e), s)
  caught_end (panic p, s) = (panic p, s)

  -- x, err := m, where the code goes on with both
  abbrev pub attempt : Exec S A → Exec S (Err ⊎ A)
  attempt m s = caught_end (m s)

abbrev pub modify {ℓ} : {S : Type ℓ} → (S → S) → Exec S Unit
modify f s = (ok tt, f s)

module _ {ℓ} {S A B : Type ℓ} where
  abbrev pub continue : Outcome A × S → (A → Exec S B) → Outcome B × S
  continue (ok a, s) f = f a s
  continue (err e, s) f = (err e, s)
  continue (panic p, s) f = (panic p, s)

  infixl 10 ◌>>=◌ ◌>>◌
  abbrev pub ◌>>=◌ : Exec S A → (A → Exec S B) → Exec S B
  ◌>>=◌ m f s = continue (m s) f

  abbrev pub ◌>>◌ : Exec S A → Exec S B → Exec S B
  m >> n = m >>= λ _. n

-- A call that works on the first part of the state.
abbrev pub with_second {ℓ} : {S T A : Type ℓ} → T → Outcome A × S → Outcome A × (S × T)
with_second t (r, s) = (r, (s, t))

abbrev pub on_first {ℓ} : {S T A : Type ℓ} → Exec S A → Exec (S × T) A
on_first m (s, t) = with_second t (m s)
