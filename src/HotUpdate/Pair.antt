-- ===== src/HotUpdate/Pair.antt =====
-- The version and the URL of `h.result`, and the calls that leave them as they are.
use kidecar.Base.{◌≡◌, refl, ◌∙◌, String, ◌⊎◌, inl, inr}
use kidecar.Base.Outcome.{Err, Outcome, ok, err, panic}
use kidecar.Base.Exec.{
  lift, gets, Exec, continue, caught_end, wrap_end, mask_end, ◌>>=◌, attempt, wrapping, masking,
}
use kidecar.Process.{Process}
use kidecar.HotUpdate.State.{HotUpdate, on_process, on_host}

-- The pair of version and URL that the plugin would store in the configmap.
abbrev pub pair_of : {W : Type 0} → HotUpdate W → String × String
pair_of h = (h.result.version, h.result.url)

module _ {W A : Type 0} where
  unfoldable pub KeepsPair : Exec (HotUpdate W) A → Type 0
  KeepsPair m = (h : HotUpdate W) → pair_of (m h).1 ≡ pair_of h

  pub wrapping-KeepsPair :
      (t : String) (m : Exec (HotUpdate W) A) → KeepsPair m → KeepsPair (wrapping t m)
  unfolding KeepsPair
  wrapping-KeepsPair t m k h = ended (m h) (k h)
    where
      ended :
          (x : Outcome A × HotUpdate W)
          → pair_of x.1 ≡ pair_of h
          → pair_of (wrap_end t x).1 ≡ pair_of h
      ended (ok a, g) e = e
      ended (err f, g) e = e
      ended (panic f, g) e = e

  pub masking-KeepsPair :
      (t : String) (m : Exec (HotUpdate W) A) → KeepsPair m → KeepsPair (masking t m)
  unfolding KeepsPair
  masking-KeepsPair t m k h = ended (m h) (k h)
    where
      ended :
          (x : Outcome A × HotUpdate W)
          → pair_of x.1 ≡ pair_of h
          → pair_of (mask_end t x).1 ≡ pair_of h
      ended (ok a, g) e = e
      ended (err f, g) e = e
      ended (panic f, g) e = e

  pub gets-KeepsPair : (f : HotUpdate W → A) → KeepsPair (gets f)
  unfolding KeepsPair
  gets-KeepsPair f h = refl

  pub on_process-KeepsPair : (m : Exec (Process W) A) → KeepsPair (on_process m)
  unfolding KeepsPair on_process
  on_process-KeepsPair m h = refl

  pub on_host-KeepsPair : (m : Exec W A) → KeepsPair (on_host m)
  unfolding KeepsPair on_host on_process
  on_host-KeepsPair m h = refl

pub lift-KeepsPair : {A : Type 0} (W : Type 0) (o : Outcome A) → KeepsPair {W = W} (lift o)
unfolding KeepsPair
lift-KeepsPair W o h = refl

module _ {W A B : Type 0} where
  pub then-KeepsPair :
      (m : Exec (HotUpdate W) A) (f : A → Exec (HotUpdate W) B)
      → KeepsPair m
      → ((a : A) → KeepsPair (f a))
      → KeepsPair (m >>= f)
  unfolding KeepsPair
  then-KeepsPair m f k l h = ended (m h) (k h)
    where
      ended :
          (x : Outcome A × HotUpdate W)
          → pair_of x.1 ≡ pair_of h
          → pair_of (continue x f).1 ≡ pair_of h
      ended (ok a, g) e = l a g ∙ e
      ended (err f, g) e = e
      ended (panic f, g) e = e

  pub attempt-KeepsPair :
      (m : Exec (HotUpdate W) A) (f : Err ⊎ A → Exec (HotUpdate W) B)
      → KeepsPair m
      → ((a : Err ⊎ A) → KeepsPair (f a))
      → KeepsPair (attempt m >>= f)
  unfolding KeepsPair
  attempt-KeepsPair m f k l h = ended (m h) (k h)
    where
      ended :
          (x : Outcome A × HotUpdate W)
          → pair_of x.1 ≡ pair_of h
          → pair_of (continue (caught_end x) f).1 ≡ pair_of h
      ended (ok a, g) e = l (inr a) g ∙ e
      ended (err f, g) e = l (inl f) g ∙ e
      ended (panic f, g) e = e
