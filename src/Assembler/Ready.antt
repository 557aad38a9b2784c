-- ===== src/Assembler/Ready.antt =====
-- Plugins whose Status can be asked, from InitPlugins to Start.
use kidecar.Base.{
  ◌≡◌, ◌≢◌, inl, inr, Bool-cases, String, true, false, Option, some, [], ◌∷◌, All, str_eq,
  if◌then◌else◌, subst,
}
use kidecar.Base.Maps.{Entries, lookup, insert}
use kidecar.Base.Outcome.{Fault, ok, panic}
use kidecar.Api.{Binary}
use kidecar.Assembler.State.{Plugins, Sidecar}

-- What makes a plugin ready to be asked for its status, and that Init and NewPlugin make it so.
pub record ReadyLaws {P H C M : Type 0} (plugins : Plugins P H C M) (IsReady : H → P → Type 0)
    : Type 0 where
  pub init_readies :
      (h : H) (c : C) (m : Option M) (w w' : P) → plugins.init h c m w ≡ (ok tt, w') → IsReady h w'
  pub init_keeps :
      (h : H) (c : C) (m : Option M) (w : P) (g : H)
      → IsReady g w
      → IsReady g (plugins.init h c m w).1
  pub new_readies :
      (b : Binary) (w : P) → IsReady (plugins.new_binary b w).0 (plugins.new_binary b w).1
  pub new_keeps : (b : Binary) (w : P) (g : H) → IsReady g w → IsReady g (plugins.new_binary b w).1
  pub status_keeps : (h : H) (w : P) (g : H) → IsReady g w → IsReady g (plugins.status h w).1
  pub status_answers : (h : H) (w : P) (p : Fault) → IsReady h w → (plugins.status h w).0 ≢ panic p

module _ {ℓ} {V : Type ℓ} (Q : V → Type ℓ) where
  pub insert-All :
      (k : String) (v : V) (m : Entries V)
      → Q v
      → All (λ e. Q e.1) m
      → All (λ e. Q e.1) (insert k v m)
  unfolding insert
  insert-All k v [] q h = (q, tt)
  insert-All k v ((j, w) ∷ m) q (a, h) =
      elim (str_eq j k)
        as (λ b. All (λ e. Q e.1) (if b then (k, v) ∷ m else (j, w) ∷ insert k v m)) [
          | true ↦ (q, h)
          | false ↦ (a, insert-All k v m q h)
        ]

  pub lookup-All :
      (k : String) (v : V) (m : Entries V) → lookup k m ≡ some v → All (λ e. Q e.1) m → Q v
  unfolding lookup
  lookup-All k v [] e h = cc
  lookup-All k v ((j, w) ∷ m) e (a, h) = elim (Bool-cases (str_eq j k)) [
    | inl b ↦ subst Q (cc (rw b at e)) a
    | inr b ↦ lookup-All k v m (rw b at e) h
  ]

pub All-map :
    {V : Type 0} (P Q : V → Type 0) (m : Entries V)
    → ((v : V) → P v → Q v)
    → All (λ e. P e.1) m
    → All (λ e. Q e.1) m
All-map P Q [] f h = tt
All-map P Q ((k, v) ∷ m) f (a, h) = (f v a, All-map P Q m f h)

-- The plugins that the sidecar holds are ready.
abbrev pub IsFit : {P H J M : Type 0} → (H → P → Type 0) → Sidecar P H J M → Type 0
IsFit IsReady s = All (λ e. IsReady e.1 s.world) s.plugins
