-- ===== src/HttpProbe/Workers/Invariant.antt =====
-- What holds of the prober at every moment.
use kidecar.Base.{
  sym, ◌∙◌, ◌⊎◌, ◌↔◌, ℕ, ◌+◌, ◌≤◌, ◌<◌, ◌^◌, ◌≡◌, refl, String, Bool, true, false, arith,
}
use kidecar.Base.Text.{different}
use kidecar.HttpProbe.Workers.{
  Phase, delaying, launching, waiting, stopping, returned, Workers, Step, give_up, nothing_to_probe,
  begin, launch, launched, stop, cancel, probe_again, leave, count_down, Run, here, next,
}
use kidecar.HttpProbe.Health.{increment_goroutines, decrement_goroutines}

-- The status, and how many goroutines are alive, by where Start stands.
abbrev pub Fits : ℕ → Workers → Phase → Type 0
Fits n s delaying =
    (s.shared.status ≡ "") × (s.probing ≡ 0) × (s.leaving ≡ 0) × (s.cancelled ≡ false)
Fits n s (launching k) =
    (s.shared.status ≡ "Running") × (s.probing + k ≡ n) × (s.leaving ≡ 0) × (s.cancelled ≡ false)
Fits n s waiting =
    (s.shared.status ≡ "Running") × (s.probing ≡ n) × (s.leaving ≡ 0) × (s.cancelled ≡ false)
Fits n s stopping =
    (s.shared.status ≡ "Stopped") × (s.probing ≡ n) × (s.leaving ≡ 0) × (s.cancelled ≡ false)
Fits n s returned =
    (s.shared.status ≡ "Stopped")
    × (s.probing + s.leaving ≤ n)
    × ((s.cancelled ≡ true) ⊎ (s.probing ≡ 0))

pub record Inv (n : ℕ) (s : Workers) : Type 0 where
  pub counted : s.shared.active ≡ s.probing + s.leaving
  pub fits : Fits n s s.phase

Step-Inv : {ends : Bool} {n : ℕ} {s t : Workers} → n < 2 ^ 63 → Step ends n s t → Inv n s → Inv n t
unfolding increment_goroutines decrement_goroutines
Step-Inv few (give_up d p e) i = ground arith
Step-Inv few (nothing_to_probe p z e) i = ground arith
Step-Inv few (begin p z e) i = ground arith
Step-Inv few (launch k p e) i = ground arith
Step-Inv few (launched p e) i = ground arith
Step-Inv few (stop d p e) i = ground arith
Step-Inv few (cancel p e) i = ground arith
Step-Inv few (probe_again k p c e) i = ground arith
Step-Inv few (leave k p c e) i = ground arith
Step-Inv few (count_down k p e) i = ground arith

pub Run-Inv : {ends : Bool} {n m : ℕ} {s : Workers} → n < 2 ^ 63 → Run ends n m s → Inv n s
Run-Inv few here = ground arith
Run-Inv few (next r st) = Step-Inv few st (Run-Inv few r)

-- Start has begun to probe and has not been told to end.
abbrev pub IsProbing : Phase → Type 0
IsProbing (launching k) = Unit
IsProbing waiting = Unit
IsProbing delaying = ⊥
IsProbing stopping = ⊥
IsProbing returned = ⊥

abbrev pub IsSound : ℕ → Workers → Type 0
IsSound n s =
    (s.shared.active ≡ s.probing + s.leaving)
    × (s.shared.active ≤ n)
    × ((s.shared.status ≡ "Running") ↔ IsProbing s.phase)

other_text : {t u v : String} → t ≡ u → t ≡ v → (u ≡ v → ⊥) → ⊥
other_text p q differ = differ (sym p ∙ q)

-- The status, read against where Start stands.
status-IsProbing :
    (n : ℕ) (s : Workers) (p : Phase) → Fits n s p → (s.shared.status ≡ "Running") ↔ IsProbing p
status-IsProbing n s delaying f =
    (λ h. other_text f.0 h (different "" "Running" refl), λ h. absurd h)
status-IsProbing n s (launching k) f = (λ h. tt, λ h. f.0)
status-IsProbing n s waiting f = (λ h. tt, λ h. f.0)
status-IsProbing n s stopping f =
    (λ h. other_text f.0 h (different "Stopped" "Running" refl), λ h. absurd h)
status-IsProbing n s returned f =
    (λ h. other_text f.0 h (different "Stopped" "Running" refl), λ h. absurd h)

alive_le : (n : ℕ) (s : Workers) (p : Phase) → Fits n s p → s.probing + s.leaving ≤ n
alive_le n s delaying f = ground arith
alive_le n s (launching k) f = ground arith
alive_le n s waiting f = ground arith
alive_le n s stopping f = ground arith
alive_le n s returned f = ground arith

-- Whatever the order of the steps, and whether the context ever ends or not, with fewer than 2^63 endpoints: the counter is the number of the
-- goroutines that are alive, it never exceeds the number of endpoints, and the status is "Running"
-- exactly while Start probes.
pub Run-IsSound : {ends : Bool} {n m : ℕ} {s : Workers} → n < 2 ^ 63 → Run ends n m s → IsSound n s
Run-IsSound {ends} {n} {m} {s} few r =
    let i = Run-Inv few r in
    let le = alive_le n s s.phase i.fits in
    (i.counted, omega (arith, i.counted, le), status-IsProbing n s s.phase i.fits)
