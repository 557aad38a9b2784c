-- ===== src/HttpProbe/Workers/Endless.antt =====
-- The prober under a context that never ends, as cmd/sidecar/main.go starts it.
use kidecar.Base.{ℕ, ◌<◌, ◌^◌, ◌≡◌, ◌≢◌, false, subst, arith}
use kidecar.HttpProbe.Workers.{
  Phase, delaying, launching, waiting, stopping, returned, Workers, Step, give_up, nothing_to_probe,
  begin, launch, launched, stop, cancel, probe_again, leave, count_down, Run, here, next,
}
use kidecar.HttpProbe.Workers.Invariant.{Fits, Run-Inv}

-- Start is not on its way to return.
abbrev pub IsUp : Phase → Type 0
IsUp delaying = Unit
IsUp (launching k) = Unit
IsUp waiting = Unit
IsUp stopping = ⊥
IsUp returned = ⊥

Step-IsUp : {n : ℕ} {s t : Workers} → n ≢ 0 → Step false n s t → IsUp s.phase → IsUp t.phase
Step-IsUp some (give_up d p e) up = cc d
Step-IsUp some (nothing_to_probe p z e) up = absurd (some z)
Step-IsUp some (begin p z e) up = ground arith
Step-IsUp some (launch k p e) up = ground arith
Step-IsUp some (launched p e) up = ground arith
Step-IsUp some (stop d p e) up = cc d
Step-IsUp some (cancel p e) up = absurd (subst IsUp p up)
Step-IsUp some (probe_again k p c e) up = ground arith
Step-IsUp some (leave k p c e) up = ground arith
Step-IsUp some (count_down k p e) up = ground arith

Run-IsUp : {n m : ℕ} {s : Workers} → n ≢ 0 → Run false n m s → IsUp s.phase
Run-IsUp some here = tt
Run-IsUp some (next r st) = Step-IsUp some st (Run-IsUp some r)

-- Under a context that never ends, with at least one endpoint and fewer than 2^63: Start of the prober
-- never returns, whatever the order of the steps; and from when it has launched the goroutines, the
-- status is "Running" and the counter is the number of the endpoints, so none of them has left.
pub Run-endless :
    {n m : ℕ} {s : Workers}
    → n ≢ 0
    → n < 2 ^ 63
    → Run false n m s
    → IsUp s.phase × (s.phase ≡ waiting → (s.shared.status ≡ "Running") × (s.shared.active ≡ n))
Run-endless {n} {m} {s} some few r =
    let i = Run-Inv few r in
    (
      Run-IsUp some r,
      λ p. let f : Fits n s waiting = subst (Fits n s) p i.fits in (f.0, ground arith),
    )
