-- ===== src/HotUpdate/Requests/Quiet.antt =====
-- Goroutines that have written their version and their URL leave those of the plugin as they are.
use kidecar.Base.{
  ◌≡◌, refl, ◌∙◌, ℕ, zero, suc, String, Bool-cases, inl, inr, List, [], ◌∷◌, All, str_eq,
}
use kidecar.Base.Outcome.{Outcome, ok, err, panic}
use kidecar.Base.Exec.{continue, caught_end, pure}
use kidecar.HotUpdate.Config.{load_by_signal_type, load_by_request_type}
use kidecar.HotUpdate.State.{HotUpdate, Services, reply, set_result}
use kidecar.HotUpdate.Pair.{pair_of, KeepsPair}
use kidecar.HotUpdate.Load.{
  load_hot_update_file_by_signal, load_hot_update_file_by_request, store_result,
  store_data_to_configmap,
}
use kidecar.HotUpdate.Load.Pair.{
  load_hot_update_file_by_signal-KeepsPair, store_result-KeepsPair,
  store_data_to_configmap-KeepsPair,
}
use kidecar.HotUpdate.Download.{download_file_by_url, or_reply}
use kidecar.HotUpdate.Download.Pair.{download_file_by_url-KeepsPair}
use kidecar.HotUpdate.Requests.{
  Phase, received, versioned, addressed, downloaded, stored, persisted, finished, Handling, next,
  settled, advance, download, signalled, load, turn, turn_of, turns, put_back,
}

-- The goroutine has written its version and its URL, or is at its end.
unfoldable pub IsPast : Phase → Type 0
IsPast (received r) = ⊥
IsPast (versioned r) = ⊥
IsPast addressed = Unit
IsPast downloaded = Unit
IsPast stored = Unit
IsPast persisted = Unit
IsPast finished = Unit

module _ {W F : Type 0} (lib : Services W F) where
  -- What a turn of such a goroutine leaves.
  IsQuiet : HotUpdate W → Phase × HotUpdate W → Type 0
  unfolding IsPast
  IsQuiet h (p, g) = IsPast p × (pair_of g ≡ pair_of h)

  then-IsQuiet :
      (p : Phase) (h : HotUpdate W) (x : Outcome (Unit {0}) × HotUpdate W)
      → IsPast p
      → pair_of x.1 ≡ pair_of h
      → IsQuiet h (settled lib (continue x (λ u. pure p)))
  unfolding IsQuiet settled
  then-IsQuiet p h (ok u, g) q e = (q, e)
  then-IsQuiet p h (err f, g) q e = (tt, e)
  then-IsQuiet p h (panic f, g) q e = (tt, e)

  download-IsQuiet :
      (h : HotUpdate W) (x : Outcome (Unit {0}) × HotUpdate W)
      → pair_of x.1 ≡ pair_of h
      → IsQuiet h (
          settled lib
            (continue (caught_end x) (λ r s. continue (or_reply lib r s) (λ u. pure downloaded))))
  unfolding IsQuiet settled or_reply reply
  download-IsQuiet h (ok u, g) e = (tt, e)
  download-IsQuiet h (err f, g) e = (tt, e)
  download-IsQuiet h (panic f, g) e = (tt, e)

  signalled-IsQuiet :
      (h : HotUpdate W) (x : Outcome (Unit {0}) × HotUpdate W)
      → pair_of x.1 ≡ pair_of h
      → IsQuiet h (settled lib (continue (caught_end x) (signalled lib)))
  unfolding IsQuiet settled signalled reply set_result
  signalled-IsQuiet h (ok u, g) e = (tt, e)
  signalled-IsQuiet h (err f, g) e = (tt, e)
  signalled-IsQuiet h (panic f, g) e = (tt, e)

  load-IsQuiet : (type : String) (h : HotUpdate W) → IsQuiet h (settled lib (load lib type h))
  unfolding load IsQuiet settled load_hot_update_file_by_request KeepsPair
  load-IsQuiet type h = elim (Bool-cases (str_eq type load_by_signal_type)) [
    | inl s ↦ rw s (
        signalled-IsQuiet h (load_hot_update_file_by_signal lib h)
          (load_hot_update_file_by_signal-KeepsPair lib h))
    | inr s ↦ elim (Bool-cases (str_eq type load_by_request_type)) [
      | inl r ↦ rw (s, r) (tt, refl)
      | inr r ↦ rw (s, r) (tt, refl)
    ]
  ]

  advance-IsQuiet : (p : Phase) (h : HotUpdate W) → IsPast p → IsQuiet h (advance lib (p, h))
  unfolding advance next download IsQuiet KeepsPair settled
  advance-IsQuiet addressed h q =
      download-IsQuiet h (download_file_by_url lib h) (download_file_by_url-KeepsPair lib h)
  advance-IsQuiet downloaded h q = load-IsQuiet h.config.load_patch_type h
  advance-IsQuiet stored h q =
      then-IsQuiet persisted h (store_result lib h) tt (store_result-KeepsPair lib h)
  advance-IsQuiet persisted h q =
      then-IsQuiet finished h (store_data_to_configmap lib h) tt
        (store_data_to_configmap-KeepsPair lib h)
  advance-IsQuiet finished h q = (tt, refl)
  advance-IsQuiet (received r) h q = elim q [ ]
  advance-IsQuiet (versioned r) h q = elim q [ ]

  -- All goroutines are past their writes, and the plugin has the version and the URL.
  unfoldable pub AreQuiet : String × String → List Handling × HotUpdate W → Type 0
  AreQuiet pair (gs, h) = All (λ g. IsPast g.phase) gs × (pair_of h ≡ pair)

  put_back-IsQuiet :
      (h : HotUpdate W) (x : Phase × HotUpdate W)
      → IsQuiet h x
      → IsPast (put_back lib h x).0.phase × (pair_of (put_back lib h x).1 ≡ pair_of h)
  unfolding put_back IsQuiet
  put_back-IsQuiet h (p, g) q = q

  turn-IsQuiet :
      (g : Handling) (h : HotUpdate W)
      → IsPast g.phase
      → IsPast (turn lib g h).0.phase × (pair_of (turn lib g h).1 ≡ pair_of h)
  unfolding turn IsQuiet
  turn-IsQuiet g h q =
      put_back-IsQuiet h (advance lib (g.phase, record h { response = g.response }))
        (advance-IsQuiet g.phase (record h { response = g.response }) q)

  turn_of-AreQuiet :
      (n : ℕ) (pair : String × String) (gs : List Handling) (h : HotUpdate W)
      → AreQuiet pair (gs, h)
      → AreQuiet pair (turn_of lib n (gs, h))
  unfolding turn_of AreQuiet
  turn_of-AreQuiet n pair [] h q = q
  turn_of-AreQuiet zero pair (g ∷ gs) h ((p, ps), e) =
      let (p', e') = turn-IsQuiet g h p in ((p', ps), e' ∙ e)
  turn_of-AreQuiet (suc n) pair (g ∷ gs) h ((p, ps), e) =
      let (ps', e') = turn_of-AreQuiet n pair gs h (ps, e) in ((p, ps'), e')

  pub turns-AreQuiet :
      (ns : List ℕ) (pair : String × String) (s : List Handling × HotUpdate W)
      → AreQuiet pair s
      → AreQuiet pair (turns lib ns s)
  unfolding turns
  turns-AreQuiet [] pair s q = q
  turns-AreQuiet (n ∷ ns) pair s q =
      turns-AreQuiet ns pair (turn_of lib n s) (turn_of-AreQuiet n pair s.0 s.1 q)
