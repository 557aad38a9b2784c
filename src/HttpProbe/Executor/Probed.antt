-- ===== src/HttpProbe/Executor/Probed.antt =====
-- Which answers of an endpoint are stored.
use kidecar.Base.{
  subst, ℕ, String, ◌≡◌, ◌≢◌, refl, ap, sym, ◌∙◌, false, Bool-cases, inl, inr, arith, eqb,
}
use kidecar.Base.Outcome.{ok, err, msg}
use kidecar.Base.Exec.{wrap_end}
use kidecar.Base.Inversion.{continue-ok, wrap_end-ok}
use kidecar.Store.Factory.{StoreState}
use kidecar.HttpProbe.Config.{EndpointConfig}
use kidecar.HttpProbe.Executor.{
  Libraries, Extracted, extract_data, as_text, store_text, probe, ask, check_status,
  extract_and_store,
}

module _ {W F B J : Type 0} (lib : Libraries W F B J) where
  -- The endpoint answered with the expected code, and what was extracted from the body is a text,
  -- whose store succeeded.
  abbrev pub IsProbed : EndpointConfig → StoreState W → StoreState W → Type 0
  IsProbed config s s' =
      (body : String) × (s1 : StoreState W) × (ask lib config s
        ≡ (ok (config.expected_status_code, body), s1))
      × (d : Extracted J) × (extract_data lib.gjson body config.json_path_config ≡ ok d)
      × (t : String) × (as_text lib.gjson d ≡ ok t)
      × (store_text lib t s1 ≡ (ok tt, s'))

  extracted :
      (config : EndpointConfig) (body : String) (s s' : StoreState W)
      → extract_and_store lib config body s ≡ (ok tt, s')
      → (d : Extracted J) × (extract_data lib.gjson body config.json_path_config ≡ ok d)
        × (t : String) × (as_text lib.gjson d ≡ ok t)
        × (store_text lib t s ≡ (ok tt, s'))
  unfolding extract_and_store
  extracted config body s s' h =
      let d =
        continue-ok
          (wrap_end "failed to extract data"
            (extract_data lib.gjson body config.json_path_config, s))
          _ tt s' h in
      let t = continue-ok (as_text lib.gjson d.0, d.1) _ tt s' d.3 in
      let e = wrap_end-ok "failed to store data" (store_text lib t.0 t.1) tt s' t.3 in
      let f =
        wrap_end-ok "failed to extract data"
          (extract_data lib.gjson body config.json_path_config, s) d.0 d.1 d.2 in
      let q : s ≡ t.1 = ap (λ x. x.1) f ∙ ap (λ x. x.1) t.2 in
      (
        d.0,
        ap (λ x. x.0) f,
        t.0,
        ap (λ x. x.0) t.2,
        subst (λ (u : StoreState W). store_text lib t.0 u ≡ (ok tt, s')) (sym q) e,
      )

  checked :
      (code expected : ℕ) (s s' : StoreState W)
      → check_status lib code expected s ≡ (ok tt, s')
      → (code ≡ expected) × (s ≡ s')
  unfolding check_status
  checked code expected s s' h = elim (Bool-cases (eqb code expected)) [
    | inl e ↦ let k = rw e at h in (ground (arith, e), ap (λ x. x.1) k)
    | inr e ↦ let k = rw e at h in cc k
  ]

  -- A probe that ends without an error has asked the endpoint, has got the expected status code, and
  -- has stored a text that was extracted from the answer.
  pub probe-IsProbed :
      (config : EndpointConfig) (s s' : StoreState W)
      → probe lib config s ≡ (ok tt, s')
      → IsProbed config s s'
  unfolding probe check_status
  probe-IsProbed config s s' h =
      let a = continue-ok (ask lib config s) _ tt s' h in
      let c = continue-ok (check_status lib a.0.0 config.expected_status_code a.1) _ tt s' a.3 in
      let n = checked a.0.0 config.expected_status_code a.1 c.1 c.2 in
      let x = extracted config a.0.1 c.1 s' c.3 in
      (a.0.1, c.1, cc (a.2, n.0, n.1), x.0, x.1, x.2, x.3, x.4)

  -- An answer with another status code ends the probe with an error, and nothing is stored: the probe
  -- leaves what the two calls for the answer left.
  probe-unexpected :
      (config : EndpointConfig) (s s1 : StoreState W) (code : ℕ) (body : String)
      → ask lib config s ≡ (ok (code, body), s1)
      → code ≢ config.expected_status_code
      → probe lib config s ≡ (err (msg "unexpected status code"), s1)
  unfolding probe check_status
  probe-unexpected config s s1 code body a n =
      let k : eqb code config.expected_status_code ≡ false = ground (arith, n) in rw (a, k) refl
