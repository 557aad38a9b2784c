-- ===== src/HotUpdate/Requests/Mixed.antt =====
-- Two requests whose goroutines take turns.
use kidecar.Base.{
  ◌≡◌, refl, ap, ◌∙◌, ℕ, String, Bool-cases, true, false, inl, inr, List, [], ◌∷◌, ◌++◌, some,
  str_eq, eq_iff, arith,
}
use kidecar.Base.Exec.{Exec, masking}
use kidecar.Store.Persistent.{set_persistence_info}
use kidecar.HotUpdate.Config.{url_key, plugin_name}
use kidecar.HotUpdate.Load.{store_data_to_configmap}
use kidecar.HotUpdate.Version.{is_valid_version}
use kidecar.HotUpdate.State.{
  HttpRequest, Response, HotUpdate, Services, form_value, set_version, set_url, on_process,
}
use kidecar.HotUpdate.Pair.{pair_of}
use kidecar.HotUpdate.Handler.Refused.{is_accepted}
use kidecar.HotUpdate.Requests.{
  received, versioned, addressed, Handling, next, settled, advance, take_version, take_url, turn,
  turn_of, turns, put_back,
}
use kidecar.HotUpdate.Requests.Quiet.{IsPast, AreQuiet, turns-AreQuiet}

empty_invalid : is_valid_version "" ≡ false
unfolding is_valid_version
empty_invalid = refl

not_empty : (version : String) → is_valid_version version ≡ true → str_eq version "" ≡ false
not_empty version h = elim (Bool-cases (str_eq version "")) [
  | inl e ↦
      let q : version ≡ "" = (eq_iff version "").0 e in cc (ap is_valid_version q, empty_invalid, h)
  | inr e ↦ e
]

-- Two goroutines that have just been started.
abbrev pub two_requests : HttpRequest → HttpRequest → Response → Response → List Handling
two_requests r1 r2 p1 p2 =
    record { phase = received r1; response = p1 }
    ∷ record { phase = received r2; response = p2 }
    ∷ []

-- Both in front of their download.
abbrev pub both_addressed : Response → Response → List Handling
both_addressed p1 p2 =
    record { phase = addressed; response = p1 } ∷ record { phase = addressed; response = p2 } ∷ []

module _ {W F : Type 0} (lib : Services W F) where
  -- The turns of an accepted request in front of its download.
  versioned-turn :
      (r : HttpRequest) (p : Response) (h : HotUpdate W)
      → is_accepted r ≡ true
      → turn lib (record { phase = received r; response = p }) h ≡ (
        record { phase = versioned r; response = p },
        record h { result = record (h.result) { version = form_value r "version" } },
      )
  unfolding turn put_back advance next take_version settled set_version
  versioned-turn r p h a =
      let m : str_eq r.method "POST" ≡ true = ground (arith, a) in
      let v : is_valid_version (form_value r "version") ≡ true = ground (arith, a) in
      let e = not_empty (form_value r "version") v in rw (m, e, v) refl

  addressed-turn :
      (r : HttpRequest) (p : Response) (h : HotUpdate W)
      → is_accepted r ≡ true
      → turn lib (record { phase = versioned r; response = p }) h ≡ (
        record { phase = addressed; response = p },
        record h { result = record (h.result) { url = form_value r url_key } },
      )
  unfolding turn put_back advance next take_url settled set_url
  addressed-turn r p h a =
      let u : str_eq (form_value r url_key) "" ≡ false = ground (arith, a) in rw u refl

  first_turn :
      (g g' other : Handling) (h h' : HotUpdate W)
      → turn lib g h ≡ (g', h')
      → turn_of lib 0 (g ∷ other ∷ [], h) ≡ (g' ∷ other ∷ [], h')
  unfolding turn_of
  first_turn g g' other h h' e = ap (λ x. (x.0 ∷ other ∷ [], x.1)) e

  second_turn :
      (g g' other : Handling) (h h' : HotUpdate W)
      → turn lib g h ≡ (g', h')
      → turn_of lib 1 (other ∷ g ∷ [], h) ≡ (other ∷ g' ∷ [], h')
  unfolding turn_of
  second_turn g g' other h h' e = ap (λ x. (other ∷ x.0 ∷ [], x.1)) e

  turns-first :
      (n : ℕ) (ns : List ℕ) (s s' : List Handling × HotUpdate W)
      → turn_of lib n s ≡ s'
      → turns lib (n ∷ ns) s ≡ turns lib ns s'
  unfolding turns
  turns-first n ns s s' e = ap (turns lib ns) e

  -- The plugin behind four turns, of the first goroutine, twice of the second, and of the first.
  abbrev written : HttpRequest → HttpRequest → HotUpdate W → HotUpdate W
  written r1 r2 h = record h {
    result = record {
      result = h.result.result;
      version = form_value r2 "version";
      url = form_value r1 url_key;
    };
  }

  four_turns :
      (r1 r2 : HttpRequest) (p1 p2 : Response) (h : HotUpdate W) (more : List ℕ)
      → is_accepted r1 ≡ true
      → is_accepted r2 ≡ true
      → turns lib (0 ∷ 1 ∷ 1 ∷ 0 ∷ more) (two_requests r1 r2 p1 p2, h)
        ≡ turns lib more (both_addressed p1 p2, written r1 r2 h)
  four_turns r1 r2 p1 p2 h more a1 a2 =
      turns-first 0 _ _ _ (first_turn _ _ _ h _ (versioned-turn r1 p1 h a1))
      ∙ turns-first 1 _ _ _ (second_turn _ _ _ _ _ (versioned-turn r2 p2 _ a2))
      ∙ turns-first 1 _ _ _ (second_turn _ _ _ _ _ (addressed-turn r2 p2 _ a2))
      ∙ turns-first 0 more _ _ (first_turn _ _ _ _ _ (addressed-turn r1 p1 _ a1))

  both-AreQuiet :
      (r1 r2 : HttpRequest) (p1 p2 : Response) (h : HotUpdate W)
      → AreQuiet lib
          (form_value r2 "version", form_value r1 url_key)
          (both_addressed p1 p2, written r1 r2 h)
  unfolding AreQuiet IsPast
  both-AreQuiet r1 r2 p1 p2 h = ((tt, (tt, tt)), refl)

  quiet-pair :
      (pair : String × String) (s : List Handling × HotUpdate W)
      → AreQuiet lib pair s
      → pair_of s.1 ≡ pair
  unfolding AreQuiet
  quiet-pair pair s q = q.1

  -- SetPersistenceInfo for the pair, as storeDataToConfigmap calls it.
  abbrev pub store_pair : String × String → Exec (HotUpdate W) (Unit {0})
  store_pair (version, url) = masking "failed to set hot update result to configmap" (
      on_process (
        set_persistence_info lib.kube lib.yaml lib.env
          (some (record { type = plugin_name; result = some ((version, url) ∷ []) }))))

  stored_pair : (h : HotUpdate W) → store_data_to_configmap lib h ≡ store_pair (pair_of h) h
  unfolding store_data_to_configmap
  stored_pair h = refl

  store_same :
      (pair : String × String) (h : HotUpdate W)
      → pair_of h ≡ pair
      → (pair_of h ≡ pair) × (store_data_to_configmap lib h ≡ store_pair pair h)
  store_same pair h e = (e, stored_pair h ∙ ap (λ p. store_pair p h) e)

  -- For any two accepted requests there is an order of the turns that leads both goroutines in front of
  -- their download, and from then on, in whatever order the turns go on, the plugin holds the version of
  -- the second request with the URL of the first, and this pair is what storeDataToConfigmap hands to
  -- SetPersistenceInfo.
  pub pair_of-turns :
      (r1 r2 : HttpRequest) (p1 p2 : Response) (h : HotUpdate W)
      → is_accepted r1 ≡ true
      → is_accepted r2 ≡ true
      → (ns : List ℕ) × ((turns lib ns (two_requests r1 r2 p1 p2, h)).0 ≡ both_addressed p1 p2)
        × ((more : List ℕ)
            → (pair_of (turns lib (ns ++ more) (two_requests r1 r2 p1 p2, h)).1
                ≡ (form_value r2 "version", form_value r1 url_key))
              × (store_data_to_configmap lib
                    (turns lib (ns ++ more) (two_requests r1 r2 p1 p2, h)).1
                  ≡ store_pair
                      (form_value r2 "version", form_value r1 url_key)
                      (turns lib (ns ++ more) (two_requests r1 r2 p1 p2, h)).1))
  unfolding turns
  pair_of-turns r1 r2 p1 p2 h a1 a2 =
      let pair : String × String = (form_value r2 "version", form_value r1 url_key) in
      (
        0 ∷ 1 ∷ 1 ∷ 0 ∷ [],
        ap (λ s. s.0) (four_turns r1 r2 p1 p2 h [] a1 a2),
        λ more. store_same pair _ (
            ap (λ s. pair_of s.1) (four_turns r1 r2 p1 p2 h more a1 a2)
            ∙ quiet-pair pair (turns lib more (both_addressed p1 p2, written r1 r2 h)) (
                turns-AreQuiet lib more pair (both_addressed p1 p2, written r1 r2 h)
                  (both-AreQuiet r1 r2 p1 p2 h))),
      )
