-- ===== src/Agent/Identity/Restart.antt =====
-- A prepared identity survives a restart.
use sopdet.Prelude.{
  String, ◌≡◌, ◌≢◌, refl, ap, sym, ◌∙◌, true, false, Option, none, some, eq_iff, arith, Bool-cases,
  inl, inr,
}
use sopdet.Prelude.Outcome.{Outcome, ok, err}
use sopdet.Prelude.Text.{trim_right_slashes}
use sopdet.Net.{Net}
use sopdet.Agent.Key.{valid_device_key_format, parse_device_key_id}
use sopdet.Agent.ServeConfig.{ServeConfig}
use sopdet.Agent.Identity.Defs.{
  DeviceState, Disk, World, Server, same_state, validate_bifrost_url, load_device_state,
  save_device_state, enroll, ensure_state_writable, persist_if_changed, with_key, with_persisted,
  with_token, without_key, prepare_serve,
}
use sopdet.Agent.Identity.Laws.{
  IsPrepared, refused, keyed, persisted, fresh, route, prepare_serve-IsPrepared,
}

valid_empty : valid_device_key_format "" ≡ false
unfolding valid_device_key_format
valid_empty = refl

valid_nonempty : (s : String) → valid_device_key_format s ≡ true → s ≢ ""
valid_nonempty s h e = ground (arith, valid_empty, h, ap valid_device_key_format e)

module _ (net : Net) (server : Server) (disk : Disk) where
  -- The state file gives the identity on its own.
  abbrev Settled : String → String → DeviceState → World → Type 0
  Settled path base_url s w =
      (p : DeviceState) × (load_device_state path w.stored ≡ ok p)
      × (p.device_key ≢ "")
      × (with_persisted net server disk p base_url w ≡ (ok s, w))

  with_persisted_self :
      (base_url : String) (s : DeviceState) (w : World)
      → IsPrepared base_url s
      → with_persisted net server disk s base_url w ≡ (ok s, w)
  unfolding with_persisted
  with_persisted_self base_url s w h =
      ground (arith, h.key, h.url, eq_iff s.bifrost_url base_url, eq_iff base_url base_url)

  loads_saved :
      (path : String) (s : DeviceState) (w w' : World)
      → save_device_state disk path s w ≡ (ok tt, w')
      → load_device_state path w'.stored ≡ ok s
  unfolding save_device_state load_device_state
  loads_saved path s w w' h = ground (arith, h)

  same_state-eq : (a b : DeviceState) → same_state a b ≡ true → a ≡ b
  same_state-eq a b h = ground (
    arith,
    h,
    eq_iff a.bifrost_url b.bifrost_url,
    eq_iff a.device_id b.device_id,
    eq_iff a.device_key b.device_key,
  )

  loads_persisted :
      (path : String) (s : DeviceState) (w w' : World)
      → persist_if_changed net server disk path s w ≡ (ok tt, w')
      → load_device_state path w'.stored ≡ ok s
  loads_persisted path s w w' h = from (load_device_state path w.stored) refl
    where
      from :
          (o : Outcome DeviceState)
          → load_device_state path w.stored ≡ o
          → load_device_state path w'.stored ≡ ok s
      from (err x) e = loads_saved path s w w' (unfold persist_if_changed in ground (arith, e, h))
      from (ok q) e = elim (Bool-cases (same_state q s)) [
        | inl same ↦
            let kept : w ≡ w' = unfold persist_if_changed in ground (arith, e, same, h) in
            ground (arith, e, same_state-eq q s same, kept)
        | inr other ↦
            loads_saved path s w w' (unfold persist_if_changed in ground (arith, e, other, h))
      ]

  Settled-by_file :
      (path base_url : String) (s : DeviceState) (w : World)
      → IsPrepared base_url s
      → load_device_state path w.stored ≡ ok s
      → Settled path base_url s w
  Settled-by_file path base_url s w v l =
      (s, l, valid_nonempty s.device_key v.key, with_persisted_self base_url s w v)

  -- A configured key has been persisted.
  with_key-saved :
      (cfg : ServeConfig) (base_url : String) (w w' : World) (s : DeviceState)
      → with_key net server disk cfg base_url w ≡ (ok s, w')
      → persist_if_changed net server disk cfg.state_path s w ≡ (ok tt, w')
  unfolding with_key
  with_key-saved cfg base_url w w' s h = from (parse_device_key_id cfg.device_key) refl
    where
      written :
          (id : String) (o : Outcome (Unit {0}))
          → parse_device_key_id cfg.device_key ≡ some id
          → (persist_if_changed net server disk cfg.state_path
              (record { bifrost_url = base_url; device_id = id; device_key = cfg.device_key })
              w).0
            ≡ o
          → persist_if_changed net server disk cfg.state_path s w ≡ (ok tt, w')
      written id (err x) e q = absurd (ground (arith, e, q, h))
      written id (ok u) e q = ground (arith, e, q, h)

      from :
          (o : Option String)
          → parse_device_key_id cfg.device_key ≡ o
          → persist_if_changed net server disk cfg.state_path s w ≡ (ok tt, w')
      from none e = absurd (ground (arith, e, h))
      from (some id) e =
          written id
            (persist_if_changed net server disk cfg.state_path
              (record { bifrost_url = base_url; device_id = id; device_key = cfg.device_key }) w).0
            e refl

  -- An enrolled identity has been saved.
  with_token-saved :
      (cfg : ServeConfig) (base_url : String) (w w' : World) (s : DeviceState)
      → with_token net server disk cfg base_url w ≡ (ok s, w')
      → (v : World) × (save_device_state disk cfg.state_path s v ≡ (ok tt, w'))
  unfolding with_token
  with_token-saved cfg base_url w w' s h = writable (ensure_state_writable disk cfg.state_path) refl
    where
      saved :
          (u : Unit {0}) (t : DeviceState) (o : Outcome (Unit {0}))
          → ensure_state_writable disk cfg.state_path ≡ ok u
          → (enroll net server base_url cfg.enrollment_token w).0 ≡ ok t
          → (save_device_state disk cfg.state_path t
              (enroll net server base_url cfg.enrollment_token w).1).0
            ≡ o
          → (v : World) × (save_device_state disk cfg.state_path s v ≡ (ok tt, w'))
      saved u t (err x) a b c = absurd (ground (arith, a, b, c, h))
      saved u t (ok z) a b c =
          ((enroll net server base_url cfg.enrollment_token w).1, ground (arith, a, b, c, h))

      answered :
          (u : Unit {0}) (o : Outcome DeviceState)
          → ensure_state_writable disk cfg.state_path ≡ ok u
          → (enroll net server base_url cfg.enrollment_token w).0 ≡ o
          → (v : World) × (save_device_state disk cfg.state_path s v ≡ (ok tt, w'))
      answered u (err x) a b = absurd (ground (arith, a, b, h))
      answered u (ok t) a b =
          saved u t
            (save_device_state disk cfg.state_path t
              (enroll net server base_url cfg.enrollment_token w).1).0
            a b refl

      writable :
          (o : Outcome (Unit {0}))
          → ensure_state_writable disk cfg.state_path ≡ o
          → (v : World) × (save_device_state disk cfg.state_path s v ≡ (ok tt, w'))
      writable (err x) a = absurd (ground (arith, a, h))
      writable (ok u) a = answered u (enroll net server base_url cfg.enrollment_token w).0 a refl

  without_key-saved :
      (loaded : Outcome DeviceState) (cfg : ServeConfig) (base_url : String) (w w' : World)
      (s : DeviceState)
      → without_key net server disk loaded cfg base_url w ≡ (ok s, w')
      → (v : World) × (save_device_state disk cfg.state_path s v ≡ (ok tt, w'))
  without_key-saved loaded cfg base_url w w' s h =
      with_token-saved cfg base_url w w' s (unfold without_key in ground (arith, h))

  with_persisted-Settled :
      (path base_url : String) (w w' : World) (q s : DeviceState)
      → load_device_state path w.stored ≡ ok q
      → q.device_key ≢ ""
      → with_persisted net server disk q base_url w ≡ (ok s, w')
      → Settled path base_url s w'
  with_persisted-Settled path base_url w w' q s l k h =
      let same : w ≡ w' = unfold with_persisted in ground (arith, h) in
      (q, rw same at l, k, rw same at h)

  validated :
      (cfg : ServeConfig) (w w' : World) (s : DeviceState)
      → prepare_serve net server disk cfg w ≡ (ok s, w')
      → validate_bifrost_url net cfg.bifrost_url ≡ ok tt
  unfolding prepare_serve
  validated cfg w w' s h = ground (arith, h)

  prepare_serve-Settled :
      (cfg : ServeConfig) (w w' : World) (s : DeviceState)
      → prepare_serve net server disk cfg w ≡ (ok s, w')
      → Settled cfg.state_path (trim_right_slashes cfg.bifrost_url) s w'
  prepare_serve-Settled cfg w w' s h =
      let v = prepare_serve-IsPrepared net server disk cfg w s (ap (λ p. p.0) h) in
      let base_url = trim_right_slashes cfg.bifrost_url in
      elim (route net server disk cfg w) [
        | refused e p ↦ absurd (ground (arith, p, h))
        | keyed k p ↦
            Settled-by_file cfg.state_path base_url s w' v (
              loads_persisted cfg.state_path s w w'
                (with_key-saved cfg base_url w w' s (sym p ∙ h)))
        | persisted q l k p ↦
            with_persisted-Settled cfg.state_path base_url w w' q s l k (sym p ∙ h)
        | fresh o k l n p ↦
            let (u, e) = without_key-saved o cfg base_url w w' s (sym p ∙ h) in
            Settled-by_file cfg.state_path base_url s w' v (loads_saved cfg.state_path s u w' e)
      ]

  -- After a success, a start with neither key nor token in the configuration finds the same identity,
  -- and changes nothing.
  pub prepare_serve_again :
      (cfg : ServeConfig) (w w' : World) (s : DeviceState)
      → prepare_serve net server disk cfg w ≡ (ok s, w')
      → prepare_serve net server disk (record cfg { device_key = ""; enrollment_token = "" }) w'
        ≡ (ok s, w')
  prepare_serve_again cfg w w' s h =
      found (prepare_serve-Settled cfg w w' s h) (validated cfg w w' s h)
    where
      found :
          Settled cfg.state_path (trim_right_slashes cfg.bifrost_url) s w'
          → validate_bifrost_url net cfg.bifrost_url ≡ ok tt
          → prepare_serve net server disk (record cfg { device_key = ""; enrollment_token = "" }) w'
            ≡ (ok s, w')
      found (q, l, k, p) v =
          unfold prepare_serve in ground (arith, v, l, p, k, eq_iff q.device_key "")
