-- ===== src/Agent/Identity/Laws.antt =====
-- What the agent may rely on once its identity is prepared.
use mathlib.Core.Path.{subst}
use sopdet.Prelude.{
  String, ◌≡◌, ◌≢◌, refl, sym, ◌∙◌, true, false, Option, none, some, ◌=ˢ◌, eq_iff, arith,
  Bool-cases, ◌⊎◌, inl, inr,
}
use sopdet.Prelude.Outcome.{Outcome, ok, err}
use sopdet.Prelude.Text.{trim_right_slashes, trim_right_slashes_idem}
use sopdet.Net.{Net}
use sopdet.Agent.Key.{valid_device_key_format, parse_device_key_id, parse_device_key_id_valid}
use sopdet.Agent.ServeConfig.{ServeConfig}
use sopdet.Agent.Identity.Defs.{
  DeviceState, Disk, Reply, unreachable, World, Server, validate_bifrost_url, load_device_state,
  accept_reply, enroll, ensure_state_writable, with_key, with_persisted, with_token, without_key,
  prepare_serve,
}

-- A key of the frozen format, for this server.
pub record IsPrepared (base_url : String) (s : DeviceState) : Type 0 where
  pub key : valid_device_key_format s.device_key ≡ true
  pub url : s.bifrost_url ≡ base_url

module _ (net : Net) (server : Server) where
  accept_reply-IsPrepared :
      (base_url : String) (r : Reply) {s : DeviceState}
      → accept_reply net server base_url r ≡ ok s
      → IsPrepared (trim_right_slashes base_url) s
  unfolding accept_reply
  accept_reply-IsPrepared base_url unreachable h = ground arith
  accept_reply-IsPrepared base_url _ h = ground arith

  enroll-IsPrepared :
      (base_url token : String) (w : World) (s : DeviceState)
      → (enroll net server base_url token w).0 ≡ ok s
      → IsPrepared (trim_right_slashes base_url) s
  unfolding enroll
  enroll-IsPrepared base_url token w s h =
      accept_reply-IsPrepared base_url (server.reply base_url token) (ground (arith, h))

  module _ (disk : Disk) where
    with_key-IsPrepared :
        (cfg : ServeConfig) (base_url : String) (w : World) (s : DeviceState)
        → (with_key net server disk cfg base_url w).0 ≡ ok s
        → IsPrepared base_url s
    unfolding with_key
    with_key-IsPrepared cfg base_url w s h = from (parse_device_key_id cfg.device_key) refl
      where
        from : (o : Option String) → parse_device_key_id cfg.device_key ≡ o → IsPrepared base_url s
        from none e = absurd (ground (arith, e, h))
        from (some id) e =
            let valid = (parse_device_key_id_valid cfg.device_key id e).0 in
            record { key = ground (arith, e, h, valid); url = ground (arith, e, h) }

    with_persisted-IsPrepared :
        (p : DeviceState) (base_url : String) (w : World) (s : DeviceState)
        → (with_persisted net server disk p base_url w).0 ≡ ok s
        → IsPrepared base_url s
    unfolding with_persisted
    with_persisted-IsPrepared p base_url w s h = record {
      key = ground (arith, h);
      url = ground (arith, h, eq_iff p.bifrost_url base_url);
    }

    with_token-IsPrepared :
        (cfg : ServeConfig) (base_url : String) (w : World) (s : DeviceState)
        → (with_token net server disk cfg base_url w).0 ≡ ok s
        → IsPrepared (trim_right_slashes base_url) s
    unfolding with_token
    with_token-IsPrepared cfg base_url w s h =
        enroll-IsPrepared base_url cfg.enrollment_token w s (ground (arith, h))

    without_key-IsPrepared :
        (loaded : Outcome DeviceState) (cfg : ServeConfig) (base_url : String) (w : World)
        (s : DeviceState)
        → (without_key net server disk loaded cfg base_url w).0 ≡ ok s
        → IsPrepared (trim_right_slashes base_url) s
    without_key-IsPrepared loaded cfg base_url w s h =
        with_token-IsPrepared cfg base_url w s (unfold without_key in ground (arith, h))

    -- Which part of `PrepareServe` decides.
    pub data Route (cfg : ServeConfig) (w : World) : Type 0 where
      refused : (e : String) → prepare_serve net server disk cfg w ≡ (err e, w) → Route cfg w
      keyed :
          cfg.device_key ≢ ""
          → prepare_serve net server disk cfg w
            ≡ with_key net server disk cfg (trim_right_slashes cfg.bifrost_url) w
          → Route cfg w
      persisted :
          (p : DeviceState)
          → load_device_state cfg.state_path w.stored ≡ ok p
          → p.device_key ≢ ""
          → prepare_serve net server disk cfg w
            ≡ with_persisted net server disk p (trim_right_slashes cfg.bifrost_url) w
          → Route cfg w
      fresh :
          (loaded : Outcome DeviceState)
          → cfg.device_key ≡ ""
          → load_device_state cfg.state_path w.stored ≡ loaded
          → ((p : DeviceState) → loaded ≡ ok p → p.device_key ≡ "")
          → prepare_serve net server disk cfg w
            ≡ without_key net server disk loaded cfg (trim_right_slashes cfg.bifrost_url) w
          → Route cfg w

    pub route : (cfg : ServeConfig) (w : World) → Route cfg w
    unfolding prepare_serve
    route cfg w = validated (validate_bifrost_url net cfg.bifrost_url) refl
      where
        loaded :
            (u : Unit {0}) (o : Outcome DeviceState)
            → validate_bifrost_url net cfg.bifrost_url ≡ ok u
            → (cfg.device_key =ˢ "") ≡ true
            → load_device_state cfg.state_path w.stored ≡ o
            → Route cfg w
        loaded u (err x) v k e =
            fresh (err x) (ground (arith, k, eq_iff cfg.device_key "")) e (λ p q. cc q)
              (ground (arith, v, k, e))
        loaded u (ok p) v k e = elim (Bool-cases (p.device_key =ˢ "")) [
          | inl none_yet ↦
              fresh (ok p) (ground (arith, k, eq_iff cfg.device_key "")) e
                (λ q same. ground (arith, same, none_yet, eq_iff p.device_key ""))
                (ground (arith, v, k, e, none_yet))
          | inr has_key ↦
              persisted p e (λ z. ground (arith, z, has_key, eq_iff p.device_key ""))
                (ground (arith, v, k, e, has_key))
        ]

        validated :
            (o : Outcome (Unit {0})) → validate_bifrost_url net cfg.bifrost_url ≡ o → Route cfg w
        validated (err x) v = refused x (ground (arith, v))
        validated (ok u) v = elim (Bool-cases (cfg.device_key =ˢ "")) [
          | inl k ↦ loaded u (load_device_state cfg.state_path w.stored) v k refl
          | inr k ↦
              keyed (λ z. ground (arith, z, k, eq_iff cfg.device_key "")) (ground (arith, v, k))
        ]

    -- Whichever way the identity is found, its key has the format of a device key, and it belongs to
    -- the URL of the configuration without its trailing slashes.
    pub prepare_serve-IsPrepared :
        (cfg : ServeConfig) (w : World) (s : DeviceState)
        → (prepare_serve net server disk cfg w).0 ≡ ok s
        → IsPrepared (trim_right_slashes cfg.bifrost_url) s
    prepare_serve-IsPrepared cfg w s h = elim (route cfg w) [
      | refused e p ↦ absurd (ground (arith, p, h))
      | keyed k p ↦ with_key-IsPrepared cfg _ w s (rw p at h)
      | persisted q l k p ↦ with_persisted-IsPrepared q _ w s (rw p at h)
      | fresh o k l n p ↦
          subst (λ u. IsPrepared u s) (trim_right_slashes_idem cfg.bifrost_url)
            (without_key-IsPrepared o cfg _ w s (rw p at h))
    ]

    with_key-spent :
        (cfg : ServeConfig) (base_url : String) (w : World)
        → (with_key net server disk cfg base_url w).1.spent ≡ w.spent
    unfolding with_key
    with_key-spent cfg base_url w = ground arith

    with_persisted-spent :
        (p : DeviceState) (base_url : String) (w : World)
        → (with_persisted net server disk p base_url w).1.spent ≡ w.spent
    unfolding with_persisted
    with_persisted-spent p base_url w = ground arith

    without_key-spent :
        (loaded : Outcome DeviceState) (cfg : ServeConfig) (base_url : String) (w : World)
        → disk.can_probe ≡ false
        → (without_key net server disk loaded cfg base_url w).1.spent ≡ w.spent
    unfolding without_key with_token ensure_state_writable
    without_key-spent loaded cfg base_url w h = ground arith

    -- There is a configured or a persisted key, or the probe of the state directory fails.
    abbrev pub MustNotEnroll : ServeConfig → World → Type 0
    MustNotEnroll cfg w =
        (cfg.device_key ≢ "")
        ⊎ ((p : DeviceState) × (load_device_state cfg.state_path w.stored ≡ ok p)
            × (p.device_key ≢ ""))
        ⊎ (disk.can_probe ≡ false)

    -- `PrepareServe` does not send the single-use token while a key is configured or persisted, or if the probe of the
    -- state directory fails.
    pub prepare_serve_keeps_token :
        (cfg : ServeConfig) (w : World)
        → MustNotEnroll cfg w
        → (prepare_serve net server disk cfg w).1.spent ≡ w.spent
    prepare_serve_keeps_token cfg w m = elim (route cfg w) [
      | refused e p ↦ rw p
      | keyed k p ↦ rw p (with_key-spent cfg _ w)
      | persisted q l k p ↦ rw p (with_persisted-spent q _ w)
      | fresh o k l n p ↦ elim m [
        | inl has_key ↦ absurd (has_key k)
        | inr (inl (q, e, has_key)) ↦ absurd (has_key (n q (sym l ∙ e)))
        | inr (inr no_room) ↦ rw p (without_key-spent o cfg _ w no_room)
      ]
    ]
