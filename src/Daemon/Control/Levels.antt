-- ===== src/Daemon/Control/Levels.antt =====
-- src/daemon.rs: what `set_volume` and `set_mute` do, on every branch.
use unicast.Base.{
  ◌⊎◌, arith, ℕ, ◌≡◌, refl, ap, Bool, true, false, Option, none, some, [], ◌∷◌, ◌++◌, Text,
  Platform, Bool-cases, inl, inr,
}
use unicast.Daemon.State.{
  Daemon, Session, Protocol, cast, dlna, airplay, unknown, Effect, CastCommand, Message, Response,
  is_active,
}
use unicast.Daemon.Env.{Env, Checked, good, bad, emit, status_of}
use unicast.Daemon.Serve.{parse_percent, parse_bool}
use unicast.Daemon.Control.{
  command_cast, ask_renderer, volume_by, mute_by, conclude, while_active, change_volume,
  change_mute, set_volume, set_mute, rendering_of,
}

module _ {F : Type 0} where
  -- The state holds the same session and receiver, and the same settings.
  pub record Untouched (d e : Daemon F) : Type 0 where
    pub same_session : e.session ≡ d.session
    pub same_active : e.active ≡ d.active
    pub same_settings : e.settings ≡ d.settings

  -- What tells the receiver of the session: the command, to the thread of a Cast session, or the
  -- request, to the renderer of a DLNA session that has a volume service and takes it.
  pub data Told (command : CastCommand F) (request : Text → Effect F) (accepted : Bool)
      (d : Daemon F) : Effect F → Type 0 where
    to_cast :
        (thread : ℕ)
        → d.session.protocol ≡ cast
        → d.active.cast ≡ some thread
        → Told command request accepted d (Effect.cast_command command)
    to_renderer :
        (rendering : Text)
        → d.session.protocol ≡ dlna
        → rendering_of d.active.dlna ≡ some rendering
        → accepted ≡ true
        → Told command request accepted d (request rendering)

  -- A request that failed, or one that the receiver took.
  data Asked (Tells : Effect F → Type 0) (d : Daemon F)
      : Daemon F × Checked (Unit {0}) → Type 0 where
    failed :
        (m : Message) {e : Daemon F}
        → ((effect : Effect F) → Tells effect → ⊥)
        → Untouched d e
        → Asked Tells d (e, bad m)
    taken :
        (effect : Effect F) {e : Daemon F} {x : Unit {0}}
        → Tells effect
        → Untouched d e
        → e.effects ≡ d.effects ++ effect ∷ []
        → Asked Tells d (e, good x)

  -- Refused, with the session as it was; or told to the receiver, and then shown in the session.
  pub data Level (Tells : Effect F → Type 0) (update : Session F → Session F) (d : Daemon F)
      : Daemon F × Response F → Type 0 where
    refused :
        (m : Message) {e : Daemon F}
        → ((effect : Effect F) → Tells effect → is_active d.session.state ≡ true → ⊥)
        → Untouched d e
        → Level Tells update d (e, Response.error_response m)
    told :
        (effect : Effect F) {e : Daemon F}
        → Tells effect
        → is_active d.session.state ≡ true
        → e.session ≡ update d.session
        → e.active ≡ d.active
        → e.effects ≡ d.effects ++ effect ∷ []
        → Level Tells update d (e, Response.status (status_of e))

  untouched : (d : Daemon F) → Untouched d d
  untouched d = record { same_session = refl; same_active = refl; same_settings = refl }

  module _ (command : CastCommand F) (request : Text → Effect F) (accepted : Bool)
      (d : Daemon F) where
    no_thread :
        {effect : Effect F}
        → d.session.protocol ≡ cast
        → d.active.cast ≡ none
        → Told command request accepted d effect
        → ⊥
    no_thread p held (to_cast thread q h) = cc (held, h)
    no_thread p held (to_renderer rendering q h a) = cc (p, q)

    no_renderer :
        {effect : Effect F}
        → d.session.protocol ≡ dlna
        → (rendering_of d.active.dlna ≡ none) ⊎ (accepted ≡ false)
        → Told command request accepted d effect
        → ⊥
    no_renderer p missing (to_cast thread q h) = cc (p, q)
    no_renderer p (inl missing) (to_renderer rendering q h a) = cc (missing, h)
    no_renderer p (inr refuses) (to_renderer rendering q h a) = cc (refuses, a)

    no_receiver :
        {effect : Effect F}
        → (d.session.protocol ≡ cast → ⊥)
        → (d.session.protocol ≡ dlna → ⊥)
        → Told command request accepted d effect
        → ⊥
    no_receiver c r (to_cast thread q h) = c q
    no_receiver c r (to_renderer rendering q h a) = r q

    command_cast-Asked :
        (thread : Option ℕ)
        → d.session.protocol ≡ cast
        → d.active.cast ≡ thread
        → Asked (Told command request accepted d) d (command_cast command thread d)
    unfolding command_cast emit
    command_cast-Asked none p held = failed _ (λ effect tells. no_thread p held tells) (untouched d)
    command_cast-Asked (some thread) p held =
        taken (Effect.cast_command command) (to_cast thread p held)
          (record { same_session = refl; same_active = refl; same_settings = refl }) refl

    ask_renderer-Asked :
        (refusal : Message) (rendering : Option Text)
        → d.session.protocol ≡ dlna
        → rendering_of d.active.dlna ≡ rendering
        → (b : Bool) → accepted ≡ b
        → Asked (Told command request accepted d) d (ask_renderer request b refusal rendering d)
    unfolding ask_renderer emit
    ask_renderer-Asked refusal none p held b a =
        failed _ (λ effect tells. no_renderer p (inl held) tells) (untouched d)
    ask_renderer-Asked refusal (some rendering) p held true a =
        taken (request rendering) (to_renderer rendering p held a)
          (record { same_session = refl; same_active = refl; same_settings = refl }) refl
    ask_renderer-Asked refusal (some rendering) p held false a =
        failed refusal (λ effect tells. no_renderer p (inr a) tells)
          (record { same_session = refl; same_active = refl; same_settings = refl })

  abbrev pub TellsVolume : Env F → ℕ → Daemon F → Effect F → Type 0
  TellsVolume env level d effect =
      Told (CastCommand.set_volume level) (λ rendering. Effect.dlna_set_volume rendering level)
        env.volume_accepted d effect

  abbrev pub TellsMute : Env F → Bool → Daemon F → Effect F → Type 0
  TellsMute env muted d effect =
      Told (CastCommand.set_mute muted) (λ rendering. Effect.dlna_set_mute rendering muted)
        env.mute_accepted d effect

  volume_by-Asked :
      (env : Env F) (level : ℕ) (d : Daemon F) (protocol : Protocol)
      → d.session.protocol ≡ protocol
      → Asked (TellsVolume env level d) d (volume_by env level protocol d)
  unfolding volume_by
  volume_by-Asked env level d cast p = command_cast-Asked _ _ _ d d.active.cast p refl
  volume_by-Asked env level d dlna p =
      ask_renderer-Asked _ _ _ d _ (rendering_of d.active.dlna) p refl env.volume_accepted refl
  volume_by-Asked env level d airplay p =
      failed _ (λ effect tells. no_receiver _ _ _ d (λ q. cc (p, q)) (λ q. cc (p, q)) tells)
        (untouched d)
  volume_by-Asked env level d (unknown other) p =
      failed _ (λ effect tells. no_receiver _ _ _ d (λ q. cc (p, q)) (λ q. cc (p, q)) tells)
        (untouched d)

  mute_by-Asked :
      (env : Env F) (muted : Bool) (d : Daemon F) (protocol : Protocol)
      → d.session.protocol ≡ protocol
      → Asked (TellsMute env muted d) d (mute_by env muted protocol d)
  unfolding mute_by
  mute_by-Asked env muted d cast p = command_cast-Asked _ _ _ d d.active.cast p refl
  mute_by-Asked env muted d dlna p =
      ask_renderer-Asked _ _ _ d _ (rendering_of d.active.dlna) p refl env.mute_accepted refl
  mute_by-Asked env muted d airplay p =
      failed _ (λ effect tells. no_receiver _ _ _ d (λ q. cc (p, q)) (λ q. cc (p, q)) tells)
        (untouched d)
  mute_by-Asked env muted d (unknown other) p =
      failed _ (λ effect tells. no_receiver _ _ _ d (λ q. cc (p, q)) (λ q. cc (p, q)) tells)
        (untouched d)

  conclude-Level :
      (Tells : Effect F → Type 0) (update : Session F → Session F) (d : Daemon F)
      (r : Daemon F × Checked (Unit {0}))
      → is_active d.session.state ≡ true
      → Asked Tells d r
      → Level Tells update d (conclude update r)
  unfolding conclude
  conclude-Level Tells update d (e, bad m) active (failed _ deaf same) =
      refused m (λ effect tells on. deaf effect tells) same
  conclude-Level Tells update d (e, good x) active (taken effect tells same sent) =
      told effect tells active (ap update same.same_session) same.same_active sent

  while_active-Level :
      (Tells : Effect F → Type 0) (update : Session F → Session F) (d : Daemon F)
      (r : Daemon F × Response F)
      → (is_active d.session.state ≡ true → Level Tells update d r)
      → Level Tells update d (while_active r d)
  unfolding while_active
  while_active-Level Tells update d r h = elim (Bool-cases (is_active d.session.state)) [
    | inl active ↦ rw active (h active)
    | inr over ↦ rw over (refused _ (λ effect tells on. absurd (ground arith)) (untouched d))
  ]

  change_mute-Level :
      (env : Env F) (muted : Bool) (d : Daemon F)
      → Level
          (TellsMute env muted d)
          (λ session. record session { muted = muted })
          d
          (change_mute env (some muted) d)
  unfolding change_mute
  change_mute-Level env muted d =
      while_active-Level _ _ d _
        λ active. conclude-Level _ _ d _ active (mute_by-Asked env muted d d.session.protocol refl)

  -- Muting, with a value that is read: it is refused, and session, receiver and settings are as they
  -- were; or the session is running, the receiver was told once, and the session shows the new value
  -- and differs in nothing else.
  pub set_mute-Level :
      (env : Env F) (value : Text) (muted : Bool) (d : Daemon F)
      → parse_bool value ≡ some muted
      → Level
          (TellsMute env muted d)
          (λ session. record session { muted = muted })
          d
          (set_mute env value d)
  unfolding set_mute
  set_mute-Level env value muted d read = simp read (change_mute-Level env muted d)

module _ (platform : Platform) where
  open platform use {F64}

  change_volume-Level :
      (env : Env F64) (level : ℕ) (d : Daemon F64)
      → Level
          (TellsVolume env level d)
          (λ session. record session { volume = some level })
          d
          (change_volume platform env (some level) d)
  unfolding change_volume
  change_volume-Level env level d =
      while_active-Level _ _ d _ λ active.
        conclude-Level _ _ d _ active (volume_by-Asked env level d d.session.protocol refl)

  -- Setting the volume, with a value that is read: it is refused, and session, receiver and settings
  -- are as they were; or the session is running, the receiver was told once, and the session shows
  -- the new level and differs in nothing else.
  pub set_volume-Level :
      (env : Env F64) (value : Text) (level : ℕ) (d : Daemon F64)
      → parse_percent platform value ≡ some level
      → Level
          (TellsVolume env level d)
          (λ session. record session { volume = some level })
          d
          (set_volume platform env value d)
  unfolding set_volume
  set_volume-Level env value level d read = simp read (change_volume-Level env level d)

  -- Setting the volume and muting, each with a value that is read: where the session is running and
  -- has a Cast thread, or a DLNA renderer with a volume service that takes the request, that one is
  -- sent the value, nothing else is done, and the session shows the new level, or whether it is
  -- muted, and differs in nothing else. In all other cases the request is refused, and session,
  -- receiver and settings are as they were.
  pub levels_told :
      (env : Env F64) (value word : Text) (level : ℕ) (muted : Bool) (d : Daemon F64)
      → parse_percent platform value ≡ some level
      → parse_bool word ≡ some muted
      → Level
          (TellsVolume env level d)
          (λ session. record session { volume = some level })
          d
          (set_volume platform env value d)
        × Level
            (TellsMute env muted d)
            (λ session. record session { muted = muted })
            d
            (set_mute env word d)
  levels_told env value word level muted d read heard =
      (set_volume-Level env value level d read, set_mute-Level env word muted d heard)
