-- ===== src/Cast/Thread/Start.antt =====
-- src/cast.rs: how the thread starts: the connection, `handshake`, and what `connect` answers.
pub mod Fresh
use unicast.Base.{
  ℕ, Bool, true, false, Option, none, some, List, [], ◌∷◌, ◌++◌, Text, codes, if◌then◌else◌,
  u32_max, ◌≡◌, refl, Platform,
}
use unicast.Daemon.State.{Session}
use unicast.Daemon.Poll.{Entry}
use unicast.Cast.Load.{
  CastOptions, Result, done, failed, Replies, context, attempt, load_media, ◌>>=◌, ◌>>◌,
}
use unicast.Cast.Thread.{Thread, Sent, Volume, first_media_session}
use unicast.Cast.Thread.Commands.{publish_status, publish_answer}

-- The errors of the calls that set the connection up, where they fail, and the launched application.
pub record Setup (F : Type 0) : Type 0 where
  pub resolves : Bool
  pub tcp_error : Option Text
  pub clone_error : Option Text
  pub timeout_error : Option Text
  pub name_error : Option Text
  pub tls_error : Option Text
  pub connect_error : Option Text
  pub ping_error : Option Text
  pub launch_error : Option Text
  pub app_connect_error : Option Text
  pub app_session : Text
  pub app_transport : Text
  pub replies : Replies F
  pub volume : Option (Volume F)
  pub poll_timeout_error : Option Text

-- What `run_session` is called with.
pub record Job (F : Type 0) : Type 0 where
  pub host : Text
  pub url : Text
  pub title : Text
  pub session_id : ℕ
  pub options : CastOptions F

pub data Ready : Type 0 where
  answered : Result (Unit {0}) → Ready
  dropped timed_out : Ready

-- `connect`: its answer, and whether it asks a late thread to shut down.
unfoldable pub connect : Option Text → Ready → Result (Unit {0}) × Bool
connect (some m) ready = (failed (codes "could not start cast thread: " ++ m), false)
connect none (answered r) = (r, false)
connect none dropped = (failed (codes "The cast session terminated unexpectedly"), false)
connect none timed_out = (failed (codes "Timed out connecting to the receiver"), true)

module _ {F : Type 0} where
  -- The connection to the receiver.
  unfoldable pub open_channel : Text → Setup F → Result (Unit {0})
  open_channel host setup =
      (if setup.resolves then done tt else failed (codes "invalid cast host: " ++ host))
      >> context (codes "Chromecast at " ++ host ++ codes " not reachable: ")
          (attempt setup.tcp_error)
      >> context (codes "could not prepare cast socket: ") (attempt setup.clone_error)
      >> context (codes "could not configure cast socket: ") (attempt setup.timeout_error)
      >> context (codes "invalid cast host: ") (attempt setup.name_error)
      >> context (codes "TLS setup failed: ") (attempt setup.tls_error)

module _ (platform : Platform) where
  open platform use {F64, zero_seconds}

  unfoldable pub first_load : Job F64 → Setup F64 → Sent F64 × Result (List (Entry F64))
  unfolding load_media
  first_load job setup =
      let (request, loaded) =
        load_media platform setup.replies setup.app_session job.url job.title job.options
          zero_seconds zero_seconds in
      (Sent.json request, loaded)

  unfoldable pub handshake : Job F64 → Setup F64 → Result (List (Entry F64))
  unfolding first_load
  handshake job setup =
      context (codes "cast handshake failed: ") (attempt setup.connect_error)
      >> context (codes "cast handshake failed: ") (attempt setup.ping_error)
      >> context (codes "the receiver rejected the session: ") (attempt setup.launch_error)
      >> context (codes "cast handshake failed: ") (attempt setup.app_connect_error)
      >> context (codes "the receiver could not load the media: ") (first_load job setup).1

  unfoldable pub loaded_thread : Job F64 → Setup F64 → Session F64 → List (Entry F64) → Thread F64
  unfolding first_load first_media_session
  loaded_thread job setup session entries = record {
    session_id = job.session_id;
    app_session = setup.app_session;
    title = job.title;
    content_url = job.url;
    options = job.options;
    position_offset = zero_seconds;
    media_session_id = first_media_session entries 0;
    consecutive_errors = 0;
    polls = 0;
    running = true;
    ending = none;
    session = session;
    sent =
        Sent.connect (codes "receiver-0")
        ∷ Sent.ping
        ∷ Sent.launch_app
        ∷ Sent.connect setup.app_transport
        ∷ (first_load job setup).0
        ∷ Sent.get_volume
        ∷ [];
  }

  -- The first status is about the media session -1, which none is.
  unfoldable pub started : Job F64 → Setup F64 → Session F64 → List (Entry F64) → Thread F64
  unfolding loaded_thread publish_status publish_answer
  started job setup session entries =
      publish_answer platform setup.volume
        (publish_status platform u32_max entries (loaded_thread job setup session entries))

  -- What the thread tells `connect`.
  unfoldable pub ready_result : Job F64 → Setup F64 → Result (List (Entry F64))
  unfolding open_channel handshake
  ready_result job setup = open_channel job.host setup >> handshake job setup

  -- `run_session` up to its loop.
  unfoldable pub start : Job F64 → Setup F64 → Session F64 → Result (Thread F64)
  unfolding ready_result started
  start job setup session = ready_result job setup >>= λ entries.
      context (codes "could not configure cast socket: ") (attempt setup.poll_timeout_error)
      >> done (started job setup session entries)
