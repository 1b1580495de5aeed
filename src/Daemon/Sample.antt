-- ===== src/Daemon/Sample.antt =====
-- What the daemon learns from outside at concrete inputs: a DLNA television is found, and ufw is off.
use unicast.Base.{ℕ, some, none, codes, [], ◌∷◌, true, false}
use unicast.Firewall.Open.{Ufw}
use unicast.Daemon.State.{Device, dlna}
use unicast.Daemon.Env.{Env}

abbrev pub tv : Device
tv = record {
  name = codes "TV";
  host = codes "tv.local";
  ip = codes "192.168.50.20";
  port = 0;
  protocol = dlna;
  model = [];
  id = codes "dlna:tv";
  control_url = some (codes "http://192.168.50.20:9197/control");
  rendering_url = some (codes "http://192.168.50.20:9197/rendering");
  alternates = [];
}

abbrev ufw : Ufw
ufw = record { active = false; decode = λ s. s; user_rules = none; run_output = λ args. none }

abbrev pub env : Env ℕ
env = record {
  home = codes "/home/user";
  cast_port = 60020;
  player_path = none;
  opens = λ path. true;
  probe = λ path. [];
  route = λ ip. some (record { a = 192; b = 168; c = 50; d = 10 });
  discovered = λ manual multicast. tv ∷ [];
  cache_fresh = true;
  probed = none;
  random_token = codes "abc";
  media_duration = some 60000;
  tracks = [];
  ufw = ufw;
  server_error = none;
  cast_error = none;
  cast_retry_error = none;
  play_error = none;
  airplay_error = none;
  keyframe_at_or_before = λ t. some t;
  volume_accepted = true;
  mute_accepted = true;
  saves = true;
  parse_ip = λ s. some s;
  has_ffmpeg = true;
  has_ffprobe = true;
}
