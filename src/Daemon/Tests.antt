-- ===== src/Daemon/Tests.antt =====
-- src/daemon.rs at concrete inputs, where a number of seconds is a natural number.
use unicast.Base.{
  ◌≡◌, ◌≢◌, ◌↔◌, ◌⊎◌, In, print_nat, parse_digits, split, trim, is_whitespace, refl, arith, zero,
  suc, replicate, ℕ, some, none, codes, [], ◌∷◌, true, false,
}
use unicast.Sample.{platform}
use unicast.Daemon.Sample.{env, tv}
use unicast.Daemon.State.{Daemon, Device, cast, default_session, SessionState}
use unicast.Daemon.Request.{Request}
use unicast.Daemon.Connect.{connect}
use unicast.Daemon.Connect.Ending.{Ending, connect-Ending}
use unicast.Daemon.Dispatch.{dispatch}
use unicast.Daemon.Owner.{IsValid}
use unicast.Daemon.Poll.{Poller, Reading}
use unicast.Daemon.Poll.Watchdog.{poll, Failed, AllSilent, poll_silent}
use unicast.Cast.Plan.{ProbeStream}
use unicast.Net.{valid_receiver_ip, parse_ipv4, show_ipv4}
use unicast.Daemon.Stored.{add_ip, remove_ip}
use unicast.Daemon.Stored.Addresses.{ips_stored}
use unicast.Daemon.Run.{here, next, request, new, Run-new-IsValid}

abbrev cast_film : Request ℕ
cast_film = record {
  cmd = codes "connect";
  ip = codes "192.168.50.20";
  file = codes "/films/film.mkv";
  value = [];
  position = none;
  force = false;
}

connected : Daemon ℕ
connected = (dispatch platform env cast_film (new 0 [] [] [])).0

Run-new-IsValid_example : IsValid connected
unfolding connected
Run-new-IsValid_example =
    Run-new-IsValid platform [] [] [] {d = (dispatch platform env cast_film (new 0 [] [] [])).0}
      (next here (request env cast_film (new 0 [] [] [])))

connect-Ending_example :
    Ending 0
      (new 0 [] [] [])
      (connect platform env (codes "192.168.50.20") (codes "/films/film.mkv") (new 0 [] [] []))
connect-Ending_example =
    connect-Ending platform env (codes "192.168.50.20") (codes "/films/film.mkv") (new 0 [] [] [])
      (Run-new-IsValid platform [] [] [] here)

abbrev poller : Poller
poller = record { session_id = 7; rendering = true; seen_active = true; ticks = 0; unreachable = 0 }

abbrev no_answer : Reading ℕ
no_answer = record {
  transport = codes "UNKNOWN";
  duration = none;
  position = none;
  volume = none;
  muted = none;
  offset = 0;
  grace_over = true;
}

abbrev playing_daemon : Daemon ℕ
playing_daemon = record (new 0 [] [] []) {
  session = record (default_session 0) { session_id = 7; state = SessionState.playing };
}

silent_readings : (n : ℕ) → AllSilent platform (replicate n no_answer)
silent_readings zero = record {}
silent_readings (suc n) = (refl, silent_readings n)

poll_silent_example :
    Failed platform playing_daemon poller
      (poll platform poller (replicate 20 no_answer) playing_daemon)
poll_silent_example =
    poll_silent platform poller (replicate 20 no_answer) playing_daemon refl (omega arith)
      (silent_readings 20) (omega arith)

trimmed : valid_receiver_ip (codes " 192.168.50.20") ≡ some (codes "192.168.50.20")
unfolding valid_receiver_ip parse_ipv4 show_ipv4 parse_digits print_nat split trim is_whitespace
trimmed = refl

abbrev with_address : Daemon ℕ
with_address = new 0 [] (codes "192.168.50.20" ∷ []) []

ips_stored_example :
    (In
        (codes "192.168.50.20")
        (add_ip platform env (codes " 192.168.50.20") with_address).0.manual_ips
      ↔ (In (codes "192.168.50.20") with_address.manual_ips
          ⊎ (codes "192.168.50.20" ≡ codes "192.168.50.20")))
    × (In
          (codes "192.168.50.20")
          (remove_ip platform env (codes "192.168.50.30") with_address).0.manual_ips
        ↔ (In (codes "192.168.50.20") with_address.manual_ips
            × (codes "192.168.50.20" ≢ codes "192.168.50.30")))
ips_stored_example =
    ips_stored platform env (codes " 192.168.50.20") (codes "192.168.50.20") (codes "192.168.50.30")
      (codes "192.168.50.30") (codes "192.168.50.20") with_address refl trimmed refl

abbrev chromecast : Device
chromecast = record tv { protocol = cast; model = codes "Chromecast" }

abbrev surround : ProbeStream
surround = record { codec_type = codes "audio"; codec_name = codes "aac"; level = 0; channels = 6 }
