-- ===== src/Server/Handle/Tests.antt =====
-- src/media_server.rs: requests to a server.
use unicast.Base.{
  ◌≡◌, refl, ap, ℕ, ◌≢◌, ◌⊎◌, inl, inr, true, none, some, [], ◌∷◌, codes, arith, strip_suffix,
  parse_uint,
}
use unicast.Server.{forbidden, header, plain, slice, mpeg_ts}
use unicast.Server.Live
use unicast.Server.Request.{Config, Request, World, State, IpAddr, v4, v6, get, vtt, srt}
use unicast.Server.Handle.{handle, head_response, get_response, subtitle_response, subtitle_track}
use unicast.Server.Handle.Admission.{IsAdmitted, handle_refuses, handle_starts}
use unicast.Server.Handle.Answers.{
  SameHead, head_response-SameHead, subtitle_response_failed, handle_all,
}
use unicast.Subtitles.{SubtitleTrack, embedded}
use unicast.Sample.{platform}

abbrev tv : IpAddr
tv = v4 (record { a = 192; b = 168; c = 50; d = 20 })

abbrev stranger : IpAddr
stranger = v4 (record { a = 192; b = 168; c = 50; d = 66 })

abbrev last_octet : IpAddr → ℕ
last_octet (v4 x) = x.d
last_octet (v6 n) = n

abbrev english : SubtitleTrack
english = record { id = 1; label = codes "English"; language = codes "en"; source = embedded 2 }

abbrev direct : Config
direct = record {
  token = codes "abc";
  allow = tv ∷ [];
  transcode = none;
  content_type = codes "video/mp4";
  subtitles = english ∷ [];
  base_url = codes "http://192.168.50.10:60020/abc";
}

abbrev transcoding : Config
transcoding = record direct {
  transcode = some (record {
    vcodec = codes "copy";
    acodec = codes "aac";
    gain_db = 0;
    channels = 6;
    container = mpeg_ts;
  });
}

abbrev world : World
world = record {
  disk = record { size = some 1000; opens = true; seeks = true };
  spawns = true;
  ensure_vtt = λ track. none;
}

abbrev state : State
state = record { streams = Live.start; failed_subtitles = [] }

abbrev request : IpAddr → Request
request peer = record {
  peer = peer;
  token = codes "abc";
  rest = codes "stream.ts";
  method = get;
  headers = [];
  query = some (codes "start=30");
}

handle_refuses_example : handle platform direct world (request stranger) state ≡ (state, forbidden)
handle_refuses_example =
    handle_refuses platform direct world (request stranger) state
      (omega arith, (omega arith, (omega arith, record {})))
      (omega arith, (omega arith, (omega arith, record {}))) unknown
  where
    differ : ◌≢◌ {A = ℕ} 66 20
    differ e = omega arith

    unknown : ¬ IsAdmitted direct (request stranger)
    unknown (inl e, t) = differ (ap last_octet e)
    unknown (inr i, t) = i

handle_starts_example :
    let t = (handle platform transcoding world (request tv) state).0 in
    (t.streams ≡ state.streams)
    ⊎ ((t.streams ≡ Live.step state.streams Live.admit)
        × (get ≡ get)
        × (transcoding.transcode ≢ none)
        × IsAdmitted transcoding (request tv))
handle_starts_example =
    handle_starts platform transcoding world (request tv) state
      (omega arith, (omega arith, (omega arith, record {})))
      (omega arith, (omega arith, (omega arith, record {})))

head_response-SameHead_example :
    SameHead (head_response direct world) (get_response direct world state []).1
    × ((get_response direct world state []).1.body ≡ slice 0 1000)
head_response-SameHead_example =
    head_response-SameHead direct world state [] 1000 refl refl refl refl (omega arith)
      (unfold header in refl)

as_vtt : subtitle_track direct (codes "1.vtt") ≡ some (english, vtt)
unfolding subtitle_track strip_suffix parse_uint
as_vtt = refl

as_srt : subtitle_track direct (codes "1.srt") ≡ some (english, srt)
unfolding subtitle_track strip_suffix parse_uint
as_srt = refl

abbrev converting : World
converting = record world { ensure_vtt = λ track. some (record { size = some 5; content = none }) }

subtitle_response_failed_example :
    let t =
      handle_all platform direct
        ((converting, request tv) ∷ [])
        (subtitle_response platform direct world (codes "1.vtt") none state).0 in
    subtitle_response platform direct converting (codes "1.srt") (some 3) t ≡ (t, plain 404)
subtitle_response_failed_example =
    subtitle_response_failed platform direct world converting (codes "1.vtt") (codes "1.srt") none
      (some 3) state ((converting, request tv) ∷ []) english vtt srt as_vtt as_srt refl
