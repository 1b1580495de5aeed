-- ===== src/Daemon/Serve/Sound.antt =====
-- src/daemon.rs, src/cast.rs, src/media_server.rs: which sound is filtered by ffmpeg.
use unicast.Base.{ℕ, ◌<◌, ◌≡◌, true, false, some, List, Text, is_empty, Option, Platform}
use unicast.Cast.Plan.{ProbeStream, CodecPlan, audio, find_stream}
use unicast.Server.Ffmpeg.{TranscodePlan, ffmpeg_args}
use unicast.Server.Ffmpeg.Filter.{AsksFilter, IsFilter}
use unicast.Daemon.State.{Device, ServePlan}
use unicast.Daemon.Serve.{is_cast, stream_container}

-- The file goes through ffmpeg, with filters on the sound for the gain and for the number of channels;
-- whatever file, start and bit rate ffmpeg is given, it is asked for them, and encodes the sound.
pub record Filtered (gain channels : ℕ) (p : ServePlan) : Type 0 where
  pub plan : TranscodePlan
  pub transcoded : p.transcode ≡ some plan
  pub filter : Text
  pub is_filter : IsFilter gain channels filter
  pub asked :
      (vbitrate : Option Text) (file : Text) (start : Option Text)
      → AsksFilter filter (ffmpeg_args vbitrate file plan start)

-- A Cast receiver would get a sound of more than two channels.
pub record TooWide (device : Device) (streams : List ProbeStream) : Type 0 where
  pub sound : ProbeStream
  pub to_cast : is_cast device.protocol ≡ true
  pub first : find_stream audio streams ≡ some sound
  pub named : is_empty sound.codec_name ≡ false
  pub wide : 2 < sound.channels

module _ (platform : Platform) where
  asked : Device → ℕ → CodecPlan → TranscodePlan
  unfolding stream_container
  asked device boost codec = record {
    vcodec = codec.vcodec;
    acodec = codec.acodec;
    gain_db = boost;
    channels = codec.channels;
    container = stream_container platform device.protocol;
  }
