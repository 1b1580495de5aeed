-- ===== src/Cast/Plan/Sound.antt =====
-- src/cast.rs: the sound that `plan_transcode` asks for.
use unicast.Base.{
  ℕ, ◌<◌, ◌≡◌, refl, Bool, true, false, ◌&&◌, leb, some, List, [], ◌∷◌, Text, codes, arith,
  is_empty, mem_text,
}
use unicast.Cast.Plan.{
  ProbeStream, audio, find_stream, plan_transcode, cast_audio_codec, audio_name, audio_channels,
}

pub and_false : (b : Bool) → (b && false) ≡ false
and_false true = refl
and_false false = refl

audio_codec_wide :
    (name : Text) (channels : ℕ)
    → is_empty name ≡ false
    → 2 < channels
    → cast_audio_codec name channels ≡ codes "aac"
unfolding cast_audio_codec
audio_codec_wide name channels named wide =
    let over : leb channels 2 ≡ false = ground arith in
    simp (named, over, and_false (mem_text name (codes "aac" ∷ codes "mp3" ∷ []))) refl

-- A sound of more than two channels is encoded again, and the plan knows of its channels.
pub plan_transcode_wide :
    (to_lowercase : Text → Text) (streams : List ProbeStream) (model name : Text)
    (sound : ProbeStream)
    → find_stream audio streams ≡ some sound
    → is_empty sound.codec_name ≡ false
    → 2 < sound.channels
    → let plan = plan_transcode to_lowercase streams model name in
      (plan.acodec ≡ codes "aac") × (plan.channels ≡ sound.channels)
unfolding plan_transcode audio_name audio_channels
plan_transcode_wide to_lowercase streams model name sound first named wide =
    rw first (audio_codec_wide sound.codec_name sound.channels named wide, refl)
