-- ===== src/Subtitles/Discover/Tests.antt =====
-- src/subtitles.rs, src/media_server.rs: the tracks of a file with one embedded stream.
use unicast.Base.{
  ◌≤◌, ◌≡◌, refl, some, none, [], ◌∷◌, ◌++◌, codes, length, get_elem?, print_nat, mem_text, eq_text,
  trim, trim_start, trim_end, is_whitespace,
}
use unicast.Sample.{platform}
use unicast.Subtitles.{SubtitleTrack}
use unicast.Subtitles.Discover.{
  Surroundings, discover, candidates, sidecars_of, embedded_of, text_stream, number_from, track_of,
  max_tracks,
}
use unicast.Server.Request.{Config, vtt, srt}
use unicast.Server.Handle.{subtitle_track}
use unicast.Server.Handle.Tracks.{subtitle_track-discover}

abbrev around : Surroundings
around = record {
  parent = none;
  list_dir = λ dir. none;
  streams =
      record { codec_name = codes "subrip"; index = some 2; language = codes "eng"; title = [] }
      ∷ [];
}

abbrev config : Config
config = record {
  token = codes "abc";
  allow = [];
  transcode = none;
  content_type = codes "video/mp4";
  subtitles = discover platform around (codes "/film.mkv");
  base_url = codes "http://192.168.50.10:60020/abc";
}

first_track :
    (t : SubtitleTrack) × (get_elem? (discover platform around (codes "/film.mkv")) 0 ≡ some t)
unfolding discover candidates sidecars_of embedded_of text_stream number_from track_of mem_text
    eq_text trim trim_end trim_start is_whitespace
first_track = (_, refl)

subtitle_track-discover_example :
    (length config.subtitles ≤ max_tracks)
    × (subtitle_track config (print_nat first_track.0.id ++ codes ".vtt")
        ≡ some (first_track.0, vtt))
    × (subtitle_track config (print_nat first_track.0.id ++ codes ".srt")
        ≡ some (first_track.0, srt))
subtitle_track-discover_example =
    subtitle_track-discover platform around (codes "/film.mkv") config 0 refl first_track.1
