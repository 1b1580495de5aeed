-- ===== src/Lib.antt =====
-- UniCast casts a local media file to a receiver on the local network: Google Cast, DLNA or
-- AirPlay. A daemon (src/daemon.rs) takes one request at a time over a socket, holds at most one
-- session, and serves the file to the receiver over HTTP (src/media_server.rs).
--
-- Parts, each with the file that models it:
-- - Base: lists, text as code points, decimal numbers, and what is used of `str`, `Vec`,
--   `BTreeSet`. Base/Host is the interface to `f64`, Unicode tables and percent-encoding, which are
--   not modelled: a theorem holds for any such operations, or names what it takes of them.
-- - Sample and Daemon/Sample are a platform and an environment for concrete inputs, used by Tests.
-- - Net, Paths (src/util.rs): addresses, file names and content types.
-- - Firewall (src/firewall.rs): `Rule::parse` and `Rule::line` are `parse` and `line`; Scan is
--   `scan_user_rules`; Open is `open` and `clear`, Open/Written the ledger that they write. ufw's
--   state and the runs of pkexec are `Ufw`.
-- - Server (src/media_server.rs): Range is `parse_range`, File is `file_response`, Access is
--   `constant_time_eq`, Live is `admit_transcode`, Ffmpeg is `ffmpeg_args` (Ffmpeg/Filter: its
--   arguments for the sound), Request and Handle are `handle` and what it calls.
-- - Cast (src/cast.rs): Plan is `plan_transcode` and what it calls; Frame is `FrameLimit` with the
--   count of `FrameBudget`, and Frame/Chunks compares it with the reader of single bytes of
--   Frame/Walk. Load is `media_payload`, `load_media` and `edit_tracks`. Thread is the thread of a
--   cast: Thread/Start is `handshake`, `connect` and the start of `run_session`, Thread/Commands
--   its commands with `seek_cast`, `publish_status` and `publish_volume`, Thread/Rounds a round of
--   its loop. A round is given what the receiver answers in it; the daemon writes the shared
--   session between rounds.
-- - Dlna (src/dlna.rs): Ssdp is `msearch`, `collect_locations` and the two scans, Description is
--   `parse_description` from the events of the XML reader, Scan is `device_from_location`,
--   `probe_ip` and `discover`, Soap the SOAP requests and answers with `didl` and `xml_escape`
--   (src/util.rs), Clock is `format_hms` and `hms` (src/util.rs). URLs, HTTP and XML are a `Web`.
-- - Airplay (src/airplay.rs): the requests, and `parse_playback_info` on the events of a property
--   list, of which it reads at most 4096; Airplay/Listed compares it with the dictionary they are
--   of.
-- - Subtitles (src/subtitles.rs): Language is `describe_sidecar` and `prettify` with the table of
--   languages, Discover is `sidecars`, `embedded` and `discover`; `parse_cue_timing` and
--   `format_timestamp`; Shift is `shift_vtt`, and Shift/Blocks says what it makes of a document;
--   Srt is `vtt_to_srt`, and Srt/Numbered the cues that it writes. Server/Handle/Tracks joins
--   Discover with the server's `subtitle_track`.
-- - Discovery (src/discovery.rs): `discover` with `merge` and `promote_cast_capable`, Mdns is
--   `mdns_devices` from the services that mDNS resolves; the search for renderers and the order of
--   a `HashMap` are parameters.
-- - Daemon (src/daemon.rs, src/state.rs, src/protocol.rs, src/settings.rs): State is the daemon's
--   state, Env what one operation learns from outside, Target and Connect are `connect`, Restream
--   and Control the operations on a running session, Stored those on settings, Lifecycle the
--   teardown and the automatic stop, Poll one tick of each poller and of the cast thread,
--   Poll/Watchdog a sequence of ticks, Dispatch and Request the commands, and Run the sequences of
--   all these. Owner says which receiver is held.
--
-- The daemon's operations run under its action lock, so each is one function from a state and an
-- environment to a state and an answer; what it does to the world is appended to `effects`. Ticks
-- of pollers and of the cast thread fall between operations; within an operation they are not
-- modelled. Daemon/Poll has of the cast thread what a status makes of the session; Cast/Thread has
-- the whole thread and shares that part. An i32 media session is its bits, so -1 is 4294967295.
-- Writes of the ledger succeed; writes of settings may fail. The scan of ufw's rules has one unit
-- of fuel for each byte and one more; each round reads a byte, so it is enough. Printing a number
-- `n` has `n + 1`, more than it has digits. Session numbers do not wrap.
--
-- Not modelled: sockets, timeouts, TLS, the parsers of HTTP, URLs, XML and JSON, the crate
-- rust_cast, the protocol mDNS, the decoding of property lists, ffmpeg and ffprobe, the file
-- system, logging, the command line client and the panel.
pub mod Airplay
pub mod Base
pub mod Cast
pub mod Daemon
pub mod Discovery
pub mod Dlna
pub mod Firewall
pub mod Net
pub mod Paths
pub mod Sample
pub mod Server
pub mod Subtitles
