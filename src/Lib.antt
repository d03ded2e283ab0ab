-- ===== src/Lib.antt =====
-- The assistant hub: one server that answers Wyoming STT and TTS, the LLM proxy, MCP and the
-- searches, and runs the native engines as child processes.
--
-- How the program's parts map to the modules (paths from the repository's root; the server's
-- sources stand in src/):
--
--   Base            Tests on numbers, lists, text as code points, anyhow's results.
--   Supervisor      src/supervisor.rs: `watch` as a step on its variables (watch_round), and the
--                   restart loop `spawn_source` as a step (turn) over what the machine plays.
--   Supervisor.Output  src/supervisor/output.rs: levels, and the tail for a crash report.
--   Config          src/config.rs: the LLM settings and the names of the prompt caches; Env reads the
--                   variables, Env.Llm those of the LLM, and Env.Settings the others up to from_env.
--   Llm.Engine      src/llm/engine.rs: decide, Chooser::note, the reading of /proc/cpuinfo.
--   Llm.Args        src/llm/mod.rs, llamacpp.rs, ik.rs: the command lines.
--   Llm.Template    src/llm/template.rs: the fix of the chat templates.
--   Llm.Specs       src/llm/specs.rs: LlmSpecs::plan, the spec source that the supervisor runs.
--   Llm.Slots       src/llm/slots.rs: the prompt cache: pick_slot, save, restore, and `run` as a step
--                   (round) on its variables and the directory, over what the engine answers.
--   Json            serde_json's values and maps; its codec is the interface `Serde`, a record of two
--                   operations and their laws on the values that JSON holds without loss (integers of 64 bits,
--                   at most 127 levels, no floats), which the framing takes as a parameter.
--   Wyoming.Protocol  src/wyoming/protocol.rs: read_event and write_event on the bytes of a connection.
--   Wyoming.Server  src/wyoming/mod.rs: `serve`, over the events of a connection and over its bytes; what
--                   the engines answer comes with each event.
--   Audio           src/audio.rs: to_mono_i16 (floats are the interface `Float`), wav_bytes, parse_wav.
--   Gpu             src/gpu.rs: the count of GPU faults, and the list of the devices.
--   Media.Index     src/media/index.rs: upsert, remove, save and load of the vector index. Its rows, and
--                   the map from an ID to a row, are what the operations are held against.
--   Media.Docs      src/media/docs.rs: the document of a Jellyfin item, its hash, and change messages.
--   Media.Sync      src/media/mod.rs: fetch_all, full_sync, apply and embed_and_store on the state of the media
--                   index, over what Jellyfin, the embedding thread and the disk answer.
--   Media.Run       src/media/mod.rs: the loop of `run` over what happens in its rounds.
--   Search          src/search.rs: with_year and format_results, with the regular expressions as parameters.
--   Mcp             src/mcp.rs: Tools::handle, with the searches that it makes.
--   Llm.Proxy       src/llm/proxy.rs: forward, with what it sends, and health.
--   Server          src/server.rs: the endpoint /mcp, /health, and the choice of the protocol.
--   Jellyfin        src/jellyfin.rs: best_match, sound_match and split_episode; find and session_user_of (Play) and
--                   search (Search) over what Jellyfin and the media index answer.
--   Tts             src/tts.rs: the request to the speech engine, the spec of its process, and speakable.
--   Gguf            src/gguf.rs: the reader of model files on their bytes (Reader), skip_value, metadata_string,
--                   expected_min_size and check; Encoded lays metadata out as the format does.
--   Titles          src/text.rs: words, squashed, skeleton and title_like.
--   Youtube         src/youtube.rs: pick_from_search and is_subsequence; Duration, Parse and Answers read
--                   what YouTube answers, Search finds the channel, and Client is `call` and `search`.
--
-- The supervisor takes its specs from a source; Llm.Specs is the one of the LLM. It decides with
-- Llm.Engine, builds command lines with Llm.Args, and Llm.Slots saves and restores the cache of the
-- engine that runs. The speech services of Wyoming convert
-- sound with Audio, read and write events with Wyoming.Protocol, and report to Gpu.
--
-- How state is modelled: an object is a record, a method a function to the new record; a loop that
-- waits for the machine (probes, exits, reads) is a function over the list of what the machine
-- does, so a theorem over all lists speaks of every schedule. Durations are milliseconds. Text is
-- a list of Unicode scalar values; std's Unicode tables are parameters, `to_lowercase` and
-- `is_alphanumeric`. Log lines are
-- left out, except in Supervisor.Output, where they are the result.
--
-- Bounds: the counters of the watchdog and of the chooser stay below their limits, so a number
-- without a width stands for u32 there; the GPU faults wrap around at 2 ^ 32 as their AtomicU32 does.
-- A 32-bit float of the index is its bit pattern. Fuel: to_string takes one round for each decimal digit and
-- is given more rounds than the number has digits; parse_wav takes at most one
-- round for each byte of the file, the nested arrays of a
-- GGUF file go as deep as the file has bytes at most, and fetch_all a request for each item at most.
--
-- Not modelled: sockets, HTTP clients, signals, pipes, the calls of the file system and the native
-- libraries (they enter as events and as readings of the machine), computations on floats, the command
-- line of the program, and the evaluation tools.
mod Base
pub mod Supervisor
pub mod Config
pub mod Llm
pub mod Json
pub mod Wyoming
pub mod Gpu
pub mod Media
pub mod Youtube
pub mod Titles
pub mod Audio
pub mod Search
pub mod Mcp
pub mod Server
pub mod Jellyfin
pub mod Gguf
pub mod Tts
mod Tests
