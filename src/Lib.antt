-- ===== src/Lib.antt =====
-- A verification library of ostk-cache, a proxy between a coding agent and the Anthropic messages
-- API that rewrites requests so that they hit the provider's prompt cache.
--
-- The parts and how they interact. A request comes in as JSON. The proxy cuts volatile billing
-- tokens and the reminders of past turns out of it (src/billing_strip.rs,
-- src/system_reminder_strip.rs), rebuilds and repairs its messages, puts the orientation block
-- into the system prompt and brings the body under a size limit (src/rebuild.rs), lets the lane
-- machine choose the lifetime of the cache write (src/write_policy.rs), reports a cadence
-- (src/ttl_forecast.rs), and rewrites the usage in the streamed response (src/usage_truth.rs). The
-- provider's policy (src/provider_policy.rs) says what goes on the wire, and the usage of a
-- response is read back for the accounts (crates/ostk-cache-core/src/usage.rs). At the start it
-- resolves its configuration (src/config.rs) and refuses an upstream that is itself; beside the
-- traffic it keeps captures of requests (crates/ostk-cache-core/src/capture.rs) and reads the
-- transcripts of sessions (src/transcript_tail.rs) and the digests of turns (src/cycle_digest.rs),
-- and a tool adds its hooks to the agent's settings (src/bin/hooks.rs).
--
-- The files, each with its own child modules for what they prove and for runs on examples:
-- - Prelude: shared names, Boolean tests, lists measured by native numbers, text as bytes, the
--   standard library's sort, `contains` and `starts_with`.
-- - Json: serde_json's `Value` and the accessors that the program uses; Json/Laws has what a write
--   under one key does to a read under another. A number is a `u64` or another literal. Objects
--   are in the order of their bytes, as without the feature `preserve_order`.
-- - Size: `current_body_size` and `fmt_bytes` (src/lib.rs). serde_json's printer and the format of a
--   float with one decimal are the record Printer.
-- - BillingStrip: src/billing_strip.rs, one function per function. A byte index is a suffix.
-- - ReminderStrip: src/system_reminder_strip.rs, likewise.
-- - Rebuild: src/rebuild.rs. Rebuild/Messages has what is read off one message, Rebuild/Repair
--   `repair_orphaned_tool_results`, Rebuild/SoftCap `enforce_soft_cap` with its four tiers,
--   Rebuild/Orientation the orientation block and `clamp_ttl_to_harness_floor`, Rebuild/Sections
--   `section_sizes`. A `&mut Value` is passed in and returned.
--   Rebuild/Apply is `apply_rebuild`: the cut at the cycle boundary, the frozen text, the loop that
--   leaves sections out under a budget, and the final repair. The gathering of what the text is
--   composed of, and the composer, are its interface Projection. Rebuild/Envelope is
--   `extract_latest_envelope` and what it calls.
-- - WritePolicy: src/write_policy.rs. LaneState is the struct, `decide` the only operation. `f64` is
--   the record F64, of whose rounding nothing is assumed.
-- - UsageTruth: src/usage_truth.rs: the overflow answer, the streaming rewriter, the gauge.
--   SseUsageRewriter is the struct. serde_json's parser and printer are the record Serde, `f64` is
--   the record Estimate.
-- - TtlForecast: src/ttl_forecast.rs: `forecast_ttl`, with the answer of the identity hints as an
--   argument, and TtlForecast/WakeHint the parser of a hint.
-- - ProviderPolicy: src/provider_policy.rs. The trait is the record PolicyBackend.
-- - Usage: crates/ostk-cache-core/src/usage.rs, both dialects. Prelude/Lines, Prelude/Utf8 and
--   Prelude/LineEnds have the lines of a text and its validity as UTF-8.
-- - BodyBreakdown: src/body_breakdown.rs.
-- - Capture: crates/ostk-cache-core/src/capture.rs. Capture/Dedupe is the struct DedupeCache, with the
--   time of a call in nanoseconds as an argument. Capture/Rotation is `rotate_capture_dir` and
--   RotationState; a capture root is the record Root of its entries and shards, and which
--   directories can be deleted is an argument. Capture/Writer is `handle_capture_msg`, which calls that
--   rotation on its own directories, with the answers of the file system (Io) and SHA-256 as arguments.
--   Capture/SelfLoop is `check_upstream_self_loop`.
-- - HookSettings: src/bin/hooks.rs, what `install` and `uninstall` do to the settings; the path of the
--   script is an argument.
-- - Config: src/config.rs, `Config::resolve`, with one definition for each of its bindings. The
--   environment is a function; arguments and file are records (Config/Settings).
-- - TranscriptTail: src/transcript_tail.rs. A file is its bytes, or none where it cannot be opened.
--   TranscriptTail/Events has the readers, TranscriptTail/Index `build_tail_index` and the summary,
--   TranscriptTail/Codex the rollouts. serde_json is the record Serde of TranscriptTail/Events.
-- - CycleDigest: src/cycle_digest.rs, the fence at the end of a reply, the file of digests and the
--   sections rendered from it. serde_json is the record Serde of CycleDigest.
-- - Session: src/lib.rs. Session has `render_partition`, where none is a panic, Session/Pages the
--   in-memory page table, Session/Account the row of the ledger, Session/Origin `normalize_git_url` and
--   HookEventKind. The states of a page are the record States, `f64` is the record Ratio.
-- - Civil: the calendar of timestamps, `civil_from_days` and `iso8601_utc_from_secs` of
--   src/rewrite_middleware.rs, which capture.rs and src/cycle_digest.rs hold again.
--
-- Numbers. `u64` and `usize` are natural numbers. Saturating sums are written with their bound;
-- the sums of `bump_usage` and of the usage parsers wrap around, as does the port of the
-- environment; the counters of reports, which count what is in one request, are not bounded.
--
-- Fuel. The scans of both strips take the length of the text, and every round consumes a byte. The
-- loop of `transform` takes one more than the length of the buffer, and every round takes an event
-- out. The loop of Tier B takes one more than the number of messages, and every round takes two out.
-- The loop of the budget takes four, and every round leaves out one of three sections.
--
-- Not modelled: the gathering and composing of the synthesized text, the start of a capture, the
-- search for a session by modification times, and the printing of a configuration; and the server,
-- the kernel client, the reports, the walks over directories and what writes files, which are I/O.
pub mod Prelude
pub mod Json
pub mod Size
pub mod WritePolicy
pub mod BillingStrip
pub mod ReminderStrip
pub mod UsageTruth
pub mod TtlForecast
pub mod Rebuild
pub mod ProviderPolicy
pub mod BodyBreakdown
pub mod Usage
pub mod Capture
pub mod HookSettings
pub mod TranscriptTail
pub mod CycleDigest
pub mod Session
pub mod Civil
pub mod Config
