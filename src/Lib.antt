-- ===== src/Lib.antt =====
-- Slice: profiles of the invocations of one function, their capture on Linux, their validation and
-- the queries on them.
--
-- The parts of the program and the files that model them:
--   * crates/slice-core/src/lib.rs, the profile format and the query engine, in Core: Core/Profile has
--     the records, Core/Validate `Profile::validate`, Core/Envelope `to_bytes`, `from_bytes` and
--     `capture_bounds`, Core/Rank `rank_bounds`, Core/Float `percentile_r7`, Core/Tree `TreeBuilder`
--     and `FlameNode`, Core/Query `execute_query`.
--   * crates/slice-collector/src/lib.rs, the correlator, in Collector: the state and its events in
--     Collector itself, `push` in Collector/Push, `source_entry` and `source_return` in
--     Collector/Source, `append_sample` in Collector/Stacks, `finish` in Collector/Finish.
--   * crates/slice-ebpf/src/lib.rs, the userspace half of the capture, in Ebpf: `read_event` and
--     `sort_events` in Ebpf/Events, the callback and the polling of the ring buffer in Ebpf/Ring,
--     `Resolver::frames` in Ebpf/Resolver and `Resolver::new` in Ebpf/Resolver/Load, `capture_pid` in
--     Ebpf/Capture, its set-up as a sequence of effects in Ebpf/Session and Ebpf/Attach, its end and
--     `rebuild_threads` in Ebpf/Replay, `linux_doctor_report` in Ebpf/Doctor, the signals, clocks and
--     limits in Ebpf/Process, what is read of the host and of the BPF maps in Ebpf/Host, and
--     `LinuxCaptureAdapter` in Ebpf/Adapter.
--   * crates/slice-capture/src/lib.rs, the port of a capture and the report of its prerequisites, in
--     Capture.
--   * crates/slice-render/src/lib.rs, the page, in Render.
--   * crates/slice-cli/src/main.rs, the commands, in Cli: the argument parsers in Cli/Arguments, `view`
--     in Cli/View, `sample_summary` and `validate` in Cli/Summary, `discover` in Cli/Discover,
--     `doctor` in Cli/Doctor, `select_symbol` and `list_symbols` in Cli/Symbols,
--     `write_profile_atomically` in Cli/Write, `profile` in Cli/Launch, the printed lines in
--     Cli/Output, and `Command` with the dispatch of `main` in Cli/Commands.
--   * tools/repo-check/src/main.rs, the checks of the repository, in RepoCheck: `visit_files` over a tree
--     of files in RepoCheck/Visit, `unsafe_boundary` in RepoCheck/Sources, `markdown_links` in
--     RepoCheck/Links, `workflow_pins` in RepoCheck/Pins, `dependency_layers` in RepoCheck/Layers, and
--     `run` in RepoCheck/Run.
-- Base and Data have what the standard library provides: lists, results, maps, stable sorting, text
-- as code points, decimal numbers, saturating arithmetic. Tests has the runs at concrete inputs; of
-- these, Tests/CoreTests, Tests/CollectorTests, Tests/EbpfTests and Tests/RenderTests are the unit
-- tests of the program itself, on its own fixtures.
--
-- How they interact: the callback stores the records, and the replay feeds the sorted records of a
-- capture to the correlator, which fills a profile; the profile is written as bytes; the commands
-- read the bytes, which validates them, and query or summarise the profile; `view` renders a page
-- from it.
--
-- A method with `&mut self` takes a state and returns the new one; an error is a value of
-- `Result`, and an index outside a slice is the error `panic`. Integers are numbers; saturating
-- operations have their bound written out, wrapping ones their remainder. A `usize` has 64 bits.
-- The map of a `HashMap` is a list of entries; where the program goes through a map, the order is
-- a parameter (`drain` and `iterate` in Collector/Finish). Where the program calls the operating
-- system, how the call ends is an input (Ebpf/Attach, Ebpf/Ring, Cli/Write and Cli/Launch); what
-- succeeds of the set-up of a capture is an effect in a list, in its order, and the polling loop is
-- followed as far as the rounds are given. A set is a list of which only membership is asked.
--
-- Loops on fuel: that over the ancestors of an invocation in Core/Validate has one round for each
-- invocation and two more; every round adds an id to the set of ancestors, and all but the first
-- and the last of them are ids of invocations. That of `markdown_links` in RepoCheck/Links has one
-- round more than the text has characters, and every round goes on behind what it has read. In
-- Ebpf/Resolver a number has at most sixteen hexadecimal digits, in Data/Decimal at most twenty
-- decimal ones, and in Ebpf/Resolver/Load a suffix that is not empty is taken off at most once for
-- each character.
--
-- Parameters: the operations of `f64`, with the laws of IEEE 754 for rounding up to 2^53, where a number
-- is held exactly; the JSON of serde_json and the compression of zstd, with the law that what was
-- written is read back; the constant text of the page; the demangler, `canonicalize` and
-- `str::to_lowercase`.
--
-- Not modelled: the libraries libbpf, object, clap, serde_json and zstd and the calls of the
-- operating system, of which the answers are inputs; that links are detached when they are dropped;
-- the handler of the interrupt; the display of an `f64`; the constant style and script of the page;
-- the BPF program in C, the JavaScript of the viewer, and the build script.
pub mod Base
pub mod Data
pub mod Core
pub mod Collector
pub mod Capture
pub mod Ebpf
pub mod Render
pub mod RepoCheck
pub mod Cli
mod Tests
