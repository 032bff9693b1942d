-- ===== src/Lib.antt =====
-- seck analyses files that may be hostile with a local language model. The host walks the files and
-- sends their bytes through a pipe (FD 3) to a reader in a sandbox; the reader wraps them into a
-- prompt, asks the model and writes a report, which the host renders for a terminal, a viewer or a
-- page. This library models the parts that carry bytes and text from one side to the other.
--
-- The parts, in the order in which a file meets them:
--   Host      crates/seck-host: `walk` (src/walker.rs) over a file tree, with its limits;
--             `build_fileset` (src/fileset.rs) over whatever `read` answers; Host/Delivery puts the
--             walk, the reading, the stream and the parser together.
--   Wire      the stream on FD 3: `write_fileset_protocol` (crates/seck-host/src/orchestrator.rs)
--             over `write_to_sandbox_pipe` (crates/seck-fd/src/lib.rs) and a kernel that may write
--             less than asked or fail; `read_frames` (crates/seck-reader/src/protocol.rs); the
--             constants and errors of crates/seck-proto/src/lib.rs.
--   Reader    crates/seck-reader: `assemble` (src/prompt.rs) and the process (src/main.rs) with the stub
--             backend, from the lockdown's answer to the JSON on FD 5 and the exit code; `emit_ipc` with
--             the messages of crates/seck-reader-ipc, and the process of crates/seck-reader-priv
--             (Reader/Process, Reader/PrivProcess). Reader/Schema compares what they write with the
--             report's schema.
--   Pipeline  crates/seck-pipeline: analyst, auditor and judge as calls of a backend with a state of
--             its own (the trait of crates/seck-plugin), and `run`.
--   Report    crates/seck-report: the schema, JSON values and what derive(Deserialize) makes of them
--             (Report/Value, Report/Schema), `sanitize` and `render_terminal`.
--   Tui       crates/seck-tui/src/lib.rs: the state of the viewer, its keys and its lines.
--   Web       crates/seck-web: the page, the single-use token, the handler and its headers, the address.
--   Mcp       crates/seck-mcp: the JSON-RPC dispatch, the tools and the store of reports.
--   Audit     crates/seck-audit: the writer of the hash-chained log with its file, and the verifier.
--   Pair      crates/seck-pair: the endpoint's peer, the pairing bundle and the fingerprint.
--   Trace     crates/seck-trace-check: lines of strace parsed into effects, and the check of the I/O
--             boundary over them.
--   Orchestrator  the rest of crates/seck-host/src/orchestrator.rs: descriptor tables of the host and
--             its children, pipes, dup2, exec and drops, both approaches, and the run from the file
--             set to the report.
--   Cli       crates/seck-cli/src/main.rs: the command `analyze`, from its arguments to its output,
--             composed of Host, Orchestrator, Reader and Report in both approaches; src/audit.rs: the
--             command `audit` over the keys directory and the logs, with crates/seck-crypto's key
--             derivation; src/verify_proof.rs and src/pair.rs: the commands `verify-proof` and `pair`.
--   Windows   crates/seck-host/src/orchestrator_windows.rs and crates/seck-sandbox/src/windows.rs over
--             the answers of Win32, with what the host holds open.
--   Sandbox   crates/seck-sandbox: the container runtime and its arguments (src/container.rs), and the
--             lockdowns of src/lib.rs, linux.rs and macos.rs over the answers of the system.
--   Models    crates/seck-models and crates/seck-host-net: allowed hosts, the verified download, the
--             choice of a model, and the command `models` (crates/seck-cli/src/models.rs).
--   Infer     crates/seck-infer/src/ollama.rs and mlx.rs: HTTP with the daemon of Ollama, and lines with
--             the MLX runner. The stub of src/stub.rs stands with the reader.
--   Resolve   crates/seck-host-unsafe: how a path is opened without following symbolic links, on Linux
--             and on macOS.
--   Bench     crates/seck-bench: the corpus, the scorer and the table; crates/seck-canaries.
--   Portal    crates/seck-portal: a request from the desktop, over the descriptors of the service.
--   Crypto    crates/seck-crypto: signatures, ciphers, digest and encapsulation around the primitives; its
--             key derivation stands with the command `audit`.
--   Release   crates/seck-release-sign and crates/seck-verify-release: the tools of a release.
--   Secrets   crates/seck-mem-hard: locked buffers; crates/seck-taint: the wrappers.
--   Base      Boolean tests, lists, results with `?`, and what the source uses of Rust's strings,
--             UTF-8 and integers.
-- A module `Runs` holds the tests and the theorems at concrete inputs.
--
-- How the code is modelled. A Rust function is a function by clauses of the same name; `Result` is a
-- data type with `?` as its bind; a `&mut` argument is passed in and returned. Bytes and characters
-- are numbers, a text is a list of code points. Integers keep their width where it matters: lengths
-- are cut to 32 or 64 bits in the stream, and the walk's total wraps at 2 ^ 64.
--
-- Loops are structural, on the list of entries, lines, calls or bytes that they run through. Two run
-- on fuel: `sanitize_loop` and the loop of `write_to_sandbox_pipe`, with the length of their text,
-- enough since each round takes a character or a byte at least; `decimal` has one more than the
-- number. The theorems on them hold for every input, so that running out is excluded.
--
-- Code that is not in the repository is a parameter: the kernel's answers, the model, serde_json,
-- hex, base64, html_escape, SHA3-256 and signatures. What a theorem needs of it is a record of
-- hypotheses named IsDocumented, HasNoQuotes or the like, and each has an instance in a `Runs` module.
--
-- Not modelled: the calls of llama.cpp (crates/seck-infer/src/llama_cpp.rs); the parsing of arguments,
-- the bus of the portal and the commands that only start a part.
pub mod Base
pub mod Wire
pub mod Report
pub mod Host
pub mod Orchestrator
pub mod Trace
pub mod Audit
pub mod Pipeline
pub mod Tui
pub mod Web
pub mod Reader
pub mod Pair
pub mod Mcp
pub mod Sandbox
pub mod Models
pub mod Bench
pub mod Windows
pub mod Cli
pub mod Infer
pub mod Resolve
pub mod Portal
pub mod Secrets
pub mod Crypto
pub mod Release
