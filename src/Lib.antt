-- ===== src/Lib.antt =====
-- GPTHands: a local MCP server through which an assistant inspects, edits and runs code in one
-- workspace. Authority stays outside the model and the repository: a policy file grants leases, a
-- person signs approval tokens, and every call is recorded in a chained audit log.
--
-- The parts, and how they interact. The server asks the policy whether a path or a command is
-- allowed, has the command's level classified, asks the approvals for a token that covers the level,
-- runs the operation, and records the outcome. The limiter stands before every tool call, the safe
-- write under every edit, the bounded run and the sandbox under every command, and the release gate
-- before a stable release of the program itself.
--
-- * Audit (src/gpthands/audit.py). Defs: the file as finished lines and a rest, `_canonical_event`,
--   `_event_hash` and `_verify_stream` with its messages as data. Append: the window that
--   `_last_nonempty_line_locked` reads, `_chain_state_locked` and `record`. Redact: the patterns of
--   `redact_text`. Chain, Tail, State and Recording carry the proofs of Appending; Seal and
--   Evidence are about what a last hash pins down, BlankLines about logs that were kept before the chain was. Open:
--   `verify_audit_file` and the opening of a logger.
-- * Risk (src/gpthands/risk.py). The levels, the tables, the patterns of dangerous arguments as regular
--   expressions matched by derivatives (Patterns), and the classification; Laws.
-- * Policy (src/gpthands/policy.py). Defs: the record, the leases and the capabilities. Paths: `_inside`,
--   `resolve_path` and its checks. Load: the migration and `Policy.load` with every check of the file
--   and of the values. Commands: `validate_command`. Confinement, Bounds and Migration are proofs.
-- * Approval (src/gpthands/approval.py). Defs: the replay store. Tokens: `issue` and
--   `validate`. Open: the key's file and `ApprovalManager.__init__`. Replay, Acceptance, OneUse and
--   Issue are proofs.
-- * Limits (src/gpthands/limits.py). Defs: `ActionLimiter`. Run: its runs, as steps of any number of
--   threads in any interleaving. Window and Quota are proofs.
-- * Locking (src/gpthands/locking.py). Defs: `FileLock` on POSIX. Acquired: proofs.
-- * SafeWrite (src/gpthands/safe_write.py). Defs: `_write_fd_all` and `_posix_atomic_write`, with each
--   system call's failure and the changes of others as a record. Complete, Atomic, Clobber and
--   Returns are proofs.
-- * Process (src/gpthands/process_control.py). Defs: `drain_stdout` and `run_bounded_process`, with the
--   child as the operating system shows it; the signals to the process tree are not modelled. Output.
-- * ReleaseGate (src/gpthands/release_gate.py, scripts/verify_release_gate.py). Defs:
--   `verify_release_gate`. Script: the version-only check of a promotion and the run of the gate.
--   Review, Promotion and VersionOnly are proofs.
-- * State (src/gpthands/state.py): `read_json_object` and `secure_write_json`.
-- * Trust (src/gpthands/trust.py). Defs: the store of trusted workspaces on its file. List: `list`.
--   Store: proofs.
-- * Pending (src/gpthands/pending_approvals.py). Defs: the queue of actions that wait for a person's
--   approval. Queue, Added and Shown are proofs.
-- * Sandbox (src/gpthands/sandbox.py). Defs: the plan, the arguments of bubblewrap, the profile of
--   sandbox-exec, and the run. Contained and Bubblewrap are proofs.
-- * Server (src/gpthands/server.py, ux_server.py, stable_server.py, and V03GPTHandsServer of
--   limits.py). World: the fields that change, what holds during a call, and the helpers. Approve:
--   `_require_approval`. Read: `_read_file`, `_list_dir`, `_workspace_info`. Search: `_grep`. Edit:
--   `_preview_edit`, `_apply_edit`, `_write_file`. Command: `_run_command` and the git tools. Call:
--   `_call_tool`. Tools: `TOOLS`. Handle: `handle` of all four classes. Serve: `serve_stdio_bounded`,
--   and the line-by-line reading that it implements. SafeWrite/Stable has `stable_atomic_write`.
--   Granted, Settled, Planned, Applied, Once, Previewing, Previewed, Confined, Recorded, Verified, Searched,
--   Handled, Responded, Lines and Served are proofs.
-- * Control (src/gpthands/control_ui.py). Defs: `do_POST` of the local page, with its guards. Issued:
--   proofs.
-- * Credentials (src/gpthands/credentials.py). The checks of names and values, and the choice of the
--   store; what the store answers is a parameter.
-- * Tunnel (src/gpthands/tunnel.py). Defs: the plan, the environment and the step of the tunnel client.
--   Environment: proofs.
-- * Bootstrap (scripts/release_bootstrap.py). Wheel: the checks of a wheel and its digest. Defs: the
--   manifest, the release folders and their markers. Install: `install`. Commands: `rollback`,
--   `status`, `uninstall` and the exit codes of `main`. Digest, Bound, Kept, OneDigest, Current, Lists,
--   Ready and Back are proofs. A new folder that cannot be finished is taken to be removed again.
-- * Prelude, Json and Time are shared: Python's texts, lists and exceptions, the values of json.loads,
--   and times.
--
-- How the code is read. A dict holds each key once and keeps its order; a float is held in millionths,
-- and time.time() in microseconds; texts are ASCII, and bytes are held as texts. Paths are lists of
-- parts, as on POSIX. An exception is a value of its class with its message, where the message leaves
-- out values that the code formats into it. A method reads the clock once. A lock is taken or not, as
-- an argument says; the same arguments say what os.write and os.fsync of a record or of a nonce answer,
-- a short write included, which is taken to end between two characters. Closing a file and letting a
-- lock go do not fail. A line of a log or a store holds no carriage return that Python's universal
-- newlines would split at.
--
-- Parameters stand for what lies outside: SHA-256, HMAC, base64 and the json module; the resolution
-- of symbolic links; stat and the reading of files, as records of what they say; ISO-8601 parsing;
-- the answers of the system calls of a write; the lists of directories, the diffs, what the child
-- of a plan, sandboxed or not, writes and does to the disk; urlsplit and parse_qs; the calls of flock and of the credential
-- stores; zipfile, the email parser, venv, pip and the smoke test of a release; git and tomllib.
-- Where a theorem relies on what they document, it names it: a SHA-256 digest has 64 characters,
-- base64 gives back what it took, json.loads reads what json.dumps wrote,
-- but for the order of the keys, which the compact dump sorts. The loops are structural,
-- over the lines, the characters, the answers of os.write, the recorded times or the steps of a run,
-- but for the two of serve_stdio_bounded: they take one unit of fuel for each character of the input
-- and one more, which is enough, since each read takes at least one character; and that of the
-- lock's acquire, for which Locking.Acquired gives the number of attempts.
--
-- Not modelled: main, init-policy and the unbounded serve_stdio of src/gpthands/server.py, the
-- system calls of credentials.py, the signals of tunnel.py, installer.py and the pages of
-- control_ui.py. Nor are the Windows API calls (src/gpthands/windows_*.py and the Windows write and
-- lock), the command line, diagnostics and notifications, and the other scripts, which are I/O.
pub mod Prelude
pub mod Json
pub mod Audit
pub mod Risk
pub mod Time
pub mod Policy
pub mod Approval
pub mod ReleaseGate
pub mod Limits
pub mod Locking
pub mod SafeWrite
pub mod Process
pub mod State
pub mod Trust
pub mod Pending
pub mod Server
pub mod Sandbox
pub mod Control
pub mod Credentials
pub mod Tunnel
pub mod Bootstrap
