-- ===== src/Lib.antt =====
-- Verification library of anycode, a wrapper around AI command-line tools.
--
-- anycode starts a child process (Claude Code or Copilot) in a pseudo-terminal, passes the user's
-- keys to it, and answers its API requests with a local proxy that forwards them to one of several
-- backends. Keys come through the input parser; the child's arguments and environment come from the
-- argument pipeline; the backend state says which backend is active. When the backend changes,
-- thinking blocks of the old one are invalid: the thinking registry of the proxy removes them from
-- later requests.
--
-- - Term models crates/term_input: Term/Event is event.rs, Term/Params, Term/Mouse and Term/Parser
--   are parser.rs. `InputParser` is the record of the state, the buffer and the queue of events;
--   `step`, `feed` and `flush` are the methods of the same names, and `on_ground`, `on_esc`,
--   `on_csi_entry`, `on_csi_param`, `on_mouse_x10`, `on_sgr_mouse`, `in_paste` and `utf8_cont` the
--   handlers. A byte is a number; a step gives `none` where the source would panic.
-- - Args models src/args: Args/Registry is registry.rs, Args/Classifier classifier.rs, Args/Session
--   session.rs, Args/Env env_builder.rs, Args/Assembler assembler.rs, Args/Pipeline pipeline.rs;
--   and Args/Settings is src/config/claude_settings.rs. What the code reads from outside (the last
--   session on disk, a fresh identifier, the parent's environment) is an argument of the
--   definitions.
-- - Config models src/config/types.rs and src/config/credentials.rs, and in Config/Loader
--   src/config/loader.rs with src/cli_mode.rs: the validation of a configuration and the migration
--   of an old file. A parsed file is a table of named values.
-- - Backend models src/backend/state.rs: Backend/State is `BackendState`, Backend/Agents
--   `AgentRegistry`. The lock makes each method one step, and a step takes the state and returns
--   the new one; Laws has the relation of the states that the methods reach.
-- - Proxy models src/proxy. Proxy/Thinking is `ThinkingRegistry` (Stream its
--   `register_from_sse_stream`, Session the requests that share it); Proxy/UpstreamUrl,
--   Proxy/Headers (with Proxy/Flags for src/config/auth.rs), Proxy/Transform, Proxy/Routing (with
--   Proxy/Markers) and Proxy/Forward are the stages of the pipeline in src/proxy/pipeline:
--   upstream_url.rs, headers.rs, transform.rs, routing.rs and forward.rs, the last with the error
--   handling of mod.rs. Proxy/ModelRewrite is src/proxy/model_rewrite.rs, with the parser and the
--   printer of JSON as parameters. Proxy/Hooks is src/proxy/hooks.rs with the state of the agents
--   that it fills and routing reads. Proxy/Router is the check of the token and the choice of a
--   teammate's backend in src/proxy/router.rs. Proxy/Truncate is `fast_hash` and its cuts,
--   Proxy/Sse the statistics of an event stream. JSON values are interfaces: Proxy/Json for reading
--   and cleaning, with two laws on writing an array in place, and Proxy/Edit for the objects that
--   the transformation writes. The hasher is an argument. A call reads the clock once.
-- - Metrics models src/metrics: Metrics/Redaction the masking of a query in redaction.rs,
--   Metrics/Aggregator the counters and the ring of the last records in aggregator.rs and ring.rs.
-- - Ui models the interface's state: Ui/Mvi is crates/mvi, Ui/Pty src/ui/pty, Ui/Settings,
--   Ui/BackendSwitch and Ui/History the actors of the dialogs, Ui/Input and Ui/Choose the parts of
--   src/ui/app.rs that pass input on and choose a backend, Ui/Selection src/ui/selection.rs. An
--   actor takes a state and an intent and returns the new state and its effects.
-- - Errors models src/error.rs, `ErrorRegistry`.
-- - Base has what the parts share: Boolean tests on numbers, lists, text, UTF-8.
--
-- Most loops are structural. Three run on fuel: the masking of a query (one more than the length of
-- the text, and each turn shortens it), the retries of a request (one more than the greatest number
-- of retries, which is where the source stops), and the walk to the right end of a word (the width
-- of the screen). Numbers are natural numbers; where the source has a machine integer, its
-- saturation or wrap-around is written out.
--
-- Not modelled: input and output, the network, the terminal emulator, the drawing of the user
-- interface, the event loop of the runtime, calls between processes. Left for now: the stream of a
-- response, the second try of a refused request with another body, the web interface, the text that
-- a selection takes from the screen, and the masking of tokens and JSON bodies.
pub mod Base
pub mod Term
pub mod Args
pub mod Config
pub mod Backend
pub mod Proxy
pub mod Errors
pub mod Metrics
pub mod Ui
