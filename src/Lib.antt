-- ===== src/Lib.antt =====
-- A model of the parts of Defined Quant that decide what may run and what may be trusted.
--
-- Parts and files, with paths from the repository's root:
--   Utf8        Python's strict UTF-8 codec, which the other parts call. A text is a list of code
--               points, which may hold lone surrogates; bytes are a list of numbers.
--   Framing     shared/stdio_framing.py: `BoundedBinaryFrameReader` (`FrameReader`, `read_frame`;
--               the `read` of `from_descriptor` is `descriptor_read`),
--               `configure_binary_descriptors` (the record `Platform` is what it asks of the platform),
--               `read_binary_to_eof` (its loop is `read_to_eof`), `write_binary_bytes`,
--               `utf8_lf_frame`, `write_utf8_lf_frame`.
--               Framing/Spec is the protocol on a stream of bytes, Framing/Refines the reader against
--               it, Framing/Write a frame written and read back, Framing/Descriptor the writing to a
--               descriptor, Framing/Eof reading to the end.
--   Canonical   protocol/canonical.py: `_tagged_tree`, `_encode_tagged_json`, `_number_hex`,
--               `canonical_json_bytes`, `canonical_hash`. Canonical/Number has the digits of a
--               number, Canonical/Encoder the text of a tree, Canonical/Hash the framed digest.
--   Ports       protocol/ports.py: Ports/Vocabulary has the enumerations and their wire values, Ports
--               the models, `_differences` and `compare_semantic_ports` (`compare_ports`).
--   Managed     the managed authorization: protocol/policy.py (Managed/Policy), protocol/plan.py
--               (Managed/Plan), protocol/authorization.py (Managed/Records) and
--               shared/plan_validation.py (Managed/Validation and Managed/Validate have
--               `validate_plan`, Managed/Verify the approvals and `verify_authorization`).
--   Host        shared/host_failures.py: Host/Codes has the vocabularies, Host/Presentation the fixed
--               wording (`HOST_FAILURE_SPECS` is `failure_spec`), Host/Shape the tests on JSON values,
--               Host/Details the closed schema of each code (`details_valid`), Host/Failure the
--               envelopes and `host_failure`, Host/Mapping `map_operation_error`. Host/Presented,
--               Host/Fields and Host/Redacted are about what these let through.
--   Session     shared/session_cas.py: `SessionScopeRegistry` (Session/Scope, and Session/Holds as a
--               relation), `_reference_parts` (Session/References, Session/Parts), the steps that the
--               methods share (Session/Store), datasets (Session/Datasets), operations and their
--               bundles (Session/Operations, Session/Bundle), cursors (Session/Cursors,
--               Session/Tokens, Session/Bound) and `close` (Session/Closing). A method is an action on
--               the state `Session` that keeps its changes when it raises (Session/Exec).
--               Session/Sound, Keeping, Methods and Bundles follow what every method keeps,
--               Session/Calls sequences of calls, Session/Refusals what is no longer served,
--               Session/Served what a load gives (with Session/Yields).
--   Views       shared/record_views.py: `_page` and the limits (Views/Paging), what a page shows
--               (Views/Window), what a client collects that follows the cursors (Views/Client), the
--               last check of a page (Views/Fitting), `get_operation` (Views/Operation) and the bound
--               on responses (Views/Bounded).
-- Policies, plans, receipts and approvals are bound to one another by digests of their canonical
-- bytes: Managed uses `canonical_hash` of Canonical, which uses Utf8, as Framing does. The exceptions
-- of Session carry the failures of Host, whose details name the differences of Ports.
--
-- How the code is modelled. Exceptions are the `err` of a `Result`; a check of `validate_plan` or
-- `verify_authorization` that returns early is an `err` too, and the outermost function turns it back
-- into the value that the code returns. An enumeration is a data type, compared by the wire values
-- where the code compares strings. A pydantic model is a record, with its validators as functions
-- into Bool or Result. A dictionary is the list of its items in order.
--
-- Parameters: `hashlib.sha256`, of which nothing is assumed; the callback `read`, `os.read`,
-- `os.write` and `msvcrt.setmode` with the state of the operating system, assumed to deliver
-- (`Delivers`), to write prefixes (`Writes`) and to set modes only (`SetsMode`); the record `Catalog`
-- (catalog, packaged policies, the component's input model and constraints) and the record `Cas`
-- (session store, size of a response), of which nothing is assumed (a client that follows cursors
-- assumes that the store takes each back to its position, `Reads`); the record `Backend` of Session:
-- the secure file system with the world that it acts on, the models and encodings of records, and the
-- libraries behind cursors, of which only the last are assumed to behave as documented, and only where
-- cursors are read back (`CursorLaws`). Calls of one session are run one after the other, as its lock
-- has it; between two calls other sessions may change the registry and other processes the world.
--
-- Fuel: `read_frame` runs its loop at most as often as the buffer has free bytes, and twice more,
-- since each round but the last two adds a byte; `write_binary_bytes` once for each byte of the
-- content, since each round takes one; `_new_stage` tries a hundred names, as the code does;
-- `read_to_eof` takes its fuel as an argument. Out of fuel, a reading loop gives `none`.
--
-- Not modelled: messages of errors other than those of host failures, which no code compares; the file
-- system, processes and sockets (workers, local hosts, the making and the clean-up of session
-- directories); the numeric components on floats; the JSON schemas; the MCP
-- server and the tools of the authoring tree.
pub mod Common
pub mod Utf8
pub mod Framing
pub mod Host
pub mod Canonical
pub mod Ports
pub mod Managed
pub mod Views
pub mod Session
