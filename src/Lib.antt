-- ===== src/Lib.antt =====
-- A verification library for planless, a demonstration control plane with a deny-by-default
-- deployment gate.
--
-- The parts. internal/netset computes with sets of IPv4 ranges. internal/platform holds the resources
-- of the control plane (store.go) and decides who may read an object or connect to a workload
-- (authz.go). internal/api serves both over HTTP: a corporate listener that believes the principal a
-- request asserts and carries typed writes, and an edge listener that does neither. internal/graph
-- brings a plan, or what the platform holds, into one graph of resources, grants and network rules, with
-- the origin of every value, and internal/canon encodes it for a digest. internal/gate asks a policy
-- engine whether a graph may go ahead. internal/tofu runs the toolchain through the stages of a delivery
-- (harness.go), binds an approval to one artifact (approval.go), compares what was observed afterwards
-- with what was reviewed (reconcile.go, drift.go) and keeps the transcript of it (transcript.go).
-- internal/containment checks the configuration in which all of this is to run.
--
-- Which module models what.
--   Prelude          library names, tests on numbers and texts, words of a text, lists.
--   Json, Canon      the trees of encoding/json that the program walks, and internal/canon/canon.go.
--   Netset           internal/netset/netset.go. `parse`, `contains`, `union` and their companions are
--                    the methods of `Set`; Netset/Ip is what they use of net/netip, Netset/Spans the
--                    sort and the merge of `normalize`, Netset/Render `Prefixes` and `Equal`.
--   Ordered          lists in the order of a key: sort.Slice, and `upsert` of internal/platform/store.go.
--   Platform         Model is internal/platform/model.go, Store is store.go, Authz is authz.go.
--   Api              internal/api/server.go: Http has the requests, responses and the server's state,
--                    Targets the scope of a write, Callers what `withCaller` reads, Answers how a
--                    request is answered or refused, Resources the typed writes, Server the handlers.
--   Graph            internal/graph/graph.go; Graph/Origins is provenance.go, Graph/Plan the normalizer
--                    of plans and Graph/Sorted the order, both of normalize.go, Graph/Live platform.go,
--                    and Graph/Documents and Graph/Manifests manifests.go.
--   Gate             internal/gate/gate.go: `evaluate`, `scan_with` and `denylist`, with their failures.
--   Tofu             in internal/tofu: Approval is approval.go; Transcript is transcript.go; Reconcile and
--                    Compare are reconcile.go; Drift is drift.go; Table is table.go; Sources is sources.go;
--                    Origins is the origins of harness.go and Canonical the canonical plan of
--                    toolchain.go; Scenarios is scenario.go; Pipeline is the rest of toolchain.go, with
--                    Pipeline/Harness the stages of harness.go and Pipeline/Manifest the delivery of
--                    manifests in manifest_run.go.
--   Containment      internal/containment/compose.go: `check` and the rules it finds broken. The records
--                    of Containment/Hardened, Segmented and Contained say what the rules are for.
--   Examples         estates, plans and runs, and the instances of the theorems at them.
--
-- How state is modelled. A handler takes the server (store, refusal counter, log) and gives the
-- response and the new server. The mutex of the store is left out: a request is one step. What a
-- handler calls that is not under the program's control (SHA-256, base64, the workload behind the
-- network) is a field of `Api.Http.Env`. `net/http` and `encoding/json` are seen through the request:
-- its route, its peer address and its decoded bodies, each an `Option` where that can fail. In the same
-- way `Gate.Env` has the engine's process and the decoders of its output, `Tofu.Approval.Codec` the digest
-- and the codec of approvals, and a stream of documents is the list of what the decoder makes of it.
-- A stage of a delivery takes the run (transcript, working tree, platform) and ends with a value or an
-- error, keeping the run as it then is; `Tofu.Pipeline.Env` has what it reaches outside: the toolchain's
-- process, the files, the checks of the sources, the decoders, the engine and the control plane.
--
-- Bounds and fuel. A uint32 is a number below 2 ^ 32, with the wrap-around written out; the refusal
-- counter wraps at 2 ^ 64. Ledger numbers are not bounded. The loop of `Prefixes` runs on fuel
-- hi - lo + 1, which is enough because each round covers at least one address; the loop over the
-- blocks of a file runs on the length of the text, of which each round takes a character at least.
-- sort.Slice is an insertion sort, which agrees with Go's where no two keys are equal; the store's lists
-- have distinct keys, and intervals with equal ends are equal. Observations with the same segment and
-- resource keep an order that Go does not promise.
--
-- Not modelled: the commands, the provider and its HTTP client, what only prints, the rendering and the
-- apply of manifests, the bundle that a scan of sources reads, the fixtures, the controls, the self-check
-- and the publication, and the policy in Rego. IPv6 addresses are opaque: the code refuses to interpret
-- them.
pub mod Prelude
pub mod Json
pub mod Canon
pub mod Containment
pub mod Netset
pub mod Ordered
pub mod Platform
pub mod Api
pub mod Graph
pub mod Gate
pub mod Tofu
pub mod Examples
