-- ===== src/Lib.antt =====
-- KBeacon: a model of the agent's dependency graph, from the objects that the informers list to the
-- answers of the HTTP interface.
--
-- The agent watches one cluster. Each change of an object requests a rebuild (internal/controller);
-- a rebuild turns the listed objects into Secret and workload inputs (internal/discovery), from which
-- the cache is made anew (internal/graph); the server reads the cache (internal/server).
--
-- Graph.Types: the records of internal/graph/types.go.
-- Graph.Keys, Graph.Criticality, Graph.Observe, Graph.Aggregate, Graph.Cache: `EdgeID` and the other
-- keys, the criticalities, the two passes over the inputs, the indexes over the new edges, and
-- `ApplySnapshot` of internal/graph/cache.go. `apply_snapshot` takes the cache, both lists of inputs
-- and the time, and returns the new cache; the lock makes each call atomic.
-- Graph.Queries: `Snapshot`, the lists, the dependency map, `GetSecretImpact` and
-- `GetWorkloadDependencies` of the same file.
-- Discovery.SecretRefs: internal/discovery/annotations.go. Discovery.Objects, Metadata, Infer, Merge
-- and Extract: internal/discovery/extractor.go, which makes the inputs.
-- Discovery.Custom: internal/discovery/crd_helpers.go, and for each kind of custom resource the module
-- named like it: Certificate (certmanager.go), ExternalSecret, SecretProviderClass, KafkaConnector and
-- Connector (confluentconnector.go); References has the matches of the two regular expressions in
-- these files, which end in a target without `}` or `:`, a key without `}`, and a `}`.
-- Discovery.Edges: what the edges of every kind of workload have in common.
-- Controller.Namespaces, Loop and Rebuild: the namespace filter, the loop that turns requests into
-- rebuilds, as a step relation, and `rebuild` of internal/controller/controller.go.
-- Controller.Events: its event handlers, which request the rebuilds.
-- Controller.Status: the informers that `New` makes, the loop of `Start` over them, and the readiness
-- that `Status` and `CacheSyncStatus` tell, of the same file.
-- Controller.Owners: internal/controller/owner_resolution.go.
-- Agent: cmd/kbeacon-agent/main.go, from the flags and the loaded configuration to the parts of the
-- agent. It is `none` where the process exits with status 1 before the controller is made.
-- Metrics.Collector and Runtime: internal/metrics/collector.go and runtime.go. What `Collect` sends on
-- its channel is a list.
-- Server.Page, Query, Handlers and Health: pages, query parameters and paths, the handlers that read
-- the graph, and those that tell the state of the agent, of internal/server/server.go.
-- Config.Types, Csv and Load: internal/config/config.go.
-- Cli.Document, Index, Diff, Include, Render and Run: cmd/kbeaconctl/snapshot_diff.go, from the
-- decoded documents to the exit status. Cli.Settings, ConfigFile and Commands:
-- cmd/kbeaconctl/cli_config.go. Cli.Usage, Export and Report: the command's name, the snapshot export
-- and the impact report in cmd/kbeaconctl/main.go.
-- Prelude, Text, Rearrange, Pairs, Sort, Dict and Json: numbers, Go strings, rearranged lists, lists whose
-- elements differ, sorting, Go maps and decoded JSON values.
--
-- A Go string is a list of bytes, and lower case, folding, blanks and quoting are those of ASCII. A map
-- is a list of keys and values in the order of insertion; where Go ranges over a map in an order that
-- shows, the order is an argument. A time is a number, with 0 for the zero time. Impact scores are whole
-- numbers, and so are the values of metrics. The counter of observed changes wraps at 64 bits, and a
-- number in a query that does not fit 64 bits is refused. The printer of decimal numbers has one unit of
-- fuel more than the number, which has fewer digits than that. The search for an id that no other value
-- of a snapshot has tries one id more than are taken. A pointer that may be nil is an option. The
-- JSON and YAML packages, `time.ParseDuration`, the readers of nested fields of unstructured objects,
-- `WaitForCacheSync`, the Unix seconds of a time, the agent's answers to requests, the flags, the
-- environment, the file system and `url.PathUnescape` are arguments. A number of the Go type int that
-- counts elements of a list does not wrap.
--
-- Not modelled: the recorder of internal/metrics, which only passes numbers to the Prometheus library,
-- and the help texts of metrics; the other requests of kbeaconctl; the encoding of answers as JSON and
-- the matching of routes; the signals and the HTTP server's life in the agent; logs, statistics and
-- the length of the debounce time; the Kubernetes client.
pub mod Prelude
pub mod Text
pub mod Rearrange
pub mod Sort
pub mod Dict
pub mod Json
pub mod Graph
pub mod Controller
pub mod Pairs
pub mod Metrics
pub mod Server
pub mod Cli
pub mod Config
pub mod Discovery
pub mod Agent
