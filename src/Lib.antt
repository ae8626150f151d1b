-- ===== src/Lib.antt =====
-- A model of gitrepo-csi-driver, a CSI driver that mounts the content of git repositories into pods.
--
-- The program has two services. The admission webhook (cmd/admission-webhook/main.go) sees a pod before
-- it is stored and denies it unless every volume of the driver is read-only, has valid attributes
-- (pkg/volume) and asks for what the operator's policies allow (pkg/policy). The node plugin
-- (cmd/nodeplugin) is called by the kubelet: it validates and evaluates the request once more, lets a
-- backend (pkg/materializer) fetch the content into a cache (pkg/cache), writes metadata beside it, and
-- publishes a read-only copy at the target path. An HTTP handler does the same with a link.
--
-- Files:
-- - Base, Text, Paths, Library: what the components share. A Go string is the list of its bytes (Text),
--   an int a ℤ, an `error` the format and the arguments of its text or a wrapped error (Base.Errors).
--   Text has the functions of `strings` and `strconv` that the program calls, Paths those of `path` and
--   `path/filepath`: a path is read into its root, the ".." that are left, and its names
--   (`parse_path`), `clean` prints that, and `rel`, `is_local` and `join_path` work on it. Library
--   holds `url.Parse`, `filepath.Match` and `regexp.Compile` as parameters.
-- - Volume: pkg/volume/attributes.go. `parse` is `Parse`, with a child module for each attribute.
-- - Policy: pkg/policy. Types are types.go, Defaults load.go, and Match, Revision and Evaluate the
--   parts of evaluator.go. YAML decoding, reading files and `time.ParseDuration` are parameters.
-- - Admission: the handler of /validate; `check_volumes` is its loop. Decoding JSON is a parameter.
--   Start is `main` up to the server.
-- - Cache: pkg/cache/cache.go. Evict takes what `os.ReadDir` gives for the root directory, with what a walk
--   of each entry meets, and returns its error and the paths that it removes, in order. Times are natural numbers; a total below 0
--   is 0, which ends the loop as it does in Go. A removal is taken to succeed. Evict.Laws has the two
--   loops, Sorted and Order what they remove, Aged when a directory is aged, Bound and Recount what is
--   left.
-- - Files: trees of files, `filepath.WalkDir` over one, and the masks on file modes. A tree does not
--   change while it is walked.
-- - Materializer: pkg/materializer. Path is `ensureInside`, `safeJoin` and `validateSymlinkTarget`, and
--   Ref `mutableRef`, `isPinnedCommit` and `rejectGitFlagOperand` of materializer.go and gitbinary.go.
--   Limits is `countFiles` and the limits on its numbers, Copy `CopyContentTree`: its writes are a log,
--   and Copy.Spec says what they are, Refine where no write fails and Outcome where the copy returns no
--   error. Action holds the steps that both backends are made of: a step takes the trace of calls so
--   far to a result and a longer trace. GitCommand, Argv and Git are gitbinary.go: the commands, their
--   arguments, and `Materialize`. GoGit is gogit.go, with Library for what go-git answers, Export for
--   `exportTree`, Submodules, and Run for `Materialize`. `Refresh` of both is `Materialize`.
-- - NodePlugin: cmd/nodeplugin. TargetPath is `safeTargetPath`, Errors `mountError` and `csiError`,
--   Pipeline `materialize`, Service `NodePublishVolume` with publish.go, Publish `chmodReadOnly` over a
--   tree, Http the /mount handler, and Server `serveCSI` and what the identity calls answer. In the
--   pipeline, the calls of the system, of the backend and of the metrics are the elements of a trace;
--   their answers are a function of the trace so far, in the record `Environment`. Start is `main` up
--   to the servers. Assembly makes an `Environment` of what Start returns: its answers for the backend,
--   for `metadata.Write`, `CopyContentTree` and `chmodReadOnly` are those of the models of
--   Materializer, Metadata and Publish, which ask a `World` that depends on the trace;
--   Assembly.Isolation is about two runs of the go-git backend at the same time, and Assembly.Admitted
--   about a webhook and a plugin on one file of policies. Metrics says which collectors a call brings
--   up to date.
-- - Observability: pkg/observability/metrics.go, the collectors and their registration. The Prometheus
--   client is a record of a registry and of `MustRegister`; Observability.Laws has the tests of names and
--   labels that the client documents.
-- - Metadata: pkg/metadata/write.go. The order in which Go goes over a map is a parameter.
-- - Tests: runs on concrete inputs, several of them those of the repository's unit tests.
--
-- Loops are structural recursions on the list or the tree they go through, so no fuel is needed; the
-- digits of `strconv.Itoa` take fuel for nineteen, as many as an int has.
--
-- Not modelled: git and go-git, whose answers are parameters; reading and writing the bytes of a file,
-- which is one call; the durations that metrics observe, and the values of gauges; the HTTP and gRPC
-- servers with their time limits and routing, and whole requests that run at the same time. In `Evict`
-- the clock is read once, and of items with one modification time the order is kept. The counters of
-- files and bytes do not overflow. What a failed git command printed is no argument of its error.
pub mod Admission
pub mod Base
pub mod Cache
pub mod Files
pub mod Library
pub mod Materializer
pub mod Metadata
pub mod NodePlugin
pub mod Observability
pub mod Paths
pub mod Policy
pub mod Tests
pub mod Text
pub mod Volume
