-- ===== src/Lib.antt =====
-- kube-drift: an operator that compares the resources of a Kubernetes cluster with the manifests that
-- a DriftCheck names, writes the outcome to its status, and tells webhooks.
--
-- The program's parts, and the files that model them:
--
--   api/v1alpha1/types.go                              Api
--   internal/controller/driftcheck_controller.go       Controller, and of its child modules
--     Reconcile, markNotReady, permanentFail             Controller/Reconcile
--     buildSource, resolveGitAuth, applyTarget           Controller/Sources, Controller/Secrets
--     configMapManifests                                 Controller/ConfigMaps
--     summarize                                          Controller/Summary
--   internal/controller/notify.go
--     notify, resolveWebhookURL, event                   Controller/Notifying
--     buildEvent, driftCount                             Controller/Summary
--     driftHash                                          Controller/Fingerprint
--   internal/notify/notify.go                          Notify, Notify/Payload, Notify/Sender; what it
--                                                      needs of encoding/json is in Notify/Json
--   cmd/main.go                                        Manager, with package flag's reading of the
--                                                      command line in Manager/CommandLine
--     init, here, in api/v1alpha1/types.go and           Manager/Initialization
--     groupversion_info.go, and in internal/metrics
--   api/v1alpha1/zz_generated.deepcopy.go              DeepCopy, and of its child modules
--     DeepCopyInto, DeepCopy, DeepCopyObject             DeepCopy/Copies, DeepCopy/Named
--   internal/metrics/metrics.go                        Metrics
--   internal/source/git.go                             Source, Source/Auth, Source/Clone,
--                                                      Source/Checkout
--   internal/source/helm.go                            Source/Values, Source/Dependencies, Source/Helm;
--                                                      the goroutines of runBuildDeps are in
--                                                      Source/Dependencies/Background
--   internal/source/kustomize.go                       Source/Helm, Source/Load
--   internal/source/target.go                          Source/Target, Source/Load
--   test/utils/utils.go                                EndToEnd
--
-- A reconcile reads its check, builds a source, runs kube-diff's engine over the `Load` of that
-- source, writes the status, sets the gauges and notifies. A function that acts is an `Exec S A` of
-- Machine: it takes the world, of an unknown type `S`, and the calls made so far, and gives a value or
-- an error, the next world, and the calls with its own in front. So an early return keeps what was
-- done before it, and the theorems can speak of views of the calls: the temporary directories that are
-- left, the statuses that were written. A deferred function is written behind the body, which is run
-- under `attempt`. A pure function is a function by clauses, and a fallible one gives a `Result` of
-- Errors, whose error keeps the format and the arguments of its `fmt.Errorf`.
--
-- The code that the repository only calls is a parameter: the records of Libraries and Source/Charts
-- (client-go, controller-runtime, Prometheus, kube-diff, go-git, Helm, Kustomize, securejoin, the
-- operating system, net/http, SHA-256). They are arbitrary functions; a theorem that needs something of
-- one of them names it as a hypothesis.
--
-- The process of cmd/main.go is a `Program S A` of Manager: it takes the world and the steps made so
-- far, and gives a value, or none where `os.Exit` or a panic has ended it. It acts on the same worlds:
-- the reconciler that it sets up is one of Controller, and Manager/Wiring puts the two together. The
-- helpers of the end-to-end tests, in EndToEnd, act on a world too, and may return a text and an error.
--
-- Everywhere else a value is immutable, so that a copy is the value itself. Only DeepCopy knows memory:
-- its objects have the addresses of what their pointers and slices refer to, and a copy takes the next
-- free address and gives the one behind those that it used. DeepCopy/Values reads such an object as the
-- value of Api that the other modules speak of; DeepCopy/ApiTypes lists the types.
--
-- Representation: a Go string or byte slice is a list of code points (`Text`), an int of a count is a
-- natural number, which grows by one for each resource and does not come near the word size, and a
-- duration is an integer of nanoseconds. A Go map is the list of its entries in an arbitrary order. A
-- pointer that may be nil is an option. Loops are structural recursions. `sprintf` and the marshalling
-- of Notify/Json cover the verbs and types that the program uses. The fuel of `decimal` is one more than
-- the number; Errors/Format/Decimal reads the digits back, so that it is enough.
-- The reader of JSON in Notify/Json/Reader, which stands for a receiver of the webhooks, spends a unit of
-- fuel for each call; twice the length of its input and one more is enough for what was marshalled.
--
-- The only concurrency is in a dependency build: Source/Dependencies/Background has its goroutine, its
-- caller and the context as turns that interleave in any order, and shows that the answer is the one of
-- `run_build_deps`, which the sources use and for which a parameter decides what the select takes.
-- If it takes that of the context, a parameter says how far the build has come, a `Progress`, and the
-- calls that it has made until then are among those of the run.
--
-- Not modelled: log lines, contexts but for the cancellation of a dependency build, the calls that such
-- a build makes after its caller has gone, panics of the libraries but for those in the build and of the
-- registrations, and the packaging.
--
-- Common has what all modules share; Tests has a small cluster with examples of the theorems.
pub mod Common
pub mod Errors
pub mod Api
pub mod Notify
pub mod Machine
pub mod Libraries
pub mod Source
pub mod Metrics
pub mod Controller
pub mod Manager
pub mod DeepCopy
pub mod EndToEnd
mod Tests
