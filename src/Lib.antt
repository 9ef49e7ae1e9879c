-- ===== src/Lib.antt =====
-- Compute-Sentry: the health of GPU jobs on Kubernetes, modelled after its Go code.
--
-- A spy library in a job's containers sends an event for each NCCL or CUDA call to the agent on the
-- node. The agent counts events for Prometheus and flags a pod whose all-reduces are too slow too
-- often, by an annotation of the pod. The operator injects the spy library into pods, with the numbers
-- of the matching policy as another annotation that the agent reads, and taints nodes and evicts pods
-- that are marked unhealthy.
--
-- Files:
-- - Prelude: shared names, and what the code takes from Go: Prelude/Int (int64 with wrap-around),
--   Prelude/Text (strings as bytes, bytesToString, the "namespace/name" keys), Prelude/Map (maps),
--   Prelude/Float (float64 quotients and their tests, computed exactly), Prelude/Decimal (Sprintf %d).
-- - Api: operator/api/v1/computesentrypolicy_types.go. Api/Codec is what the program relies on
--   of json.Marshal and json.Unmarshal of a GovernanceConfig, and Api/Json the text that they write and
--   read, which fills it: Api/Json/Lexer the scanner, Api/Json/Parser the grammar, Api/Json/Config the
--   tags. Objects has the fields of the Kubernetes objects that the code uses.
-- - Collector: agent/collector/collector.go: `decode` (binary.Read), `receive` and `listen` (listen);
--   Collector/Socket has Start, with the failure of each system call as an argument.
-- - Evaluator: agent/collector/evaluator.go. Evaluator/State has HealthEvaluator, Start, Stop,
--   markPodStatus, fetchAndCachePodConfig, syncNodePods; Evaluator/Process processEvent and
--   countViolationsLocked; Evaluator/Sweep checkRecoveryAndCleanup; Evaluator/Loop runLoop and
--   periodicSync. An event is one step, and a sweep is: both run in runLoop's goroutine, and
--   only periodicSync's syncs come between their critical sections. Evaluator/Sections takes an event
--   apart, with the syncs between; a sweep's later sections leave the configurations alone. The input
--   `close` is when both loops have returned after Stop: what a select still takes before that are
--   inputs before it. Responses of the API server and
--   readings of the clock are arguments; the calls on the API server are results.
--   Evaluator/History is an account of a pod by its violations, without the maps, and
--   Evaluator/Alternation what the calls have told of a pod: both are what the code is measured by.
-- - Health: operator/internal/controller/health_controller.go. Health/Server is the API server as an
--   interface, with the laws of merge patches and evictions, and the actions that the operations are;
--   Health/Status has getNodePodsHealthStatus' count, evaluateNodeTaintDecision and the test of
--   checkEvictionThrottling; Health/Taints taintNode, untaintNode, untaintNodeIfTaintedByUs;
--   Health/Reconcile findMatchingPolicy, evictPod and Reconcile, cut at its early returns.
-- - Mutator: operator/internal/webhook/v1/pod_mutator.go, Handle: Mutator/Policy the choice of the
--   policy, Mutator/Containers and Mutator/Inject the injection and the answer. Variables from envFrom are
--   not looked at, as in the code.
-- - Exporter: agent/exporter/prometheus.go, Record and the labels; Exporter/Utf8 the test that the
--   Prometheus client makes of their values.
-- - Agent: agent/main.go: getTopology, the steps of main with its fatal exits, the main loop;
--   Agent/Files distributeFile, with the failure of each system call as an argument.
-- - Operator: operator/cmd/main.go: the servers' options and the steps of the start; ctrl.GetConfigOrDie, which
--   exits by itself, is one of them.
-- - Copies: operator/api/v1/zz_generated.deepcopy.go, on a memory of cells for what the structs point to
--   (Copies/Structs), read through Copies/Views.
-- - Policies: operator/internal/webhook/v1/computesentrypolicy_webhook.go and the reconciler in
--   operator/internal/controller/computesentrypolicy_controller.go; Registration what the builders of
--   the controllers and of this webhook are told.
-- - System: the collector and the evaluator together; System/Windowless a policy on its way from its
--   webhooks to the agent; System/Alarm a violation, and System/Recovery
--   a recovery, on their way from the agent to the operator, over the API server of System/Served.
-- - Tests: the definitions and theorems on concrete inputs.
--
-- Bounds and fuel: the scaling of a float64 quotient runs on fuel of 128 doublings, and counts below
-- 2 ^ 76 need fewer; the decimal digits of n run on fuel n + 1; the JSON parser on twice the number of
-- tokens and one, of which it uses at most two for each token. Pod and node counts are natural numbers;
-- int64 results are reduced by wrap64 where the code computes them.
--
-- Not modelled: the C++ spy library, but for the layout of its events; the HTTP server and the
-- Prometheus registry; the library objects that the set-up calls. Label selectors, the admission
-- decoder, json.Marshal of a pod, apimachinery's own deep copies and the API server are parameters.
pub mod Prelude
pub mod Api
pub mod Objects
pub mod Collector
pub mod Evaluator
pub mod Health
pub mod Mutator
pub mod Exporter
pub mod Agent
pub mod Copies
pub mod Operator
pub mod Policies
pub mod Registration
pub mod System
pub mod Tests
