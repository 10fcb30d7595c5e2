-- ===== src/Lib.antt =====
-- Verification of logpilot: the operator, the admission webhook and the node agent.
--
-- The program. A LogPilotPolicy names the containers whose logs are wanted and what is to be done
-- with them. The operator validates policies (internal/log-pilot-operator/policy_validation.go) and
-- keeps the objects that a LogPilot stands for: the agent's daemon set, the webhook's deployment and
-- what these need (deploy.go and logpilot_controller.go there). The webhook writes the policies that
-- match a pod into an annotation of it and mounts the volumes for its logs
-- (internal/log-pilot-api/injector.go). The agent on the pod's node reads the annotation, makes the
-- log paths and starts a runner per container and log type (internal/log-pilot-agent/watcher); the
-- node that holds a cluster policy's lease runs that policy. A runner reads batches from an input,
-- transforms them, writes them to an output until that accepts them, and then commits the input
-- (internal/log-pilot-agent/runner). Inputs are directories of log files and, for cluster policies,
-- the events and the objects of the cluster (internal/log-pilot-agent/input).
--
-- The files.
--   Prelude       shared names, lists over the native numbers, Go's maps as association lists
--   Api           api/v1alpha1: the specs of the policies
--   Json          extractString and its kin, and the JSON codec, which is a parameter
--   Operator      Validation is policy_validation.go; Agreement compares it with the agent. LogPilot
--                 is api/v1alpha1/logpilot_types.go and the objects of Kubernetes; Deploy and
--                 Reconcile are deploy.go; Controller is logpilot_controller.go; Policies are the
--                 two controllers of policies. Reconcile/Contract holds what is relied on of the
--                 API server
--   Webhook       Injector is injector.go, Server is api.go
--   Agent         Record, Transform, Output, Clean and Status are input.go, transform/, output/,
--                 clean/ and status/server.go. Runner is runner/runner.go, with its stop in
--                 Runner/Control. Input/Filter, Input/File and Input/Dir are the file name filters,
--                 input/file.go and input/dir.go; Input/Events, Input/Objects and Input/Channel are
--                 input/k8sevent.go, input/k8sobjectstate.go and the queue of both. Watcher/Build,
--                 Watcher/Pods, Watcher/Lease, Watcher/Label, Watcher/Cluster, Watcher/Start and
--                 Watcher/Reports are the parts of watcher/watcher.go and watcher/symlink.go.
--                 Program is the configuration in cmd/log-pilot-agent/main.go
--   Handover      how the webhook and the agent meet in a pod's annotation; Admission: the same from
--                 the request on; LogPath: how the operator, the webhook and the agent agree on where
--                 logs are; Access: what the agent asks of the API server, and what its role allows
--   Tests         the theorems at concrete inputs
--
-- How state is modelled. A struct is a record and a method a function from the state to the state,
-- with the result beside it. The names are those of the code, in lower case with underscores: the
-- loop of `Run` is `run_loop`, `readLine` is `read_line`. The runner's input and output are records of
-- functions on states of their own, so its theorems hold for every input and output; each call on
-- them is recorded in a trace. The file system that an input reads is a function from the round to
-- what the system answers, so that files may be renamed, truncated and removed between rounds. The
-- API server that grants leases or delivers events is a script of its answers; the one that the
-- operator writes to is a record of operations on a state of its own, with laws. Where goroutines
-- share a state, in the stop of a runner and in its reports, each goroutine's steps are a relation, so
-- that every interleaving is covered; where the namespaces of the event input share their version, what
-- the others leave in it is an argument.
--
-- Time, fuel and bounds. The runner's time counts milliseconds and a context is a function from the
-- time to whether it is done; a wait of the back-off advances the time, and ends early where the context is done. The loops of the runner and of
-- the directory input run on fuel; the theorems on termination and on the lines read say how much is
-- enough. Counters and offsets are natural numbers without a bound: at the sizes of log files an
-- int64 does not wrap.
--
-- Parameters. JSON decoding and encoding, regular expressions, label selectors, path/filepath, the
-- operating system and the API server are arguments of the definitions that use them, with what a
-- theorem needs of them among its hypotheses.
--
-- Not modelled. The removal of the log path of a deleted pod; the bound of the queue of the Kubernetes
-- inputs and the counter behind their `Lag`; the programs' start-up but for the agent's configuration, which is flags and registration. The copies in
-- zz_generated.deepcopy.go are generated.
pub mod Prelude
pub mod Api
pub mod Json
pub mod Operator
pub mod Webhook
pub mod Agent
pub mod Handover
pub mod Tests
