-- ===== src/Lib.antt =====
-- A verification library for subctl, the command line tool of Submariner: the parts of it that change
-- clusters, as runs against an API server of which nothing is assumed.
--
-- Base holds what the parts share. Base/Effect is the model of Go code that reports to the user and
-- calls the Kubernetes API: a run takes the log of all events so far, newest first, and returns a
-- result or an error with the log after it. What a call answers is a function of the call's arguments
-- and of that log, so every answer of an API server that changes at any time is among them. Objects are
-- known by their kind, namespace and name. A theorem on all runs says nothing of the answers but what
-- its hypotheses say. Base/Keep has the rules for a property that a run keeps of its log, Base/Ensure
-- and Base/Results those for what a successful run ensures, Base/Report those for runs that report each
-- error. Base/Steps says that a call was made and how it was answered, which can be read off the log,
-- and Base/Perform has the rules for the steps that a successful run has done.
--
-- The parts, and the sources each stands for:
--   Kube       The clients of one cluster, as arguments (pkg/client is a wrapper around client-go).
--   Uninstall  pkg/uninstall/all.go: All removes Submariner, Lighthouse, the broker if it is unused, the
--              roles, the CRDs and the labels of the gateway nodes. Its Api argument answers its calls.
--   Cluster    Cluster/Id is pkg/cluster/id.go with determineClusterID of cmd/subctl/join.go;
--              Cluster/Overrides is MergeImageOverrides and GetImageRepositoryInfo of
--              pkg/cluster/info.go with pkg/image/repository_info.go; Cluster/Info is the rest of
--              pkg/cluster/info.go.
--   Broker     pkg/broker/ensure.go with pkg/serviceaccount/ensure.go, pkg/namespace/ensure.go,
--              pkg/secret/ensure.go and pkg/gateway/crds.go; Broker/Info is pkg/broker/info.go.
--   Operator   pkg/operator/ensure.go with the ensure.go files of pkg/operator/crds,
--              pkg/operator/serviceaccount, pkg/operator/ocp, pkg/submariner,
--              pkg/submariner/serviceaccount, pkg/lighthouse and pkg/lighthouse/serviceaccount.
--   Deploy     pkg/deploy/submariner.go and pkg/deploy/servicediscovery.go (the specifications);
--              Deploy/Brokers is pkg/deploy/broker.go with pkg/brokercr/ensure.go.
--   Join       pkg/join/join.go and pkg/join/options.go; Join/Version is pkg/version/version.go.
--   Pods       internal/pods/schedule.go: a pod is created, awaited, read and deleted.
--   Contexts   internal/restconfig/restconfig.go: the kube contexts that a command runs on. Contexts/Defs
--              is the run on the selected one, Contexts/Prefixes that on a prefixed one, Contexts/Several
--              that on several at once, Contexts/Plan that on all.
--   Upgrade    cmd/subctl/upgrade.go with getBroker of cmd/subctl/broker.go.
--   Diagnose   pkg/diagnose: deployments.go, deployment_metrics.go (Diagnose/Metrics), connections.go,
--              globalnet.go, servicediscovery.go (Diagnose/Exports), k8s_version.go and kubeproxy.go
--              (Diagnose/Platform), the firewall checks (Diagnose/Firewall) and the IP pools of Calico in
--              cni.go (Diagnose/Calico). Diagnose itself has the tracker of failures.
--   Verify     The choice of the verifications in cmd/subctl/verify.go.
--   Status     internal/cli/status.go: the reporter that the commands report to.
--
-- How they interact: the broker command checks its options, ensures the broker's resources (Broker) and
-- the operator (Operator), and creates the Broker resource. The join command checks the version, reads
-- the broker info, connects to the broker (Broker/Info), checks that the cluster ID (Cluster/Id) is
-- unique, and then ensures the operator, a service account on the broker with its token (Broker), and
-- the custom resource whose specification Deploy builds. The uninstall command asks the broker for
-- other clusters before it deletes what they share. The calls of the reporter that a run logs are
-- those whose display Status is about. The upgrade, diagnose and verify commands are run on the contexts
-- that Contexts chooses, each with the Cluster/Info of its cluster; the upgrade deploys the broker again
-- (Deploy/Brokers) or the operator, and the check of kube-proxy schedules a pod (Pods).
--
-- Names follow the sources: a function keeps its name in snake case, a Go error is an Error with its
-- cause, and a wrapped error keeps it. Where several packages have an Ensure, the name says which:
-- ensure_operator is that of pkg/operator, ensure_submariner that of pkg/submariner, and so on. A Go map
-- is an association list, a set of components the list it was made of. Texts that are taken apart
-- are lists of code points. Go's int of the version check is ℤ; the other integers are only passed on.
--
-- Bounds: the loop of ensureDeleted runs for the rounds of the poll that its Api argument gives, and the
-- theorems hold for any number of them. The back-off that waits for a token has its 15 steps. All other
-- loops go over lists.
--
-- Not modelled: the commands' flags and help (cmd/subctl, and the set-up of the flags
-- in internal/restconfig), the rest of cni.go of pkg/diagnose, what only reads and prints
-- (internal/show, internal/gather, internal/benchmark), the cloud preparation (pkg/cloud), the end-to-end
-- tests that "subctl verify" starts, and the fields of the objects that come from embedded YAML. The
-- operator's own packages, admiral, the test framework and client-go are parameters.
pub mod Base
pub mod Broker
pub mod Cluster
pub mod Contexts
pub mod Deploy
pub mod Diagnose
pub mod Join
pub mod Kube
pub mod Operator
pub mod Pods
pub mod Status
pub mod Uninstall
pub mod Upgrade
pub mod Verify
