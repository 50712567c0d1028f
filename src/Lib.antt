-- ===== src/Lib.antt =====
-- A model of the operators of vcluster-manager: the controllers that create, watch, suspend and
-- destroy the virtual clusters of a host cluster (a cell), and those that back them up and restore
-- them.
--
-- A VCluster object asks for one virtual cluster. Each pass of its controller (Reconcile) refuses
-- an object that is out of place, then either runs the deletion sequence (protection of the spec,
-- Rancher, backup, destruction) or the live path: suspension, admission against the cell's budget,
-- provisioning, integrations, observation, aggregation of the status. The marker
-- VClusterVeleroOps carries orders for backups and restores, and has a controller of its own.
--
-- Prelude.antt          helpers: tests on numbers, options, lists, signed integers
-- Kube.antt             conditions and finalizers, and the functions of apimachinery and
--                       controller-runtime on them, as an interface with their documented laws;
--                       Kube/Store.antt is a concrete instance
-- VCluster.antt         api/v1alpha1/vcluster_types.go, vcluster_deletion.go
-- Reconciler.antt       the fields of VClusterReconciler, the calls that it makes, and one pass as
--                       a function of the object, the clock and the world; Reconciler/Answers.antt
--                       has the result types of internal/service
-- Text.antt, Names.antt names of vclusters, internal/service/vcluster.go (validName) and
--                       internal/controller/namespace_guard.go
-- Ttl.antt              VeleroTTLFromShort of internal/gitops/objects.go
-- Deletion/             internal/controller/vcluster_finalizer.go: Steps (protection, Rancher,
--                       backup), Final (destruction), Sequence (the loop over the steps, the
--                       finalizer); Trace reads the log of a pass, the other files are proofs
-- Status/               internal/controller/vcluster_status.go: Observe and Aggregate
-- Provision.antt        internal/controller/vcluster_provision.go
-- Budget.antt           internal/controller/vcluster_budget.go, internal/kubernetes/budget.go
-- Integrations.antt     internal/controller/vcluster_integrations.go
-- Lifecycle.antt        internal/controller/vcluster_controller.go: Reconcile, reconcileAll and
--                       reconcileSuspend
-- Marker/               internal/controller/veleroops_controller.go, over the seam of
--                       internal/veleroops/ops.go: Backup, Restore, Reconcile
-- Cluster.antt, Cluster/ internal/kubernetes/velero.go over the dynamic client: Workloads
--                       (topology, quiescing, volumes, Flux), Velero (backups and restores),
--                       Orders (the marker); Topology is a proof
-- Velero.antt, Velero/  internal/service/velero.go: Restore (the staged restore in place), Request
--                       (orders and backups), Follow (watcher, polls, inspection), Operator (the
--                       service as the seam of internal/veleroops); the other files are proofs
-- Registry.antt         internal/config/cleaning.go, deleting.go, rancher_pairing.go
-- Teardown.antt, Teardown/ the service behind the deletion: Rancher (internal/service/rancher.go),
--                       Unpairing (the Rancher half of vcluster_deletion.go), Final (teardown,
--                       namespace, backup, protection, sleep)
-- Auth.antt             internal/auth/ratelimit.go and csrf.go
-- Gitops.antt, Gitops/  internal/gitops: the branches and the actions of a commit;
--                       Kustomization is UpdateKustomization of generator.go
-- Gitlab.antt, Gitlab/  internal/gitops/gitlab.go: retries, listings, cache and commits; the files
--                       below it are proofs
-- Fluxprod.antt, Fluxprod/ the service that declares vclusters in Git: Fields, Create and Delete
--                       (internal/service/vcluster.go), Form and Settings (settings.go); the
--                       other files are proofs
-- Charts.antt, Charts/  internal/helmcharts/updater.go; Yaml is its edits of trees
-- Policy.antt           the groups of the ArgoCD policy: their validation
--                       (internal/service/vcluster_validation.go), rendering and parsing
--                       (internal/gitops/generator.go, parser.go) and the form's field
--                       (splitGroups of internal/handlers/vcluster.go)
-- Floor.antt            internal/service/vcluster_quota_floor.go
-- Choice.antt           pickDeletionBackup of internal/service/vcluster_deletion.go
-- Tests/                runs on concrete objects
--
-- A pass is a function from a run (the time, the object, the world, the log of calls) to its
-- result and the next run. A call of the service or of the client takes the world to an answer and
-- a new world, both arbitrary, and is logged with its answer, the latest first; so the statements
-- hold for whatever the cluster does between two calls. The clock is read once for a pass.
--
-- Times and durations are natural numbers of seconds, and 0 is the zero time; a difference of
-- times stops at 0, where time.Since would be negative and exceed no bound either. A text that is
-- taken apart is the list of its code points; ToLower is written out for ASCII. The functions of
-- apimachinery on conditions (KubeApi) and on quantities (QuantityApi) and time.Parse are
-- parameters. Messages of conditions are prose and are left out; where the code branches on a
-- reason, the reason is there. The dynamic client of client-go is a parameter (Dynamic); a theorem
-- that needs its server to be left alone says so (QuietServer). A number of pods is taken to fit the
-- int32 of the status. The waits for pods poll at most
-- sixty times, thirty seconds at two polls a second; the watcher of a restore is given any number
-- of ticks before its deadline, and every number of them ends it. Printing a 64-bit number has fuel
-- for twenty digits, as many as such a number can have.
--
-- The pages of a listing of GitLab are read on fuel: one round more than the number of the last page
-- is enough, and a theorem says so.
--
-- Not modelled: what GitLab is asked for in the repository of an application, the pages that only read and the observation of vclusters (HTTP and client-go calls),
-- the listing and the content of backups, the web pages, the templates of the generator and the
-- parser of values, the remote clients of Rancher, Keycloak and Vault, which are interfaces, login
-- and sessions, the version of ArgoCD and the polling of releases, the configuration but for its lists, and the processes' wiring.
pub mod Prelude
pub mod Kube
pub mod VCluster
pub mod Velero
pub mod Reconciler
pub mod Registry
pub mod Auth
pub mod Policy
pub mod Gitops
pub mod Gitlab
pub mod Fluxprod
pub mod Teardown
pub mod Text
pub mod Deletion
pub mod Status
pub mod Names
pub mod Ttl
pub mod Provision
pub mod Budget
pub mod Integrations
pub mod Lifecycle
pub mod Marker
pub mod Charts
pub mod Choice
pub mod Cluster
pub mod Floor
pub mod Tests
