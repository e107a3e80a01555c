-- ===== src/Lib.antt =====
-- The operator of managed OpenShift Container Storage (ocs-osd-deployer), as a model and theorems
-- about it.
--
-- The program and its parts
--
-- The manager (main.go) reads seven environment variables, creates the one ManagedOCS resource and
-- starts the controller of controllers/managedocs_controller.go. Each event that passes a predicate
-- of SetupWithManager starts a run of Reconcile. A run empties the fields of the reconciler, reads
-- the resource, and goes through reconcilePhases: it looks at the request to uninstall, computes the
-- status of the components, and then either takes a deleted resource down, or reconciles all
-- resources in a fixed order and uninstalls if that was asked for and is possible, or removes the
-- operator's own cluster service version. At its end the run writes the status. The desired
-- resources come from templates/. A second program (cmd/awsDataGather) copies the networks of the
-- VPC from the metadata server into a config map, from which the controller takes egress rules. A
-- third (readinessProbe) answers a probe from the status of the resource.
--
-- The files
--
-- Base: the native numbers, Boolean tests, lists, association lists for Go maps, integers, and the
--   text functions of strings and strconv that the program calls (Split, Join, Replace, ToLower,
--   LastIndex, Atoi, ParseBool).
-- Utils: utils/utils.go (Slices, Retry, PodName), utils/imds.go (Imds), utils/resources.go
--   (Resources) and utils/rook.go (Rook).
-- Api: api/v1alpha1/managedocs_types.go.
-- Kube: the fields of the resources that the program sets (Storage, Network, Monitoring, Workload),
--   objects by kind (Object), actions on a state with errors and panics (Exec), what they keep and
--   what their success means (Keeps, Succeeds), and all that the program calls and that stands in
--   other projects (Env).
-- Templates: templates/.
-- Controllers: controllers/managedocs_controller.go. State, Slots and Init are the reconciler's
--   fields and initReconciler; Actions are get, list, update, delete and own; Status,
--   StorageCluster, ConfigMaps, Prometheus, Monitoring, Alerts, Egress, Policies and Operators are
--   the methods of these parts; Removal is how reconcilePhases ends a resource, and Phases is the
--   rest of it and Reconcile; Lifecycle is the specification of a run: its phase, and the calls of
--   the phase in their order; Predicates and Watches are SetupWithManager; Rbac holds the
--   permissions of the markers above it and of config/rbac/leader_election_role.yaml. Effects shows
--   of each method which invariants of the fields and of the calls it keeps, History is the
--   relation of runs, restarts and changes by others in any order. StorageCluster.Meaning says what
--   is meant by each kind of storage cluster, of its fields alone. The other children hold theorems.
-- Setup: main.go; the variables are read and the resource is created in Setup itself, and the steps
--   up to the start of the manager are Main.
-- Readiness: readinessProbe/main.go and readinessProbe/readiness/server.go.
-- AwsDataGather: cmd/awsDataGather/main.go, with Backoff for what the loop sleeps and Gather for the
--   start, an attempt and the loop.
-- Tests: the theorems at concrete inputs.
--
-- How the code is modelled
--
-- A method is a function from a World to a result and a World: the reconciler's fields, the state of
-- the cluster, and a journal of the writing calls that were issued, which the program does not have
-- and no method reads. A result is a value, an error or a panic; a write through a nil pointer and
-- an index that is out of range are panics. The state survives an error. The API server and the
-- functions of other packages (url.Parse, resource.ParseQuantity, equality.Semantic.DeepEqual,
-- yaml.Marshal, json.Marshal, SetControllerReference, ReadFile) are fields of Env, each a parameter
-- of which a theorem that relies on what it documents says so; every call may change the cluster,
-- so that other clients may act between two calls. ctrl.CreateOrUpdate is a parameter whose only
-- assumption is that it does what its documentation says (Controllers.Actions.documented). The
-- HTTP server of the metadata service is a parameter of Utils.Imds. The gatherer's client is one
-- of AwsDataGather.Gather, assumed to save what its function makes of the object; the manager,
-- the two clients and the builder that main calls are fields of Setup.Main.Platform. What the
-- permissions mean, and which traffic a rule selects, are definitions of Controllers.Rbac and
-- parameters of Controllers.Egress.Traffic: a write is granted if some rule names its group,
-- resource and verb, and the first egress rule that selects an address decides on it.
--
-- A map is an association list, in which no order is observed; an integer of the code is an integer
-- without bounds, and the rounding of float64 in the provider's device sets is written out for
-- magnitudes below 2^64. The one loop without a bound in the controller, over the numbered e-mail
-- addresses, runs on fuel: one more than the number of parameters, which is enough since each round
-- but the last uses up one parameter. The endless loop of the gatherer is cut after a number of
-- rounds that is a variable of the theorems, so that they speak of each of its rounds.
--
-- Time is counted in the gatherer's loop alone, in seconds: those that it sleeps, and those that an
-- attempt lasts, which are a parameter. `http.Get` has no timeout, so a bound on them is a property
-- of the network and a hypothesis where it is used; an attempt that never ends is outside of the
-- model. What is meant by a storage cluster of a deployment type leaves the gateway's setting open.
--
-- Not modelled
--
-- Logging, contexts, flags and schemes; the manager and the builder's registration of watches, which
-- are other projects' code; the namespaces that the permissions are bound to; the events on the
-- ManagedOCS resource itself and those that reach it through an owner reference; the HTTP listener of
-- the probe; generated deep copies; the test utilities; the copies of other projects under vendor/.
-- An error's text stands without the names and values that fmt puts in.
pub mod Base
pub mod Utils
pub mod Api
pub mod Kube
pub mod Templates
pub mod Controllers
pub mod Readiness
pub mod AwsDataGather
pub mod Setup
pub mod Tests
