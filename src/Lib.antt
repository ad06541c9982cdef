-- ===== src/Lib.antt =====
-- The onboarding manager of the edge infrastructure: how edge nodes are onboarded, and what the reconcilers
-- do to hosts and instances.
--
-- The inventory holds a desired and a current state for every host and every instance. The onboarding
-- manager reconciles them. For an instance it starts a Tinkerbell workflow on the instance's host, follows
-- it, and reports statuses to the inventory; it removes the workflow when the instance is deleted, or when
-- the host is no longer trusted. For a host it revokes credentials and deletes what belongs to the host.
-- An edge node registers over a stream: the manager looks for its host by UUID and serial number, answers,
-- hands out credentials once the host is meant to be onboarded, and then starts zero touch, which makes an
-- instance or has the one that is there reconciled over the client's channel of internal events. On its
-- side the node asks again until it is onboarded, and fetches its tokens, or falls back to a login by the
-- operator and a registration by CreateNodes.
--
-- How the program is modelled. A function that calls out is an `Act` (Act.antt): it takes the calls made
-- so far and gives its result, or a panic where the code dereferences a nil pointer, with the calls made by
-- then. `Env` (Api/Env.antt) says how each call is answered; an answer may depend on all calls before it,
-- so that a statement over all `Env` covers every failure and every interference by other clients. Errors
-- are an abstract type with the questions that the code asks of them (Api/Errors.antt); `IsLawful` is what
-- the packages document of these. `Makes` (Act/Makes.antt) bounds the calls that an action makes, and
-- `Past` (Act/Past.antt) tells what has happened in an action that gave no error. A function that changes
-- an instance in place returns the changed instance.
--
-- Which file models what. Paths are below onboarding-manager/ where nothing else is said.
--   Api/          the inventory's messages, Tinkerbell's resources, the calls: not code of the repository
--   DeviceInfo    internal/onboarding/types/types.go (DeviceInfo)
--   Status        pkg/status/status.go (the statuses, NewStatusWithDetails)
--   Util          internal/util/util.go (IsSame..., Populate..., IsStandalone)
--   Tinkerbell    internal/tinkerbell/status.go, client.go, bootstrap.go: the detail of a workflow's state,
--                 and Kubernetes resources; internal/tinkerbell/template_data.go: Tinkerbell/Images has the
--                 images of the actions and detectImageFormat, Tinkerbell/Inputs GenerateWorkflowInputs
--   CloudInit     pkg/cloudinit/config.go, generate.go: options, validation, GenerateFromInfraConfig
--   PlatformBundle
--                 pkg/platformbundle/platformbundle.go: the scripts of a bundle, and their cache
--   Dkam          of the sibling dkam/: pkg/config/config.go (InfraConfig), and pkg/curation/curation.go:
--                 Firewall has the commands for a rule, Variables and Curation the variables of a template
--   Inventory     internal/invclient/invclient.go, common.go: updates by field mask, reads, deletions;
--                 the setters of states and statuses in Inventory/Setters; lookups and creation in
--                 Inventory/Lookups, what registration and onboarding write in Inventory/Registration
--   Onboarding    internal/onboarding/workflow.go: CheckStatusOrRunProdWorkflow, runProdWorkflow,
--                 handleWorkflowStatus, createENCredentialsIfNotExists, CheckWorkflowExist
--   Reconcilers   internal/handlers/controller/reconcilers/reconciler.go: IDs, HandleInventoryError,
--                 HandleProvisioningError
--   Reconcilers/Device, Provision, Instance
--                 .../reconcilers/instance.go: convertInstanceToDeviceInfo; tryProvisionInstance and
--                 reconcileInstance; the guards and Reconcile of the InstanceReconciler
--   Reconcilers/Host
--                 .../reconcilers/host.go: deleteHost, invalidateHost, and Reconcile of the HostReconciler
--   Controller    internal/handlers/controller/controller.go: event filters, reconcileAll, Start and the
--                 control loop, with FindAllResources of the inventory client
--   Onboardingmgr pkg/api/onboardingmgr/v1: the messages of onboarding.pb.go, and the patterns and checks of
--                 onboarding.pb.validate.go
--   Southbound    internal/handlers/southbound/grpcserver/grpc_server.go: Lookup is getHostResource, Stream
--                 is OnboardNodeStream, ZeroTouch is startZeroTouch, Nodes is CreateNodes
--   Onboarding/Secret
--                 internal/onboarding/common.go: FetchClientSecret
--   DeviceDiscovery
--                 of the sibling hook-os/device_discovery/, the program on the edge node: Stream is
--                 onboarding-client.go, Auth client-secret-auth.go, Onboard the rest of the registration and
--                 Kernel the settings in device-discovery.go, parse-kernel-arguments.go, system_info_by_mac.go
--   Examples      concrete surroundings, and the theorems applied in them
-- Each of these has child modules for what is proved of it.
--
-- Simplifications. The text of an error does not hold the values that are printed into it. Logging,
-- tracing, metrics and time-outs are left out. The clock is read once for each message. The filter of a
-- list call is data. A copy made by proto.Clone has an address of its own, which is all that `==` on
-- pointers sees. The order in which Go visits the map of templates is an argument of `bootstrap`. Templates,
-- their embedded files, strconv.Quote and JSON are a part of `Env`; so is the configuration, which may change
-- between two reads. The cache of platform bundles is what the calls so far have stored in it. The fields
-- that reflection finds in a workflow's inputs are written out. The instrumentation in getWorkflow, which
-- measures the time of actions for the log, is left out. No loop needs fuel but the printing of a number in
-- decimal, which has as much as the number itself; the three attempts of an edge node are counted down.
--
-- The answers of `Recv` on an onboarding stream are a list, in order, on which the loop is recursive, on both
-- sides; where it ends, the program waits. Closing a connection is left out, and so is the random part of a
-- wait. A message that the manager is sent is never nil.
--
-- Not modelled: the listings of the inventory client that only tests call, the rest of dkam (reading the
-- configuration, downloads, signing), main and the time-out of device_discovery, and the other programs of
-- the repository (tink-worker, tinker-actions).
pub mod Act
pub mod Api
pub mod CloudInit
pub mod Controller
pub mod DeviceDiscovery
pub mod DeviceInfo
pub mod Dkam
pub mod Examples
pub mod Inventory
pub mod Onboarding
pub mod Onboardingmgr
pub mod PlatformBundle
pub mod Prelude
pub mod Reconcilers
pub mod Southbound
pub mod Status
pub mod Tinkerbell
pub mod Util
