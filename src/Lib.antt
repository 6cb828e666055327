-- ===== src/Lib.antt =====
-- KubeDTN, a network emulator on Kubernetes: a controller turns changes of Topology resources
-- into calls of a daemon on each node, and the daemons make, shape and delete the links of pods
-- with veth pairs, VXLAN devices and gRPC wires. A CNI plugin asks the local daemon to set up and
-- destroy pods, and a command line tool makes the host's side of a link to a physical host.
--
-- Files and code:
-- - Api: the resource and its messages (api/v1/topology_types.go, proto/v1/kube_dtn.proto).
--   Api/Conversion is `ToProto`, Api/Equality is `reflect.DeepEqual` on links, Api/Client the
--   client and the requests of api/clientset/v1beta1/topology.go, Api/Scheme
--   api/v1/groupversion_info.go. Api/DeepCopy is api/v1/zz_generated.deepcopy.go, on the structs
--   as they stand in a memory of arrays (Api/Cells, Prelude/Memory), where slices can share an
--   array.
-- - Controller: controllers/topology_controller.go over an abstract cluster. Diff is `CalcDiff`,
--   Reconcile is `Reconcile` with the three calls it sends, Main is main.go with
--   `SetupWithManager`.
-- - Platform: what the daemon uses of its node, of the Kubernetes API and of other daemons.
-- - Common: common/utils.go, context.go, qdisc.go, veth.go. Rate, Percent and Vni parse and
--   compute values, Qdisc/Make and Qdisc/Apply are `MakeQdiscs` and `SetVethQdiscs`, Veth makes
--   veth pairs, Remote is `UpdateRemote`, MutexMap the mutexes by key.
-- - Vxlan: daemon/vxlan/. Manager is `VxlanManager`, Link is vxlan.go.
-- - Wire: daemon/grpcwire/grpcwire.go. Table is `wireMap`, Names the interface names, Create and
--   Remove the making and removing of wires, Receive the thread that sends a pod's frames to the
--   peer, Frame the description of large frames.
-- - Metrics: TopologyManager is daemon/metrics/topology_manager.go, Interfaces the collector of
--   daemon/metrics/interface_statistics.go.
-- - Daemon: daemon/kubedtn/ and daemon/main.go. State is the daemon's state; each handler of
--   handler.go is a function in the file named for its part; Start is `New`, Main is `main`.
--   Valid runs calls of all handlers one after the other; Interleaving runs `addLink` and
--   `Update` on several daemons in steps.
-- - CniConfig: daemon/cni/cni.go. Bpf: bpf/main.go. Cli: cmd/main.go. Plugin: plugin/kube_dtn.go,
--   of which LinkType reads what CniConfig leaves.
-- - Together: the parts with one another. The controller's cluster and the plugin's daemon are a
--   node with its handlers, the thread of a wire calls the `SendToOnce` of the peer's node, and
--   in TwoHosts `UpdateRemote` calls the `Update` of the peer's node.
-- - Tests: a small node and cluster, on which the theorems are tried.
--
-- An operation is a function from a state to a result (a value, an error or a panic) and a state;
-- what was written before an error stays written. Pointers that are shared are cells of a heap:
-- the texts of `VxlanManager`, whose loop variable in `Init` is one cell as in Go 1.19, and the
-- topologies that the informer's cache and `TopologyManager` share. A mutex that is held is an
-- entry of a list, by the key that it has in the `MutexMap`, and one handler runs at a time; in
-- Interleaving, calls for one link take turns in any order, and a call is where it stands in the
-- code. Sized integers wrap where the code converts them.
--
-- Fuel: the names of interfaces print a counter in decimal with one round for each unit of the
-- number, which is more than it has digits. `decode_frame` has one round more than the frame has
-- bytes, since each round passes a header, and as many levels of layers inside a packet. All
-- other recursions go down a list.
--
-- Not modelled: logging and times; the informer's thread and the gRPC server's interceptors
-- (kubedtn.go); the registry and the histograms of Prometheus; the copying of metadata, which is
-- apimachinery's; the code that protoc and bpf2go generate. controller-runtime, client-go,
-- netlink, koko, the CNI library, tc, pcap, gopacket, cilium/ebpf, JSON, files, floats and
-- parsers of the standard library are parameters.
pub mod Prelude
pub mod Api
pub mod Controller
pub mod Platform
pub mod Common
pub mod Vxlan
pub mod Wire
pub mod Metrics
pub mod Daemon
pub mod Plugin
pub mod Cli
pub mod CniConfig
pub mod Tests
pub mod Together
pub mod Bpf
