-- ===== src/Common/Remote.antt =====
-- `UpdateRemote` (common/utils.go): ask the peer's daemon to set up its side of a link.
use Prim.Native.String
use kube_dtn.Prelude.{String, pure, ◌>>=◌, ◌>>◌}
use kube_dtn.Api.Proto.{Pod, PbLink, RemotePod}
use kube_dtn.Platform.{Platform, Do}
use kube_dtn.Common.Vni.{get_vni_from_uid}

abbrev pub default_port : String
default_port = "51111"

-- `fmt.Sprintf("passthrough:///%s:%s", ip, DefaultPort)`
abbrev pub daemon_url : String → String
daemon_url ip = String.◌++◌ "passthrough:///" (String.◌++◌ ip (String.◌++◌ ":" default_port))

unfoldable pub remote_payload : Pod → Pod → PbLink → RemotePod
unfolding get_vni_from_uid
remote_payload local_pod peer_pod link = record {
  net_ns = peer_pod.net_ns;
  intf_name = link.peer_intf;
  intf_ip = link.peer_ip;
  peer_vtep = local_pod.src_ip;
  vni = get_vni_from_uid link.uid;
  kube_ns = local_pod.kube_ns;
  properties = link.properties;
  name = link.peer_pod;
}

module _ (p : Platform) where
  -- A response of false with no error is passed over: `err` is nil then.
  unfoldable pub update_remote : Pod → Pod → PbLink → Do p (Unit {0})
  unfolding remote_payload
  update_remote local_pod peer_pod link = do
    p.dial (daemon_url peer_pod.src_ip)
    response ← p.remote_update (daemon_url peer_pod.src_ip) (remote_payload local_pod peer_pod link)
    pure tt
