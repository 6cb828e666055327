-- ===== src/Api/Client/Connect.antt =====
-- Making the client (api/clientset/v1beta1/topology.go): `NewForConfig`, `Topology`, and the methods
-- with the clients that they use. The clients of client-go are a parameter.
use kube_dtn.Prelude.{String, Option, some, List, Action, Result, of_result, pure, ◌>>=◌}
use kube_dtn.Api.Scheme.{GroupVersion, topology_group}
use kube_dtn.Api.Client.{ClientGo, Request, Method, request}

-- `schema.GroupVersionResource`
pub record Gvr : Type 0 where
  pub group : String
  pub version : String
  pub resource : String

abbrev pub gvr : Gvr
gvr = record { group = "y-young.github.io"; version = "v1"; resource = "topologies" }

-- `rest.Config`: the four fields that are written, and all others.
pub record RestConfig (Rest Serializer : Type 0) : Type 0 where
  pub rest : Rest
  pub group_version : Option GroupVersion
  pub api_path : String
  pub negotiated_serializer : Option Serializer
  pub user_agent : String

pub record RestClients (k : ClientGo) : Type 1 where
  pub World : Type 0
  pub Rest : Type 0
  pub Serializer : Type 0
  pub DynamicClient : Type 0
  pub DynamicInterface : Type 0
  pub RestClient : Type 0
  pub Answer : Type 0
  pub Unstructured : Type 0
  -- `scheme.Codecs.WithoutConversion()`, `rest.DefaultKubernetesUserAgent()`
  pub without_conversion : Serializer
  pub default_user_agent : String
  -- `dynamic.NewForConfig`, `Resource`, `rest.RESTClientFor`
  pub dynamic_for_config : RestConfig Rest Serializer → Result DynamicClient
  pub resource_of : DynamicClient → Gvr → DynamicInterface
  pub rest_client_for : RestConfig Rest Serializer → Result RestClient
  -- sending a request; `Namespace(ns).Get(ctx, name, opts, subresources…)` of the dynamic client
  pub send : RestClient → Request k → Action World Answer
  pub dynamic_get :
      DynamicInterface → String → String → k.GetOptions → List String → Action World Unstructured

module _ (k : ClientGo) (r : RestClients k) where
  pub record Clientset : Type 0 where
    pub d_interface : r.DynamicInterface
    pub rest_client : r.RestClient

  pub record TopologyClient : Type 0 where
    pub d_interface : r.DynamicInterface
    pub rest_client : r.RestClient
    pub ns : String

  -- The copy of the configuration with the topologies' group.
  abbrev pub with_group : RestConfig r.Rest r.Serializer → RestConfig r.Rest r.Serializer
  with_group c = record c {
    group_version = some topology_group;
    api_path = "/apis";
    negotiated_serializer = some r.without_conversion;
    user_agent = r.default_user_agent;
  }

  -- `NewForConfig`: the dynamic client has the configuration as it was given.
  unfoldable pub new_for_config : {S : Type 0} → RestConfig r.Rest r.Serializer → Action S Clientset
  new_for_config c = do
    dynamic ← of_result (r.dynamic_for_config c)
    client ← of_result (r.rest_client_for (with_group c))
    pure (record { d_interface = r.resource_of dynamic gvr; rest_client = client })

  unfoldable pub topology : Clientset → String → TopologyClient
  topology c namespace = record {
    d_interface = c.d_interface;
    rest_client = c.rest_client;
    ns = namespace;
  }

  -- A method but `Unstructured`: its request, sent.
  unfoldable pub call : TopologyClient → Method k → Action r.World r.Answer
  unfolding request
  call t m = r.send t.rest_client (request k t.ns m)

  unfoldable pub unstructured :
      TopologyClient → String → k.GetOptions → List String → Action r.World r.Unstructured
  unstructured t name opts subresources = r.dynamic_get t.d_interface t.ns name opts subresources
