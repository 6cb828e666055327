-- ===== src/Api/Client.antt =====
-- The client of the Topology resource (api/clientset/v1beta1/topology.go): the requests that its
-- methods build. client-go, which sends them, and its options are a parameter.
pub mod Requests
pub mod Connect
use kube_dtn.Prelude.{
  ◌≡◌, refl, ap, sym, ◌∙◌, String, Bool, true, false, Option, none, some, List, Action, ◌>>=◌, ◌>>◌,
  pure,
}
use kube_dtn.Api.{Topology}

pub data Verb : Type 0 where
  http_get http_post http_put http_delete : Verb

-- client-go's options
pub record ClientGo : Type 1 where
  pub ListOptions : Type 0
  pub GetOptions : Type 0
  pub DeleteOptions : Type 0
  pub UpdateOptions : Type 0
  pub with_watch : ListOptions → ListOptions

-- `VersionedParams`
pub data Params (k : ClientGo) : Type 0 where
  no_params : Params k
  list_params : k.ListOptions → Params k
  get_params : k.GetOptions → Params k
  delete_params : k.DeleteOptions → Params k
  update_params : k.UpdateOptions → Params k

-- A `rest.Request` when it is sent, by `Do` or, for a stream of events, by `Watch`.
pub record Request (k : ClientGo) : Type 0 where
  pub verb : Verb
  pub namespace : String
  pub resource : String
  pub name : Option String
  pub subresource : Option String
  pub params : Params k
  pub body : Option Topology
  pub is_watch : Bool

-- The methods with their arguments, but for `Unstructured`, which calls the dynamic client.
pub data Method (k : ClientGo) : Type 0 where
  list : k.ListOptions → Method k
  get : String → k.GetOptions → Method k
  create : Topology → Method k
  watch : k.ListOptions → Method k
  delete : String → k.DeleteOptions → Method k
  update : Topology → k.UpdateOptions → Method k
  update_status : Topology → k.UpdateOptions → Method k

module _ (k : ClientGo) where
  abbrev pub request_of : Verb → String → Request k
  request_of verb ns = record {
    verb = verb;
    namespace = ns;
    resource = "topologies";
    name = none;
    subresource = none;
    params = no_params;
    body = none;
    is_watch = false;
  }

  -- The request of a method, for a namespace.
  unfoldable pub request : String → Method k → Request k
  request ns (list opts) = record (request_of http_get ns) { params = list_params opts }
  request ns (get name opts) = record (request_of http_get ns) {
    name = some name;
    params = get_params opts;
  }
  request ns (create t) = record (request_of http_post ns) { body = some t }
  request ns (watch opts) = record (request_of http_get ns) {
    params = list_params (k.with_watch opts);
    is_watch = true;
  }
  request ns (delete name opts) = record (request_of http_delete ns) {
    name = some name;
    params = delete_params opts;
  }
  request ns (update t opts) = record (request_of http_put ns) {
    name = some t.name;
    params = update_params opts;
    body = some t;
  }
  request ns (update_status t opts) = record (request_of http_put ns) {
    name = some t.name;
    subresource = some "status";
    params = update_params opts;
    body = some t;
  }

  -- What is left of a method in its request: `Watch` sets the flag in its options.
  abbrev pub seen : Method k → Method k
  seen (watch opts) = watch (k.with_watch opts)
  seen (list opts) = list opts
  seen (get name opts) = get name opts
  seen (create t) = create t
  seen (delete name opts) = delete name opts
  seen (update t opts) = update t opts
  seen (update_status t opts) = update_status t opts
