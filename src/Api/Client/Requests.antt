-- ===== src/Api/Client/Requests.antt =====
-- What a request tells of the method that made it.
use kube_dtn.Prelude.{◌≡◌, refl, ap, sym, ◌∙◌, String, Bool, true, false, Option, none, some}
use kube_dtn.Api.{Topology}
use kube_dtn.Api.Client.{
  ClientGo, Params, no_params, list_params, get_params, delete_params, update_params, Request,
  Method, list, get, create, watch, delete, update, update_status, request, seen, http_get,
  http_post, http_put, http_delete,
}

module _ (k : ClientGo) where
  read_get : Params k → Option String → Bool → Option (Method k)
  read_get (list_params opts) name true = some (watch opts)
  read_get (list_params opts) name false = some (list opts)
  read_get (get_params opts) (some name) is_watch = some (get name opts)
  read_get (get_params opts) none is_watch = none
  read_get no_params name is_watch = none
  read_get (delete_params opts) name is_watch = none
  read_get (update_params opts) name is_watch = none

  read_put : Params k → Option String → Option Topology → Option (Method k)
  read_put (update_params opts) none (some t) = some (update t opts)
  read_put (update_params opts) (some part) (some t) = some (update_status t opts)
  read_put (update_params opts) part none = none
  read_put no_params part body = none
  read_put (list_params opts) part body = none
  read_put (get_params opts) part body = none
  read_put (delete_params opts) part body = none

  read_post : Option Topology → Option (Method k)
  read_post none = none
  read_post (some t) = some (create t)

  read_delete : Params k → Option String → Option (Method k)
  read_delete (delete_params opts) (some name) = some (delete name opts)
  read_delete (delete_params opts) none = none
  read_delete no_params name = none
  read_delete (list_params opts) name = none
  read_delete (get_params opts) name = none
  read_delete (update_params opts) name = none

  -- The method of a request.
  read : Request k → Option (Method k)
  read r = elim r.verb [
    | http_get ↦ read_get r.params r.name r.is_watch
    | http_post ↦ read_post r.body
    | http_put ↦ read_put r.params r.subresource r.body
    | http_delete ↦ read_delete r.params r.name
  ]

  read-request : (ns : String) (m : Method k) → read (request k ns m) ≡ some (seen k m)
  unfolding request read read_get read_post read_put read_delete
  read-request ns (list opts) = refl
  read-request ns (get name opts) = refl
  read-request ns (create t) = refl
  read-request ns (watch opts) = refl
  read-request ns (delete name opts) = refl
  read-request ns (update t opts) = refl
  read-request ns (update_status t opts) = refl

  namespace-request : (ns : String) (m : Method k) → (request k ns m).namespace ≡ ns
  unfolding request
  namespace-request ns (list opts) = refl
  namespace-request ns (get name opts) = refl
  namespace-request ns (create t) = refl
  namespace-request ns (watch opts) = refl
  namespace-request ns (delete name opts) = refl
  namespace-request ns (update t opts) = refl
  namespace-request ns (update_status t opts) = refl

  -- Two calls that make the same request are of the same method, with the same arguments, for the
  -- same namespace; only of the options of `Watch` the flag that it sets is not told.
  request-injective :
      (ns ns' : String) (m m' : Method k)
      → request k ns m ≡ request k ns' m'
      → (ns ≡ ns') × (seen k m ≡ seen k m')
  request-injective ns ns' m m' e = (
    sym (namespace-request ns m) ∙ ap (λ (r : Request k). r.namespace) e ∙ namespace-request ns' m',
    (let same : some (seen k m) ≡ some (seen k m') =
          sym (read-request ns m) ∙ ap read e ∙ read-request ns' m' in
        cc),
  )
