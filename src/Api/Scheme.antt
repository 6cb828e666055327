-- ===== src/Api/Scheme.antt =====
-- The group, its version and the types that are registered for it (api/v1/groupversion_info.go and
-- the `init` of api/v1/topology_types.go).
use kube_dtn.Prelude.{String, List, [], ◌∷◌, ◌++◌}

pub record GroupVersion : Type 0 where
  pub group : String
  pub version : String

-- The types of the resource.
pub data Kind : Type 0 where
  topology_kind topology_list_kind : Kind

-- `scheme.Builder`
pub record SchemeBuilder : Type 0 where
  pub group_version : GroupVersion
  pub kinds : List Kind

abbrev pub register : List Kind → SchemeBuilder → SchemeBuilder
register ks b = record b { kinds = b.kinds ++ ks }

abbrev pub topology_group : GroupVersion
topology_group = record { group = "y-young.github.io"; version = "v1" }

-- The builder after the package's `init`.
abbrev pub scheme_builder : SchemeBuilder
scheme_builder =
    register (topology_kind ∷ topology_list_kind ∷ [])
      (record { group_version = topology_group; kinds = [] })
