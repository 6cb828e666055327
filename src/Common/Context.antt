-- ===== src/Common/Context.antt =====
-- common/context.go: values that a context carries, by key. Only Boolean values are stored.
use kube_dtn.Prelude.{String, Bool, false, Option, none, some, String_eq, []}
use kube_dtn.Prelude.Maps.{Map, lookup, insert}

abbrev pub Context : Type 0
Context = Map String Bool

abbrev pub background : Context
background = []

abbrev pub tcpip_bypass_key : String
tcpip_bypass_key = "TCPIP_BYPASS"

unfoldable pub with_ctx_value : Context → String → Bool → Context
with_ctx_value ctx key v = insert key v ctx

unfoldable pub get_ctx_value : Context → String → Option Bool
get_ctx_value ctx key = lookup key ctx

-- `tcpIpBypass, ok := …; if !ok { tcpIpBypass = false }`
unfoldable pub tcpip_bypass : Context → Bool
tcpip_bypass ctx = elim (get_ctx_value ctx tcpip_bypass_key) [ none ↦ false | some b ↦ b ]
