-- ===== src/Sources/Nodes.antt =====
-- metrics/sources/kubelet/kubelet.go and summary/summary.go: the nodes that the providers make
-- sources for. `net.ParseIP` is a parameter, which answers with the parsed address or nil, and so is
-- the lister of client-go.
pub mod Addresses
use heapster.Common.{
  String, List, [], ◌∷◌, Option, none, some, Bool, true, false, not, ◌&&◌, if◌then◌else◌, str_eq,
}
use heapster.Common.Dict.{Dict, lookup, value_or, is_some}
use heapster.Common.Result.{Result, ok, error}
use heapster.Common.Text.{concat}

-- What the code reads of a `kube_api.Node`.
pub record NodeCondition : Type 0 where
  pub condition_type : String
  pub status : String

pub record NodeAddress : Type 0 where
  pub address_type : String
  pub address : String

pub record Node : Type 0 where
  pub name : String
  pub unschedulable : Bool
  pub external_id : String
  pub annotations : Dict String
  pub conditions : List NodeCondition
  pub addresses : List NodeAddress

abbrev pub ParseIp : Type 0
ParseIp = String → Option String

unfoldable pub get_node_schedulable_status : Node → String
get_node_schedulable_status node = if node.unschedulable then "false" else "true"

abbrev pub is_address : String → NodeAddress → Bool
is_address t addr = str_eq addr.address_type t && not (str_eq addr.address "")

-- The loop over the conditions: a node is not ready where one says so.
unfoldable pub is_unready : List NodeCondition → Bool
is_unready [] = false
is_unready (c ∷ cs) =
    let rest = is_unready cs in
    if str_eq c.condition_type "Ready" && not (str_eq c.status "True") then true else rest

-- One round of the loop over the addresses, for the name and for the address of the host.
abbrev pub host_after : NodeAddress → String → String
host_after addr hostname = if is_address "Hostname" addr then addr.address else hostname

abbrev pub internal_after : ParseIp → NodeAddress → String → String
internal_after parse addr ip =
    if is_address "InternalIP" addr && is_some (parse addr.address) then addr.address else ip

abbrev pub external_after : NodeAddress → String → String
external_after addr ip = if is_address "ExternalIP" addr && str_eq ip "" then addr.address else ip

unfoldable pub scan_addresses : ParseIp → List NodeAddress → String → String → String × String
scan_addresses parse [] hostname ip = (hostname, ip)
scan_addresses parse (addr ∷ addrs) hostname ip =
    scan_addresses parse addrs (host_after addr hostname)
      (external_after addr (internal_after parse addr ip))

abbrev pub parsed_or_error : String → String × String → Option String → Result (String × String)
parsed_or_error name (hostname, ip) (some parsed) = ok (hostname, parsed)
parsed_or_error name (hostname, ip) none = error (
    concat
      ("node " ∷ name ∷ " has no valid hostname and/or IP address: " ∷ hostname ∷ " " ∷ ip ∷ []))

unfoldable pub get_node_hostname_and_ip : ParseIp → Node → Result (String × String)
get_node_hostname_and_ip parse node =
    let found = scan_addresses parse node.addresses node.name "" in
    if is_unready node.conditions
    then error (concat ("node " ∷ node.name ∷ " is not ready" ∷ []))
    else parsed_or_error node.name found (parse found.1)

-- The host of a source, and what it is told of its node.
pub record SourceNode : Type 0 where
  pub ip : String
  pub node_name : String
  pub host_name : String
  pub host_id : String
  pub schedulable : String

abbrev kubelet_node : Node → Result (String × String) → Option SourceNode
kubelet_node node (error e) = none
kubelet_node node (ok (hostname, ip)) = some (record {
  ip = ip;
  node_name = node.name;
  host_name = hostname;
  host_id = node.external_id;
  schedulable = get_node_schedulable_status node;
})

abbrev with_source : Option SourceNode → List SourceNode → List SourceNode
with_source none sources = sources
with_source (some s) sources = s ∷ sources

-- `kubeletProvider.GetMetricsSources`: the loop over the nodes, which passes over those in error.
unfoldable pub kubelet_sources : ParseIp → List Node → List SourceNode
kubelet_sources parse [] = []
kubelet_sources parse (node ∷ nodes) =
    with_source (kubelet_node node (get_node_hostname_and_ip parse node))
      (kubelet_sources parse nodes)

unfoldable pub kubelet_get_metrics_sources : ParseIp → Result (List Node) → List SourceNode
kubelet_get_metrics_sources parse (error e) = []
kubelet_get_metrics_sources parse (ok nodes) = kubelet_sources parse nodes

-- `getNodeInfo` of the summary provider: the host's id may stand in an annotation.
abbrev host_id_of : String → Node → String
host_id_of annotation node =
    if str_eq node.external_id "" && not (str_eq annotation "")
    then value_or "" (lookup annotation node.annotations)
    else node.external_id

abbrev summary_node : String → Node → Result (String × String) → Option SourceNode
summary_node annotation node (error e) = none
summary_node annotation node (ok (hostname, ip)) = some (record {
  ip = ip;
  node_name = node.name;
  host_name = if str_eq hostname "" then node.name else hostname;
  host_id = host_id_of annotation node;
  schedulable = "";
})

unfoldable pub summary_sources : ParseIp → String → List Node → List SourceNode
summary_sources parse annotation [] = []
summary_sources parse annotation (node ∷ nodes) =
    with_source (summary_node annotation node (get_node_hostname_and_ip parse node))
      (summary_sources parse annotation nodes)

unfoldable pub summary_get_metrics_sources : ParseIp → String → Result (List Node) → List SourceNode
summary_get_metrics_sources parse annotation (error e) = []
summary_get_metrics_sources parse annotation (ok nodes) = summary_sources parse annotation nodes
