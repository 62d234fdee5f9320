-- ===== src/Sources/Nodes/Addresses.antt =====
-- metrics/sources/kubelet/kubelet.go: which address of a node `GetNodeHostnameAndIP` takes.
use heapster.Common.{
  String, List, [], ◌∷◌, Option, none, some, Bool, true, false, not, any, ◌&&◌, if◌then◌else◌,
  str_eq, str_eq_iff, ◌≡◌, refl, ◌∙◌, arith,
}
use heapster.Common.Dict.{value_or, or_else, is_some}
use heapster.Common.Result.{Result, ok, error}
use heapster.Common.Text.{concat}
use heapster.Sources.Nodes.{
  NodeAddress, NodeCondition, Node, ParseIp, is_unready, host_after, internal_after, external_after,
  scan_addresses, get_node_hostname_and_ip,
}

-- The last address that passes a test, and the first.
abbrev pub last_where : (NodeAddress → Bool) → List NodeAddress → Option String
last_where p [] = none
last_where p (addr ∷ addrs) =
    or_else (last_where p addrs) (if p addr then some addr.address else none)

abbrev pub first_where : (NodeAddress → Bool) → List NodeAddress → Option String
first_where p [] = none
first_where p (addr ∷ addrs) =
    let rest = first_where p addrs in if p addr then some addr.address else rest

-- An address of a kind that is not empty.
abbrev pub is_of_type : String → NodeAddress → Bool
is_of_type t addr = str_eq addr.address_type t && not (str_eq addr.address "")

-- The last host name, or the node's own name; the last internal address that can be parsed, or the
-- first external one.
abbrev pub chosen_host : Node → String
chosen_host node = value_or node.name (last_where (is_of_type "Hostname") node.addresses)

abbrev pub is_internal : ParseIp → NodeAddress → Bool
is_internal parse addr = is_of_type "InternalIP" addr && is_some (parse addr.address)

abbrev pub chosen_ip : ParseIp → Node → String
chosen_ip parse node = value_or "" (
    or_else (last_where (is_internal parse) node.addresses)
      (first_where (is_of_type "ExternalIP") node.addresses))

value_or-or_else :
    (o : Option String) (b : Bool) (a d : String)
    → value_or (if b then a else d) o ≡ value_or d (or_else o (if b then some a else none))
value_or-or_else none true a d = refl
value_or-or_else none false a d = refl
value_or-or_else (some s) b a d = refl

scan-host :
    (parse : ParseIp) (addrs : List NodeAddress) (hostname ip : String)
    → (scan_addresses parse addrs hostname ip).0
      ≡ value_or hostname (last_where (is_of_type "Hostname") addrs)
unfolding scan_addresses
scan-host parse [] hostname ip = refl
scan-host parse (addr ∷ addrs) hostname ip =
    scan-host parse addrs (host_after addr hostname)
      (external_after addr (internal_after parse addr ip))
    ∙ value_or-or_else (last_where (is_of_type "Hostname") addrs) (is_of_type "Hostname" addr)
        addr.address hostname

-- The address so far, or the first external one where there is none so far.
abbrev so_far : List NodeAddress → String → Option String
so_far addrs ip = if str_eq ip "" then first_where (is_of_type "ExternalIP") addrs else some ip

scan-ip :
    (parse : ParseIp) (addrs : List NodeAddress) (hostname ip : String)
    → (scan_addresses parse addrs hostname ip).1
      ≡ value_or "" (or_else (last_where (is_internal parse) addrs) (so_far addrs ip))
unfolding scan_addresses
scan-ip parse [] hostname ip = ground (arith, str_eq_iff ip "")
scan-ip parse (addr ∷ addrs) hostname ip =
    let next = external_after addr (internal_after parse addr ip) in
    ground (
      arith,
      scan-ip parse addrs (host_after addr hostname) next,
      str_eq_iff ip "",
      str_eq_iff addr.address "",
    )

-- A condition says that the node is not ready: its status is "False" or "Unknown", or any text but
-- "True".
abbrev pub denies_ready : NodeCondition → Bool
denies_ready c = str_eq c.condition_type "Ready" && not (str_eq c.status "True")

is_unready-any : (cs : List NodeCondition) → is_unready cs ≡ any denies_ready cs
unfolding is_unready
is_unready-any [] = refl
is_unready-any (c ∷ cs) = ground (arith, is_unready-any cs)

-- The host's name with its address as it is parsed, or an error that names the node, the host's name
-- and the address.
abbrev pub known_as : String → String → String → Option String → Result (String × String)
known_as name host ip (some parsed) = ok (host, parsed)
known_as name host ip none =
    error (
      concat ("node " ∷ name ∷ " has no valid hostname and/or IP address: " ∷ host ∷ " " ∷ ip ∷ []))

pair-eta : {A B : Type 0} (p : A × B) (a : A) (b : B) → p.0 ≡ a → p.1 ≡ b → p ≡ (a, b)
pair-eta p a b e f i = (e i, f i)

-- A ready node is known by its last host name, or else its own name, and by its last internal
-- address that can be parsed, or else its first external one, if that can be parsed. A node that is
-- not ready, that is, that has a condition "Ready" with another status than "True", or that has no
-- such address, is an error.
pub get_node_hostname_and_ip_lem :
    (parse : ParseIp) (node : Node)
    → get_node_hostname_and_ip parse node ≡ (
        if any denies_ready node.conditions
        then error (concat ("node " ∷ node.name ∷ " is not ready" ∷ []))
        else known_as node.name
            (chosen_host node)
            (chosen_ip parse node)
            (parse (chosen_ip parse node)))
unfolding get_node_hostname_and_ip
get_node_hostname_and_ip_lem parse node =
    let host = scan-host parse node.addresses node.name "" in
    let ip = scan-ip parse node.addresses node.name "" in
    rw (
      is_unready-any node.conditions,
      pair-eta (scan_addresses parse node.addresses node.name "") (chosen_host node)
          (chosen_ip parse node) host ip,
    )
