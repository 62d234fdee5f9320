-- ===== src/Core/Keys.antt =====
-- metrics/core/ms_keys.go: the keys of a batch's metric sets.
use heapster.Common.{String, [], ◌∷◌}
use heapster.Common.Text.{concat}

unfoldable pub pod_container_key : String → String → String → String
pod_container_key namespace pod_name container_name =
    concat ("namespace:" ∷ namespace ∷ "/pod:" ∷ pod_name ∷ "/container:" ∷ container_name ∷ [])

unfoldable pub pod_key : String → String → String
pod_key namespace pod_name = concat ("namespace:" ∷ namespace ∷ "/pod:" ∷ pod_name ∷ [])

unfoldable pub namespace_key : String → String
namespace_key namespace = concat ("namespace:" ∷ namespace ∷ [])

unfoldable pub node_key : String → String
node_key node = concat ("node:" ∷ node ∷ [])

unfoldable pub node_container_key : String → String → String
node_container_key node container = concat ("node:" ∷ node ∷ "/container:" ∷ container ∷ [])

unfoldable pub cluster_key : String
cluster_key = "cluster"
