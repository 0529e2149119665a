-- ===== src/Pages/Nodes/Narrowing.antt =====
-- The search over the nodes (web/src/pages/nodes.tsx) while its text grows.
use karadul.Base.{◌≡◌, true, ◌||◌, List, ◌++◌, arith, Text, includes, to_lower_case}
use karadul.Store.{Node}
use karadul.Pages.Search.{includes-append, filter-filter}
use karadul.Pages.Nodes.{matches, filtered_nodes}

matches-append :
    (to_lower_case : Text → Text) (query more ext : Text) (node : Node)
    → to_lower_case (query ++ more) ≡ to_lower_case query ++ ext
    → matches to_lower_case (query ++ more) node ≡ true
    → matches to_lower_case query node ≡ true
matches-append to_lower_case query more ext node lower h =
    let s = to_lower_case node.hostname in
    let k = to_lower_case node.public_key in
    let longer : (includes s (to_lower_case query ++ ext)
          || includes node.virtual_ip (query ++ more)
          || includes k (to_lower_case query ++ ext))
        ≡ true =
      rw (← lower) h in
    ground (
      arith,
      longer,
      includes-append s (to_lower_case query) ext,
      includes-append node.virtual_ip query more,
      includes-append k (to_lower_case query) ext,
    )

-- Typing on narrows the list: the nodes found for a longer text are the nodes that it finds among
-- those found before, in their order, where the longer text in lower case begins with the shorter
-- one in lower case.
pub filtered_nodes-append :
    (to_lower_case : Text → Text) (query more ext : Text) (nodes : List Node)
    → to_lower_case (query ++ more) ≡ to_lower_case query ++ ext
    → filtered_nodes to_lower_case (query ++ more) (filtered_nodes to_lower_case query nodes)
      ≡ filtered_nodes to_lower_case (query ++ more) nodes
unfolding filtered_nodes
filtered_nodes-append to_lower_case query more ext nodes lower =
    filter-filter (matches to_lower_case (query ++ more)) (matches to_lower_case query) nodes
      (λ node h. matches-append to_lower_case query more ext node lower h)
