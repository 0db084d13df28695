-- ===== src/Topology/Selection.antt =====
-- The selected node of the topology graph.
use zerokey.Base.{◌≡◌, refl, String, Option, List, [], ◌∷◌, map, keep}
use zerokey.Api.Types.{OverviewSummary}
use zerokey.Topology.{
  active_node, Click, click_server, click_oidc, click_agent, click_backend, click_client,
  selected_by, clicked, cards,
}

-- The details are those of the selected node, and its card alone is highlighted.
abbrev pub Consistent : Option OverviewSummary → String → Type 0
Consistent overview selected =
    ((active_node overview selected).id ≡ selected)
    × (map (λ c. c.id) (keep (λ c. c.highlighted) (cards selected)) ≡ selected ∷ [])

click-Consistent :
    (overview : Option OverviewSummary) (c : Click) → Consistent overview (selected_by c)
unfolding active_node selected_by cards
click-Consistent overview click_server = (refl, refl)
click-Consistent overview click_oidc = (refl, refl)
click-Consistent overview click_agent = (refl, refl)
click-Consistent overview click_backend = (refl, refl)
click-Consistent overview click_client = (refl, refl)

from-Consistent :
    (overview : Option OverviewSummary) (now : String) (cs : List Click)
    → Consistent overview now
    → Consistent overview (clicked now cs)
unfolding clicked
from-Consistent overview now [] h = h
from-Consistent overview now (c ∷ cs) h =
    from-Consistent overview (selected_by c) cs (click-Consistent overview c)

-- After any clicks, and whatever the overview, the details are those of the selected node, for
-- which the search never falls back on the first node, and exactly one card is highlighted, which
-- is that of the selected node.
pub clicked-Consistent :
    (overview : Option OverviewSummary) (cs : List Click)
    → Consistent overview (clicked "server" cs)
unfolding selected_by
clicked-Consistent overview cs =
    from-Consistent overview "server" cs (click-Consistent overview click_server)

-- After any clicks, the details are those of the selected node.
pub clicked-active :
    (overview : Option OverviewSummary) (cs : List Click)
    → (active_node overview (clicked "server" cs)).id ≡ clicked "server" cs
clicked-active overview cs = (clicked-Consistent overview cs).0
