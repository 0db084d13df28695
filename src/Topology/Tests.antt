-- ===== src/Topology/Tests.antt =====
-- The topology graph on concrete inputs.
use zerokey.Base.{none, List, [], ◌∷◌}
use zerokey.Topology.{Click, click_oidc, click_agent, clicked}
use zerokey.Topology.Selection.{Consistent, clicked-Consistent}

abbrev clicks : List Click
clicks = click_oidc ∷ click_agent ∷ []

selection_example : Consistent none (clicked "server" clicks)
selection_example = clicked-Consistent none clicks
