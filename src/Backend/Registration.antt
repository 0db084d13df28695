-- ===== src/Backend/Registration.antt =====
-- A registration from the form of the page to the command line of the SPIRE server, and the listing
-- back to the page.
use Prim.Native.String
use zerokey.Base.{ℕ, ◌≡◌, Decimal, String, Option, some}
use zerokey.Base.Text.{show_ℕ}
use zerokey.Api.Types.{Json}
use zerokey.Api.Call.{Call, Answer}
use zerokey.Runtime.World.{World, Server}
use zerokey.Backend.Events.{EventService}
use zerokey.Backend.Spire
use zerokey.Backend.App.{Environment}
use zerokey.Backend.App.Client.{client, dump}

module _ (number_text : Decimal → String) (null_message : String)
    (query : String → String → Option String) (cast : (c : Call) → Json → Answer c)
    (casts : (c : Call) (a : Answer c) (v : Json) → dump c a ≡ some v → cast c v ≡ a)
    (reads : (n : ℕ) → query "limit" (String.◌++◌ "limit=" (show_ℕ n)) ≡ some (show_ℕ n)) where
  abbrev backend : Environment → EventService → Server
  backend env s = client number_text null_message query cast env s
