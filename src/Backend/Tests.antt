-- ===== src/Backend/Tests.antt =====
-- The backend on concrete inputs.
use Prim.Native.String
use zerokey.Base.{
  arith, ℕ, ℤ, pos, ◌≤◌, ◌≡◌, refl, String, Bool, true, false, Option, none, some, List, [], ◌∷◌,
  take, All,
}
use zerokey.Base.Text.{show_ℕ, show_ℤ, parse_int}
use zerokey.Base.Text.Numbers.{parse_int-show_ℤ}
use zerokey.Api.Types.{Json, bool, int, text, AuditLogEvent, CreateEntryPayload}
use zerokey.Api.Call.{Call, options_of}
use zerokey.Runtime.World.{Event, act, after}
use zerokey.Entries
use zerokey.Backend.Schemas.{Lax}
use zerokey.Backend.Routes.{after_prefix, route}
use zerokey.Backend.Routes.Reaching.{
  IsPlain, is_id_char, after_prefix-append, handler_of, route-options_of,
}
use zerokey.Backend.Events.{EventService, default_max, initial_events}
use zerokey.Backend.Events.History.{Recording, record_all, history}
use zerokey.Base.{◌-◌, ◌*◌}
use Prim.Native.Nat.{◌%◌}
use zerokey.Backend.Rotation.{polled, polled-periodic}
use zerokey.Backend.Handlers.Admission.{IsAdmitted, entries_sent-IsAdmitted}
use zerokey.Backend.Handlers.Logs.{answer_logs, answer_logs-history}

-- A reader that takes what a value says, and the digits of a text.
abbrev pub read_int : Json → Option ℤ
read_int (int n) = some n
read_int (text s) = parse_int s
read_int _ = none

abbrev pub read_bool : Json → Option Bool
read_bool (bool b) = some b
read_bool _ = none

pub digits_read : (n : ℕ) → parse_int (show_ℕ n) ≡ some (pos n)
unfolding show_ℤ
digits_read n = parse_int-show_ℤ (pos n)

abbrev pub plain_lax : Lax
plain_lax = record {
  to_int = read_int;
  to_bool = read_bool;
  to_int-int = λ n. refl;
  to_bool-bool = λ b. refl;
  to_int-text = digits_read;
}

-- The query is "name=value".
abbrev pub only_parameter : String → String → Option String
only_parameter name q = after_prefix (String.◌++◌ name "=") q

pub reads_limit :
    (n : ℕ) → only_parameter "limit" (String.◌++◌ "limit=" (show_ℕ n)) ≡ some (show_ℕ n)
reads_limit n = after_prefix-append "limit=" (show_ℕ n)

abbrev payload : CreateEntryPayload
payload = record {
  spiffe_id = "spiffe://demo.local/worker";
  parent_id = "spiffe://demo.local/node/agent";
  selectors = "unix:uid:1000" ∷ "docker:label:a:b" ∷ [];
  ttl = some (pos 60);
  admin = none;
  dns_names = some ("worker" ∷ []);
}

id-IsPlain : IsPlain "e-1"
unfolding is_id_char
id-IsPlain = ((λ h. cc h), refl)

route_example :
    route only_parameter (options_of (Call.delete_entry "e-1"))
    ≡ some (handler_of (Call.delete_entry "e-1"))
route_example = route-options_of only_parameter reads_limit (Call.delete_entry "e-1") id-IsPlain

-- Three requests that fail to write to socket 1.
abbrev audit : AuditLogEvent
audit = record {
  id = "a9";
  timestamp = "";
  event_type = "ENTRY_DELETE";
  actor = "dashboard-admin";
  target = "e-1";
  status = "SUCCESS";
  details = "";
}

abbrev recordings : List Recording
recordings = ((λ c. true), audit) ∷ ((λ c. false), audit) ∷ []

abbrev pub service : EventService
service = record { active_connections = 1 ∷ []; audit_logs = initial_events "" "a0" "a1" "a2" "a3" }

logs_example :
    answer_logs plain_lax
      (record_all default_max recordings service)
      (route only_parameter (options_of (Call.get_audit_logs 5)))
    ≡ some (take 5 (history recordings (initial_events "" "a0" "a1" "a2" "a3")))
logs_example =
    answer_logs-history plain_lax only_parameter reads_limit recordings service 5 (omega arith)
      (omega arith) (omega arith)

-- The form of the entries is opened and filled.
abbrev registered : List (Event Entries.Action)
registered =
    act Entries.open_modal
    ∷ act (Entries.type_selector "unix:uid:0")
    ∷ act Entries.add
    ∷ act Entries.submit
    ∷ []

entries_sent_example : All (IsAdmitted plain_lax) (after (Entries.page (λ s. s)) registered).sent
entries_sent_example = entries_sent-IsAdmitted plain_lax (λ s. s) registered

-- The first rotation but one.
rotation_example :
    (polled 710 3600 ≡ 3600 - 10 * (710 % 355)) × (60 ≤ polled 710 3600) × (polled 710 3600 ≤ 3600)
rotation_example = polled-periodic 710
