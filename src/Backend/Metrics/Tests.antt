-- ===== src/Backend/Metrics/Tests.antt =====
-- The counter of the requests on concrete inputs.
use zerokey.Base.{◌+◌, ◌≡◌, none, List, [], ◌∷◌}
use zerokey.Api.Call.{Call, get, options_of}
use zerokey.Backend.Tests.{only_parameter, service}
use zerokey.Backend.App.Tests.{env}
use zerokey.Backend.Metrics.{Labels, Counter, Request, value, handled, tally, value-handled}

abbrev listed : Labels
listed = record { method = "GET"; path = "/api/entries"; status_code = "200" }

-- A deletion between two readings, and a reading of the metrics.
abbrev requests : List Request
requests =
    (options_of Call.get_entries, env)
    ∷ (options_of (Call.delete_entry "e-1"), env)
    ∷ (record { endpoint = "/metrics"; method = get; body = none }, env)
    ∷ (options_of Call.get_entries, env)
    ∷ []

abbrev earlier : Counter
earlier = (listed, 4) ∷ []

count_example :
    value listed (handled only_parameter requests service earlier).1.1
    ≡ value listed earlier + tally listed (handled only_parameter requests service earlier).0
count_example = value-handled only_parameter requests service earlier listed
