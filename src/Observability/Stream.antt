-- ===== src/Observability/Stream.antt =====
-- The messages of the WebSocket.
use zerokey.Base.{
  ◌≡◌, ◌≢◌, refl, ◌⊎◌, inl, inr, String, Option, none, some, true, false, ◌∷◌, str_eq, eq_iff, ap,
  ◌∙◌, Bool-cases, Option-cases, if◌then◌else◌,
}
use zerokey.Api.Types.{Json, Fields, null, bool, int, decimal, text, arr, obj, AuditLogEvent}
use zerokey.Api.Fetch.{member, truthy_json}
use zerokey.Runtime.Async.{pure}
use zerokey.Runtime.World.{World, act, step, run}
use zerokey.Observability.{State, socket_sends, is_text, announce, received, on_message, on, page}

-- A message that announces the event `v`.
abbrev pub Announces : Option Json → Json → Type 0
Announces message v =
    (fields : Fields) × (message ≡ some (obj fields))
    × (member "type" fields ≡ some (text "AUDIT_EVENT"))
    × (member "event" fields ≡ some v)
    × (truthy_json v ≡ true)

-- What becomes of a message.
abbrev pub Shown : (Json → AuditLogEvent) → Option Json → World State → Type 0
Shown as_event message w =
    ((v : Json) × Announces message v
      × (step (page as_event) (act (socket_sends message)) w
          ≡ record w { state = record (w.state) { logs = as_event v ∷ w.state.logs } }))
    ⊎ (((v : Json) → ¬ Announces message v)
        × (step (page as_event) (act (socket_sends message)) w ≡ w))

text_inj : {a b : String} → Path (Option Json) (some (text a)) (some (text b)) → a ≡ b
text_inj e = cc

obj_inj : {a b : Fields} → Path (Option Json) (some (obj a)) (some (obj b)) → a ≡ b
obj_inj e = cc

some_json_inj : {a b : Json} → Path (Option Json) (some a) (some b) → a ≡ b
some_json_inj e = cc

-- The test of the type holds for that text alone.
is_text-cases :
    (o : Option Json)
    → ((o ≡ some (text "AUDIT_EVENT")) × (is_text o "AUDIT_EVENT" ≡ true))
      ⊎ ((o ≢ some (text "AUDIT_EVENT")) × (is_text o "AUDIT_EVENT" ≡ false))
unfolding is_text
is_text-cases none = inr ((λ e. cc), refl)
is_text-cases (some (text s)) = elim (Bool-cases (str_eq s "AUDIT_EVENT")) [
  | inl same ↦ inl (ap (λ x. some (text x)) ((eq_iff s "AUDIT_EVENT").0 same), same)
  | inr differ ↦ inr ((λ e. cc (differ, (eq_iff s "AUDIT_EVENT").1 (text_inj e))), differ)
]
is_text-cases (some null) = inr ((λ e. cc), refl)
is_text-cases (some (bool b)) = inr ((λ e. cc), refl)
is_text-cases (some (int n)) = inr ((λ e. cc), refl)
is_text-cases (some (decimal d)) = inr ((λ e. cc), refl)
is_text-cases (some (arr items)) = inr ((λ e. cc), refl)
is_text-cases (some (obj fields)) = inr ((λ e. cc), refl)

module _ (as_event : Json → AuditLogEvent) (w : World State) where
  -- The handler of a message is run at once.
  sends-run :
      (fields : Fields)
      → step (page as_event) (act (socket_sends (some (obj fields)))) w
        ≡ run
            (if is_text (member "type" fields) "AUDIT_EVENT"
              then announce as_event (member "event" fields)
              else pure tt)
            w
  unfolding step page on on_message received
  sends-run fields = refl

  event-Shown :
      (fields : Fields)
      → member "type" fields ≡ some (text "AUDIT_EVENT")
      → is_text (member "type" fields) "AUDIT_EVENT" ≡ true
      → Shown as_event (some (obj fields)) w
  unfolding announce run
  event-Shown fields type holds = elim (Option-cases (member "event" fields)) [
    | inl missing ↦ inr (
      (λ v (fs, e, t, m, b). cc (ap (member "event") (obj_inj e), missing, m)),
      rw (sends-run fields, holds, missing) refl,
    )
    | inr (v, there) ↦ elim (Bool-cases (truthy_json v)) [
      | inl good ↦ inl (
        v,
        (fields, refl, type, there, good),
        rw (sends-run fields, holds, there) (rw (good) refl),
      )
      | inr bad ↦ inr (
        (λ u (fs, e, t, m, b). cc (ap (member "event") (obj_inj e), there, m, bad, b)),
        rw (sends-run fields, holds, there) (rw (bad) refl),
      )
    ]
  ]

  fields-Shown : (fields : Fields) → Shown as_event (some (obj fields)) w
  unfolding run
  fields-Shown fields = elim (is_text-cases (member "type" fields)) [
    | inr (other, fails) ↦ inr (
      (λ v (fs, e, t, m, b). other (ap (member "type") (obj_inj e) ∙ t)),
      rw (sends-run fields, fails) refl,
    )
    | inl (type, holds) ↦ event-Shown fields type holds
  ]

  -- A message that announces an event puts it before the others, and changes nothing else; any
  -- other message, one that does not parse included, changes nothing at all.
  pub socket_sends-Shown : (message : Option Json) → Shown as_event message w
  unfolding step page on on_message received run
  socket_sends-Shown (some (obj fields)) = fields-Shown fields
  socket_sends-Shown none = inr ((λ v (fs, e, t, m, b). cc), refl)
  socket_sends-Shown (some null) = inr ((λ v (fs, e, t, m, b). cc), refl)
  socket_sends-Shown (some (bool b)) = inr ((λ v (fs, e, t, m, b). cc), refl)
  socket_sends-Shown (some (int n)) = inr ((λ v (fs, e, t, m, b). cc), refl)
  socket_sends-Shown (some (decimal d)) = inr ((λ v (fs, e, t, m, b). cc), refl)
  socket_sends-Shown (some (text s)) = inr ((λ v (fs, e, t, m, b). cc), refl)
  socket_sends-Shown (some (arr items)) = inr ((λ v (fs, e, t, m, b). cc), refl)
