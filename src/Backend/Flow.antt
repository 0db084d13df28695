-- ===== src/Backend/Flow.antt =====
-- dashboard/backend/app/services/flow_service.py, `execute_test_flow`: a run of the client worker,
-- or a simulated refusal, with the steps that the dashboard shows and the event that is recorded.
-- `latency` is the measured time, and `run_client` what the container run gave: `none` for an
-- exception; `payload` is the regular expression and the JSON parser that read its output.
use zerokey.Base.{
  ℤ, pos, Decimal, String, Bool, false, Option, none, some, List, [], ◌∷◌, ◌&&◌, template,
  if◌then◌else◌, nat_eq,
}
use zerokey.Base.Text.{includes}
use zerokey.Api.Types.{Fields, text, obj, end, field, HandshakeStep, KeylessTestFlowResponse}
use zerokey.Backend.Schemas.{KeylessTestFlowRequest}

pub record ClientRun : Type 0 where
  pub returncode : ℤ
  pub stdout : String

-- What a run of the service meets.
pub record Surroundings : Type 0 where
  pub trust_domain : String
  pub now : String
  pub latency : Decimal
  pub latency_text : String
  pub run_client : Option ClientRun
  pub payload : String → Option Fields

abbrev pub under : String → String → String
under trust_domain name = template ("spiffe://" ∷ trust_domain ∷ name ∷ [])

abbrev step : ℤ → String → String → String → String → String → HandshakeStep
step number title actor status details timestamp = record {
  step_number = number;
  title = title;
  actor = actor;
  status = status;
  details = details;
  timestamp = timestamp;
}

-- The steps of a refused run.
unfoldable pub refused_steps : Surroundings → List HandshakeStep
refused_steps s =
    step (pos 1) "Workload Attestation" "spire-agent" "SUCCESS"
      "Attested caller process via Docker label 'workload=unauthorized-worker'" s.now
    ∷ step (pos 2) "SVID Minting" "spire-server" "SUCCESS"
        (template (
          "Minted short-lived X.509 SVID for '"
          ∷ under s.trust_domain "/unauthorized-worker"
          ∷ "'"
          ∷ []))
        s.now
    ∷ step (pos 3) "mTLS TLS 1.3 Handshake" "client -> backend-api" "SUCCESS"
        "Cryptographic TLS handshake established; client presented X.509 SVID" s.now
    ∷ step (pos 4) "SPIFFE ID Policy Authorization" "backend-api" "DENIED"
        (template (
          "Access Denied: SPIFFE ID '"
          ∷ under s.trust_domain "/unauthorized-worker"
          ∷ "' does not match policy '"
          ∷ under s.trust_domain "/client-worker"
          ∷ "'"
          ∷ []))
        s.now
    ∷ []

unfoldable pub accepted_steps : Surroundings → List HandshakeStep
accepted_steps s =
    step (pos 1) "Workload Attestation" "spire-agent" "SUCCESS"
      "Kernel & Docker inspection verified workload label 'workload=client-worker'" s.now
    ∷ step (pos 2) "Dynamic SVID Acquisition" "spire-server" "SUCCESS"
        (template (
          "In-memory X.509 SVID delivered to client ("
          ∷ under s.trust_domain "/client-worker"
          ∷ ")"
          ∷ []))
        s.now
    ∷ step (pos 3) "Mutual TLS 1.3 Connection" "client <-> backend-api" "SUCCESS"
        "mTLS established on port 8443; trust domain 'demo.local' verified by both peers" s.now
    ∷ step (pos 4) "Peer SPIFFE ID Authorization" "backend-api" "SUCCESS"
        (template (
          "Authorized peer SAN URI '"
          ∷ under s.trust_domain "/client-worker"
          ∷ "' matches policy allowlist"
          ∷ []))
        s.now
    ∷ step (pos 5) "Protected Payload Delivery" "backend-api -> client" "SUCCESS"
        "Encrypted HTTP/2 JSON payload transferred with dynamic secret token" s.now
    ∷ []

-- What stands in for a payload that no run gave.
standard_payload : Surroundings → Fields
standard_payload s = field "status" (text "success") (
    field "message" (text "Keyless Authentication Successful via SPIRE/SPIFFE mTLS!") (
      field "authenticated_client_spiffe_id" (text (under s.trust_domain "/client-worker")) (
        field "server_spiffe_id" (text (under s.trust_domain "/backend-api")) (
          field "timestamp" (text s.now) (
            field "protected_payload"
              (obj (
                field "secret_vault_token" (text "dynamic-keyless-token-xyz-7890") (
                  field "access_granted_at" (text s.now) (
                    field "environment" (text "production-demo")
                      (field "identity_provider" (text "SPIRE Node & Workload Attestor") end)))))
              end)))))

unfoldable pub is_zero : ℤ → Bool
is_zero (pos n) = nat_eq n 0
is_zero _ = false

-- An empty payload counts as none.
or_standard : Surroundings → Option Fields → Fields
unfolding standard_payload
or_standard s none = standard_payload s
or_standard s (some end) = standard_payload s
or_standard s (some (field name v rest)) = field name v rest

payload_data : Surroundings → Option ClientRun → Fields
unfolding or_standard is_zero includes
payload_data s none = or_standard s none
payload_data s (some run) =
    if is_zero run.returncode && includes run.stdout "RESPONSE 200 OK"
    then or_standard s (s.payload run.stdout)
    else or_standard s none

-- The fields of the event that is recorded.
pub record Recorded : Type 0 where
  pub event_type : String
  pub actor : String
  pub target : String
  pub status : String
  pub details : String

unfoldable pub refused : Surroundings → KeylessTestFlowResponse × Recorded
unfolding refused_steps
refused s = (
  record {
    status = "denied";
    message = template (
        "403 Forbidden: Client SPIFFE ID '"
        ∷ under s.trust_domain "/unauthorized-worker"
        ∷ "' is not authorized by backend policy"
        ∷ []);
    client_spiffe_id = under s.trust_domain "/unauthorized-worker";
    server_spiffe_id = under s.trust_domain "/backend-api";
    latency_ms = s.latency;
    status_code = pos 403;
    timestamp = s.now;
    payload =
        field "error" (text "Unauthorized SPIFFE ID")
          (field "policy_rule" (text "exact_match") end);
    handshake_steps = refused_steps s;
  },
  record {
    event_type = "MTLS_POLICY_DENIED";
    actor = under s.trust_domain "/unauthorized-worker";
    target = under s.trust_domain "/backend-api";
    status = "DENIED";
    details = "Rejected request: Client SPIFFE ID not in authorization allowlist";
  },
)

unfoldable pub accepted : Surroundings → KeylessTestFlowResponse × Recorded
unfolding accepted_steps payload_data
accepted s = (
  record {
    status = "success";
    message = "Keyless Authentication Successful via SPIRE/SPIFFE mTLS!";
    client_spiffe_id = under s.trust_domain "/client-worker";
    server_spiffe_id = under s.trust_domain "/backend-api";
    latency_ms = s.latency;
    status_code = pos 200;
    timestamp = s.now;
    payload = payload_data s s.run_client;
    handshake_steps = accepted_steps s;
  },
  record {
    event_type = "MTLS_AUTH_SUCCESS";
    actor = under s.trust_domain "/client-worker";
    target = under s.trust_domain "/backend-api";
    status = "SUCCESS";
    details =
        template
          ("Keyless mTLS handshake completed in " ∷ s.latency_text ∷ "ms (Status: 200 OK)" ∷ []);
  },
)

unfoldable pub execute_test_flow :
    Surroundings → KeylessTestFlowRequest → KeylessTestFlowResponse × Recorded
unfolding refused accepted
execute_test_flow s req = if req.simulate_unauthorized then refused s else accepted s
