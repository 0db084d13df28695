-- ===== src/Workloads/Mutual.antt =====
-- src/app/cmd/server/main.go and src/app/cmd/client/main.go: the two programs and the connection
-- between them. `url_of` is Go's `url.Parse` with the port that is dialled for it, `reaches` says
-- whether a dial to a host and a port comes to the server that listens on a port, where nothing
-- else answers, and `print` is the encoder of the answers. The workloads have their certificates.
use zerokey.Base.{
  arith, ℕ, ◌≡◌, refl, sym, ap, ◌∙◌, ◌↔◌, inl, inr, String, Bool, true, false, not, ◌&&◌, ◌||◌,
  Option, none, some, [], str_eq, eq_iff, Bool-cases, if◌then◌else◌,
}
use zerokey.Api.Types.{Json, Fields, text, obj}
use zerokey.Api.Fetch.{member}
use zerokey.Runtime.Async.{Outcome, ok, failed}
use zerokey.Backend.Policy.{evaluate_policy}
use zerokey.Workloads.Config.{load_server_config, load_client_config}
use zerokey.Workloads.Identity.{
  SpiffeLibrary, extract_peer_spiffe_id-single, invalid, parse_id, is_authorized,
}
use zerokey.Workloads.Server.{new_mux, secret_data_response, client_id}
use zerokey.Workloads.Client.{Reply, unbuilt, unsent, replied, execute_request, run_once_code}

-- What the client dials and asks for.
pub record Url : Type 0 where
  pub scheme : String
  pub host : String
  pub port : String
  pub path : String

module _ {SpiffeId : Type 0} (lib : SpiffeLibrary SpiffeId) where
  valid_only :
      (uri : String) (i : SpiffeId) (o : Outcome SpiffeId) → invalid lib uri o ≡ ok i → o ≡ ok i
  unfolding invalid
  valid_only uri i (ok j) h = h
  valid_only uri i (failed err) h = cc

  -- What `ParseID` gives, the library gave.
  parsed-from_string :
      (uri : String) (i : SpiffeId) → parse_id lib uri ≡ ok i → lib.from_string uri ≡ ok i
  unfolding parse_id
  parsed-from_string uri i h = elim (Bool-cases (str_eq uri "")) [
    | inl empty ↦ cc (h, refused empty)
    | inr named ↦ valid_only uri i (lib.from_string uri) (sym (read named) ∙ h)
  ]
    where
      refused : str_eq uri "" ≡ true → parse_id lib uri ≡ failed "SPIFFE ID cannot be empty"
      refused e = rw e refl

      read : str_eq uri "" ≡ false → parse_id lib uri ≡ invalid lib uri (lib.from_string uri)
      read e = rw e refl

  parsed-printed : (uri : String) (i : SpiffeId) → parse_id lib uri ≡ ok i → lib.printed_id i ≡ uri
  parsed-printed uri i h = lib.printed-from_string uri i (parsed-from_string uri i h)

  both : (a b : Bool) → (a && b) ≡ true → (a ≡ true) × (b ≡ true)
  both true b e = (refl, e)
  both false b e = cc

  true≢false : true ≡ false → ⊥
  true≢false e = cc e

  same_Bool : (a b : Bool) → (a ≡ true → b ≡ true) → (b ≡ true → a ≡ true) → a ≡ b
  same_Bool true b to from = sym (to refl)
  same_Bool false true to from = from refl
  same_Bool false false to from = refl

  -- On two texts that are SPIFFE IDs, the decision of the dashboard's backend is the one that the
  -- workloads' own check makes of the IDs.
  pub evaluate_policy-is_authorized :
      (trust_domain now presented authorized : String) (i j : SpiffeId)
      → parse_id lib presented ≡ ok i
      → parse_id lib authorized ≡ ok j
      → (evaluate_policy trust_domain now
          (record { client_spiffe_id = presented; required_spiffe_id = authorized })).allowed
        ≡ is_authorized lib i j
  unfolding evaluate_policy is_authorized
  evaluate_policy-is_authorized trust_domain now presented authorized i j p q =
      rw
        (
          lib.strip-from_string presented i (parsed-from_string presented i p),
          lib.strip-from_string authorized j (parsed-from_string authorized j q),
          lib.is_zero-from_string presented i (parsed-from_string presented i p),
          lib.is_zero-from_string authorized j (parsed-from_string authorized j q),
        )
        (same_Bool (str_eq presented authorized) (lib.same_id i j)
          (λ e. (lib.same_id_iff i j).1 (
            lib.printed_id_inj i j (
              parsed-printed presented i p
              ∙ (eq_iff presented authorized).0 e
              ∙ sym (parsed-printed authorized j q))))
          (λ e. (eq_iff presented authorized).1 (
            sym (parsed-printed presented i p)
            ∙ ap lib.printed_id ((lib.same_id_iff i j).0 e)
            ∙ parsed-printed authorized j q)))

  module _ (getenv_server getenv_client : String → String) (url_of : String → Option Url)
      (reaches : String → String → String → Bool) (now : String) (indent : String → Option String)
      (print : Json → String) where
    answer_of : Option Json → Reply
    answer_of (some v) = replied 200 (print v)
    answer_of none = replied 404 "404 page not found\n"

    -- The body that the server has for a client that is connected.
    pub served : String → SpiffeId → SpiffeId → Option Json
    unfolding new_mux
    served path server client =
        new_mux (lib.printed_id server) now path (some (lib.certificates client))

    -- The handshake, by the ID that the server has read from its settings.
    shake : SpiffeId → SpiffeId → String → SpiffeId → SpiffeId → Reply
    unfolding answer_of served
    shake allowed expected path server client =
        if lib.connects (lib.authorize_id allowed) (lib.authorize_id expected) server client
        then answer_of (served path server client)
        else unsent "tls: bad certificate"

    -- What the client's request meets: a URL that is none, a server that has ended, none at that
    -- address, one that speaks TLS where the client does not, or the handshake.
    request : Outcome SpiffeId → SpiffeId → Option Url → SpiffeId → SpiffeId → Reply
    unfolding shake
    request allowed expected none server client = unbuilt "invalid URL"
    request (failed err) expected (some url) server client = unsent err
    request (ok allowed) expected (some url) server client =
        if not (str_eq url.scheme "https" || str_eq url.scheme "http")
        then unsent "unsupported protocol scheme"
        else if not (reaches url.host url.port (load_server_config getenv_server).port)
        then unsent "connection refused"
        else if str_eq url.scheme "http"
        then replied 400 "Client sent an HTTP request to an HTTPS server.\n"
        else shake allowed expected url.path server client

    code_with : Outcome SpiffeId → SpiffeId → SpiffeId → ℕ
    unfolding request run_once_code
    code_with (failed err) server client = 1
    code_with (ok expected) server client = run_once_code indent (
        request (parse_id lib (load_server_config getenv_server).allowed_client_uri) expected
          (url_of (load_client_config getenv_client true).server_url) server client)

    -- The exit code of the client with `-once`, where the workloads have these two IDs.
    unfoldable pub exit_code : SpiffeId → SpiffeId → ℕ
    unfolding code_with
    exit_code server client =
        code_with (parse_id lib (load_client_config getenv_client true).expected_server_id) server
          client

    connected_iff :
        (allowed expected server client : SpiffeId)
        → (lib.connects (lib.authorize_id allowed) (lib.authorize_id expected) server client ≡ true)
          ↔ ((client ≡ allowed) × (server ≡ expected))
    connected_iff allowed expected server client =
        let (to, from) =
          lib.connects_iff (lib.authorize_id allowed) (lib.authorize_id expected) server client in
        (
          (λ e.
              let (a, b) = to e in
              (
                (lib.authorize_id_iff allowed client).0 a,
                (lib.authorize_id_iff expected server).0 b,
              )),
          λ (a, b). from (
            (lib.authorize_id_iff allowed client).1 a,
            (lib.authorize_id_iff expected server).1 b,
          ),
        )

    module _ (allowed expected : SpiffeId)
        (allows : parse_id lib (load_server_config getenv_server).allowed_client_uri ≡ ok allowed)
        (expects : parse_id lib (load_client_config getenv_client true).expected_server_id
          ≡ ok expected)
        (url : Url) (asks : url_of (load_client_config getenv_client true).server_url ≡ some url)
        (secret : url.path ≡ "/api/secret-data") (server client : SpiffeId) where
      -- The transport, apart from the IDs.
      is_open : Bool
      is_open =
          str_eq url.scheme "https"
          && reaches url.host url.port (load_server_config getenv_server).port

      http_other : str_eq url.scheme "http" ≡ true → str_eq url.scheme "https" ≡ false
      http_other e = ap (λ t. str_eq t "https") ((eq_iff url.scheme "http").0 e)

      code_by : exit_code server client ≡ (
          if is_open
            && lib.connects (lib.authorize_id allowed) (lib.authorize_id expected) server client
          then 0
          else 1)
      unfolding exit_code code_with request shake answer_of served new_mux run_once_code
          execute_request is_open
      code_by =
          rw (expects, allows, asks)
            (elim (Bool-cases (str_eq url.scheme "https")) [
              | inl tls ↦
                  elim (Bool-cases
                    (reaches url.host url.port (load_server_config getenv_server).port)) [
                      | inl here ↦ elim (Bool-cases (str_eq url.scheme "http")) [
                        | inl plain ↦ absurd (true≢false (sym tls ∙ http_other plain))
                        | inr other ↦
                            elim (Bool-cases (
                              lib.connects (lib.authorize_id allowed) (lib.authorize_id expected)
                                server client)) [
                                  | inl meets ↦ rw (tls, here, other, meets, secret) refl
                                  | inr fails ↦ rw (tls, here, other, fails) refl
                                ]
                      ]
                      | inr away ↦ rw (tls, away) refl
                    ]
              | inr other ↦ elim (Bool-cases (str_eq url.scheme "http")) [
                | inl plain ↦
                    elim (Bool-cases
                      (reaches url.host url.port (load_server_config getenv_server).port)) [
                        | inl here ↦ rw (other, plain, here) refl
                        | inr away ↦ rw (other, plain, away) refl
                      ]
                | inr unknown ↦ rw (other, unknown) refl
              ]
            ])

      peer_answered :
          member "authenticated_client_spiffe_id"
            (secret_data_response (lib.printed_id server) now (some (lib.certificates client)))
          ≡ some (text (lib.printed_id client))
      unfolding secret_data_response client_id member
      peer_answered =
          ap
            (λ certs.
              member "authenticated_client_spiffe_id"
                (secret_data_response (lib.printed_id server) now (some certs)))
            (lib.certificates-first client)
          ∙ ap (λ name. some (text name))
              (extract_peer_spiffe_id-single (lib.certificate_of client) (lib.printed_id client) []
                (lib.uris-certificate_of client))

      zero_or_one : (b : Bool) → Path ℕ (if b then 0 else 1) 0 → b ≡ true
      zero_or_one true e = refl
      zero_or_one false e = absurd (omega arith)

      named :
          (i j : SpiffeId) (uri : String)
          → parse_id lib uri ≡ ok j
          → (i ≡ j) ↔ (lib.printed_id i ≡ uri)
      named i j uri read = (
        (λ e. ap lib.printed_id e ∙ parsed-printed uri j read),
        λ e. lib.printed_id_inj i j (e ∙ sym (parsed-printed uri j read)),
      )

      open_iff : (is_open ≡ true) ↔ (
          (url.scheme ≡ "https")
          × (reaches url.host url.port (load_server_config getenv_server).port ≡ true))
      unfolding is_open
      open_iff =
          let (to, from) = eq_iff url.scheme "https" in
          (
            (λ e.
                let (a, b) =
                  both (str_eq url.scheme "https")
                    (reaches url.host url.port (load_server_config getenv_server).port) e in
                (to a, b)),
            λ (a, b). rw (from a, b) refl,
          )

      -- Where both programs can read the ID of the other side from their settings, and the client
      -- asks for the secret data: its run with `-once` exits with 0 exactly if its URL has the
      -- scheme "https" and a host and a port by which the server is reached on the port it listens
      -- on, its own ID is the one that the server allows, and the ID of the server is the one that
      -- the client expects; and the answer of the server names the ID of the client as the
      -- authenticated one.
      pub exit_code-zero_iff :
          ((exit_code server client ≡ 0) ↔ (
            ((url.scheme ≡ "https")
              × (reaches url.host url.port (load_server_config getenv_server).port ≡ true))
            × ((lib.printed_id client ≡ (load_server_config getenv_server).allowed_client_uri)
                × (lib.printed_id server
                    ≡ (load_client_config getenv_client true).expected_server_id))))
          × ((fields : Fields) × (served url.path server client ≡ some (obj fields))
              × (member "authenticated_client_spiffe_id" fields
                  ≡ some (text (lib.printed_id client))))
      unfolding served new_mux
      exit_code-zero_iff =
          let (to, from) = connected_iff allowed expected server client in
          let (by_server, back_server) = named client allowed _ allows in
          let (by_client, back_client) = named server expected _ expects in
          (
            (
              (λ e.
                  let (stands, meets) = both is_open _ (zero_or_one _ (sym code_by ∙ e)) in
                  let (a, b) = to meets in (open_iff.0 stands, (by_server a, by_client b))),
              λ (stands, (a, b)).
                  code_by ∙ rw (open_iff.1 stands, from (back_server a, back_client b)) refl,
            ),
            (
              secret_data_response (lib.printed_id server) now (some (lib.certificates client)),
              rw secret refl,
              peer_answered,
            ),
          )
