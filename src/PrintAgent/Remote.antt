-- ===== src/PrintAgent/Remote.antt =====
-- internal/service/print_agent.go: the server of print jobs (doJSON, claimNextJob, reportSuccess,
-- reportFailed). HTTP, URLs and JSON are parameters.
use quantix_cnnector_go.Prelude.{
  Bool, false, ◌||◌, ◌&&◌, not, Option, none, some, [], ◌++◌, length, leb, if◌then◌else◌, ◌⊎◌, inl,
  inr,
}
use quantix_cnnector_go.Prelude.Int.{ℤ, pos, leb_ℤ, ltb_ℤ}
use quantix_cnnector_go.Prelude.Text.{
  Bytes, codes, utf8, trim_space, to_lower, contains, split, show_int,
}
use quantix_cnnector_go.Value.{int, string, object, Fields, end, field, Error, errorf}
use quantix_cnnector_go.Config.{PrintAgentSettings}
use quantix_cnnector_go.Config.Mappings.{is_empty}
use quantix_cnnector_go.PrintAgent.{RemotePrintJob}

pub record NextResponse : Type 0 where
  pub success : Bool
  pub message : Bytes
  pub data_ : Option RemotePrintJob

-- `new_request` is the error of http.NewRequestWithContext for a URL, `send` what the client's Do gives:
-- an error, or a status and a body; `url_host` the host of a URL that parses; `decode_next` and
-- `decode_map` json.Unmarshal into the two types of answer, `format` fmt.Errorf without arguments,
-- `is_canceled` errors.Is(err, context.Canceled).
pub record Server : Type 0 where
  pub marshal : Fields → Error ⊎ Bytes
  pub new_request : Bytes → Option Error
  pub send : Bytes → Bytes → Bytes → Error ⊎ (ℤ × Bytes)
  pub url_host : Bytes → Option Bytes
  pub decode_next : Bytes → Error ⊎ NextResponse
  pub decode_map : Bytes → Error ⊎ Fields
  pub format : Bytes → Bytes
  pub is_canceled : Error → Bool

abbrev pub host_has_port : Option Bytes → Bool
host_has_port none = false
host_has_port (some h) =
    let host = trim_space h in
    if is_empty host
    then false
    else if contains (codes "]") host
    then contains (codes "]:") host
    else leb 2 (length (split b':' host))

abbrev hint : Bytes
hint = utf8 " (hint: Quantix 服务地址可能缺少端口，请尝试 http://<host>:8050)"

module _ (server : Server) where
  unfoldable pub server_url_has_explicit_port : Bytes → Bool
  server_url_has_explicit_port url = host_has_port (server.url_host (trim_space url))

  unfoldable pub is_context_canceled_err : Option Error → Bool
  is_context_canceled_err none = false
  is_context_canceled_err (some e) =
      server.is_canceled e || contains (codes "context canceled") (to_lower (trim_space e.text))

  abbrev with_hint : PrintAgentSettings → Error → Error
  with_hint cfg e =
      let msg = trim_space e.text in
      if contains (codes "eof") (to_lower msg) && not (server_url_has_explicit_port cfg.server_url)
      then errorf (msg ++ hint)
      else e

  -- What is made of an answer; `untouched` is the value that is decoded into.
  abbrev answered {ℓ} :
      {A : Type ℓ} → (Bytes → Error ⊎ A) → A → PrintAgentSettings → Error ⊎ (ℤ × Bytes) → Error ⊎ A
  answered decode untouched cfg (inl e) = inl (with_hint cfg e)
  answered decode untouched cfg (inr (status, body)) =
      if ltb_ℤ status (pos 200) || leb_ℤ (pos 300) status
      then inl (errorf (codes "http " ++ show_int status ++ codes ": " ++ trim_space body))
      else if is_empty body
      then inr untouched
      else decode body

  abbrev requested {ℓ} :
      {A : Type ℓ}
      → (Bytes → Error ⊎ A)
      → A
      → PrintAgentSettings
      → Bytes
      → Bytes
      → Option Error
      → Error ⊎ A
  requested decode untouched cfg url body (some e) = inl e
  requested decode untouched cfg url body none =
      answered decode untouched cfg (server.send url cfg.agent_api_key body)

  abbrev marshaled {ℓ} :
      {A : Type ℓ}
      → (Bytes → Error ⊎ A)
      → A
      → PrintAgentSettings
      → Bytes
      → Error ⊎ Bytes
      → Error ⊎ A
  marshaled decode untouched cfg url (inl e) = inl e
  marshaled decode untouched cfg url (inr body) =
      requested decode untouched cfg url body (server.new_request url)

  unfoldable pub do_json {ℓ} :
      {A : Type ℓ} → (Bytes → Error ⊎ A) → A → PrintAgentSettings → Bytes → Fields → Error ⊎ A
  do_json decode untouched cfg url payload =
      marshaled decode untouched cfg url (server.marshal payload)

  abbrev no_response : NextResponse
  no_response = record { success = false; message = []; data_ = none }

  abbrev accepted : Error ⊎ NextResponse → Error ⊎ Option RemotePrintJob
  accepted (inl e) = inl e
  accepted (inr resp) =
      if resp.success then inr resp.data_ else inl (errorf (server.format resp.message))

  abbrev claim_body : PrintAgentSettings → Fields
  claim_body cfg =
      let wait =
        if ltb_ℤ (pos 0) cfg.long_poll_ms
        then field (codes "wait_ms") (int cfg.long_poll_ms) end
        else end in
      field (codes "client_id") (string cfg.client_id)
        (field (codes "job_type") (string cfg.job_type) wait)

  unfoldable pub claim_next_job : PrintAgentSettings → Error ⊎ Option RemotePrintJob
  unfolding do_json
  claim_next_job cfg = accepted (
      do_json server.decode_next no_response cfg (cfg.server_url ++ codes "/api/print-jobs/next")
        (claim_body cfg))

-- A report to the server: its path and its body.
abbrev pub Report : Type 0
Report = Bytes × Fields

unfoldable pub success_report : PrintAgentSettings → RemotePrintJob → Fields → Report
success_report cfg task result = (
  cfg.server_url ++ codes "/api/print-jobs/" ++ show_int task.id ++ codes "/success",
  field (codes "client_id") (string cfg.client_id) (field (codes "result") (object result) end),
)

unfoldable pub failed_report : PrintAgentSettings → RemotePrintJob → Bytes → Fields → Report
failed_report cfg task message result = (
  cfg.server_url ++ codes "/api/print-jobs/" ++ show_int task.id ++ codes "/failed",
  field (codes "client_id") (string cfg.client_id)
      (field (codes "error_message") (string message) (field (codes "result") (object result) end)),
)

-- The error of a report, if it fails.
abbrev pub failure {ℓ} : {A : Type ℓ} → Error ⊎ A → Option Error
failure (inl e) = some e
failure (inr a) = none

unfoldable pub report : Server → PrintAgentSettings → Report → Option Error
unfolding do_json
report server cfg r = failure (do_json server server.decode_map end cfg r.0 r.1)
