-- ===== src/Http/Response.antt =====
-- The answers of src/http: how errors and results become a status, headers and a body.
use aperip_nomos.Prelude.{[], if◌then◌else◌}
use aperip_nomos.Prelude.Result.{Result, ok, err}
use aperip_nomos.Text.{codes}
use aperip_nomos.Text.Utf8.{Bytes}
use aperip_nomos.Http.{ApiError, StatusCode}
use aperip_nomos.Http.Web.{WebCrates, Payload, error_response, www_authenticate}

module _ (w : WebCrates) where
  pub record Response : Type 0 where
    pub status : StatusCode
    pub headers : w.HeaderMap
    pub body : Bytes

  -- `Json`, alone and beside a status
  unfoldable pub json_with : StatusCode → Payload → Response
  json_with status payload = record {
    status = status;
    headers = (w.json payload).0;
    body = (w.json payload).1;
  }

  -- an answer that is a status alone
  unfoldable pub empty_with : StatusCode → Response
  empty_with status = record { status = status; headers = w.empty; body = [] }

  -- the answer of axum to a path whose `{slug}` is not a text
  unfoldable pub rejected : Response
  rejected = record { status = w.rejection.0; headers = w.rejection.1.0; body = w.rejection.1.1 }

  -- `IntoResponse for ApiError`
  unfoldable pub into_response : ApiError → Response
  unfolding json_with
  into_response e =
      let response =
        json_with e.status (error_response (record { code = e.code; message = e.message })) in
      if e.authenticate
      then record response { headers = w.insert www_authenticate (codes "Bearer") response.headers }
      else response

  -- a handler's result as an answer
  unfoldable pub reply {ℓ} : {A : Type ℓ} → (A → Response) → Result ApiError A → Response
  unfolding into_response
  reply show (ok a) = show a
  reply show (err e) = into_response e
