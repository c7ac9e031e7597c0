-- ===== src/Apperror.antt =====
-- services/workspace-service/pkg/apperror/error.go. The status codes are those of net/http.
use distributed_workflow_sys.Prelude.{ℕ, String, false}
use distributed_workflow_sys.Prelude.Act.{AppError, Error, app}

unfoldable pub new_app_error : String → ℕ → AppError
new_app_error message status_code = record {
  success = false;
  status_code = status_code;
  message = message;
}

abbrev pub bad_request : String → Error
bad_request msg = app (new_app_error msg 400)

abbrev pub unauthorized : String → Error
unauthorized msg = app (new_app_error msg 401)

abbrev pub forbidden : String → Error
forbidden msg = app (new_app_error msg 403)

abbrev pub not_found : String → Error
not_found msg = app (new_app_error msg 404)

abbrev pub internal_server : String → Error
internal_server msg = app (new_app_error msg 500)

abbrev pub service_unavailable : String → Error
service_unavailable msg = app (new_app_error msg 503)
