-- ===== src/Middleware/GlobalError.antt =====
-- services/workspace-service/internal/middleware/global_error.go. The stack that an AppError
-- recorded and the stack of the handler are parameters, as the model's errors have none.
pub mod Production
use distributed_workflow_sys.Prelude.{
  ℕ, String, Option, none, some, Bool, true, false, ◌&&◌, List, [], ◌∷◌, ltb, ◌==◌, if◌then◌else◌,
}
use distributed_workflow_sys.Prelude.Act.{AppError, Error, app, no_rows, other, error_text}

-- What the handler makes of an error; `stack` is empty for one that is not an AppError.
pub record Failure : Type 0 where
  pub status_code : ℕ
  pub message : String
  pub stack : String
  pub is_operational : Bool

-- The timestamp is left out.
pub record LokiLogPayload : Type 0 where
  pub level : String
  pub service : String
  pub environment : String
  pub message : String
  pub method : String
  pub path : String
  pub status_code : ℕ
  pub stack : String

-- devErrorResponse with its details, and prodErrorResponse.
pub data Body : Type 0 where
  dev_error : Bool → String → String → ℕ → Bool → Body
  prod_error : Bool → String → Body

pub record ErrorReply : Type 0 where
  pub log : LokiLogPayload
  pub status_code : ℕ
  pub body : Body

abbrev pub went_wrong : String
went_wrong = "Something went very wrong!"

abbrev pub last_error : List Error → Option Error
last_error [] = none
last_error (e ∷ []) = some e
last_error (e ∷ e' ∷ es) = last_error (e' ∷ es)

module _ (stack_of : AppError → String) (debug_stack : String) (env : String) where
  unfoldable pub failure_of : Error → Failure
  failure_of (app e) = record {
    status_code = e.status_code;
    message = e.message;
    stack = stack_of e;
    is_operational = true;
  }
  failure_of no_rows = record {
    status_code = 500;
    message = went_wrong;
    stack = "";
    is_operational = false;
  }
  failure_of (other s) = record {
    status_code = 500;
    message = went_wrong;
    stack = "";
    is_operational = false;
  }

  unfoldable pub stack_trace : Failure → String
  stack_trace f = if f.stack == "" then debug_stack else f.stack

  unfoldable pub log_level : Failure → String
  log_level f = if f.is_operational && ltb f.status_code 500 then "warn" else "error"

  unfoldable pub log_payload : Error → String → String → Failure → LokiLogPayload
  unfolding log_level stack_trace
  log_payload err method path f = record {
    level = log_level f;
    service = "workspace-service";
    environment = env;
    message = error_text err;
    method = method;
    path = path;
    status_code = f.status_code;
    stack = if log_level f == "error" then stack_trace f else "";
  }

  unfoldable pub dev_reply : LokiLogPayload → Failure → ErrorReply
  unfolding stack_trace
  dev_reply log f = record {
    log = log;
    status_code = f.status_code;
    body = dev_error false f.message (stack_trace f) f.status_code f.is_operational;
  }

  unfoldable pub prod_reply : LokiLogPayload → Failure → ErrorReply
  prod_reply log f = record {
    log = log;
    status_code = if f.is_operational then f.status_code else 500;
    body = prod_error false (if f.is_operational then f.message else went_wrong);
  }

  unfoldable pub reply_to : String → String → Error → ErrorReply
  unfolding failure_of log_payload dev_reply prod_reply
  reply_to method path err =
      if env == "development"
      then dev_reply (log_payload err method path (failure_of err)) (failure_of err)
      else prod_reply (log_payload err method path (failure_of err)) (failure_of err)

  unfoldable pub reply_if : String → String → Option Error → Option ErrorReply
  unfolding reply_to
  reply_if method path none = none
  reply_if method path (some err) = some (reply_to method path err)

  -- What follows the handlers: nothing if they recorded no error, else the answer to the last.
  unfoldable pub global_error_handler : String → String → List Error → Option ErrorReply
  unfolding reply_if
  global_error_handler method path errors = reply_if method path (last_error errors)
