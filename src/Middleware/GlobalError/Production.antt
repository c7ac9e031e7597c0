-- ===== src/Middleware/GlobalError/Production.antt =====
-- What a client sees of an error outside development.
use distributed_workflow_sys.Prelude.{
  ◌≡◌, ◌≢◌, refl, String, some, false, List, [], ◌∷◌, ◌++◌, ltb, ne-beq, if◌then◌else◌, ap,
}
use distributed_workflow_sys.Prelude.Act.{AppError, Error, app, no_rows, other, error_text}
use distributed_workflow_sys.Middleware.GlobalError.{
  prod_error, ErrorReply, went_wrong, reply_to, reply_if, last_error, global_error_handler,
}

last_error-append : (errors : List Error) (err : Error) → last_error (errors ++ err ∷ []) ≡ some err
last_error-append [] err = refl
last_error-append (e ∷ []) err = refl
last_error-append (e ∷ e' ∷ es) err = last_error-append (e' ∷ es) err

-- The status and body of the answer: those of an AppError; the same for all other errors. The log
-- has the error's own text, and is a warning only for an AppError below 500.
abbrev pub Answers : Error → ErrorReply → Type 0
Answers (app e) r =
    (r.status_code ≡ e.status_code)
    × (r.body ≡ prod_error false e.message)
    × (r.log.level ≡ (if ltb e.status_code 500 then "warn" else "error"))
    × (r.log.message ≡ e.message)
Answers no_rows r =
    (r.status_code ≡ 500)
    × (r.body ≡ prod_error false went_wrong)
    × (r.log.level ≡ "error")
    × (r.log.message ≡ error_text no_rows)
Answers (other s) r =
    (r.status_code ≡ 500)
    × (r.body ≡ prod_error false went_wrong)
    × (r.log.level ≡ "error")
    × (r.log.message ≡ s)

module _ (stack_of : AppError → String) (debug_stack env method path : String)
    (outside : env ≢ "development") where
  reply_to-Answers : (err : Error) → Answers err (reply_to stack_of debug_stack env method path err)
  unfolding reply_to error_text
  reply_to-Answers (app e) = rw (ne-beq env "development" outside) (refl, refl, refl, refl)
  reply_to-Answers no_rows = rw (ne-beq env "development" outside) (refl, refl, refl, refl)
  reply_to-Answers (other s) = rw (ne-beq env "development" outside) (refl, refl, refl, refl)

  -- Outside development the last of the errors decides: an AppError is answered with its own status
  -- and message; any other error with the status 500 and one and the same text, so that nothing of
  -- it is shown. The log has the error's own text, as a warning only for an AppError below 500.
  pub global_error_handler-Answers :
      (errors : List Error) (err : Error)
      → (r : ErrorReply) × (global_error_handler stack_of debug_stack env method path
            (errors ++ err ∷ [])
          ≡ some r)
        × Answers err r
  unfolding global_error_handler reply_if
  global_error_handler-Answers errors err = (
    reply_to stack_of debug_stack env method path err,
    ap (reply_if stack_of debug_stack env method path) (last_error-append errors err),
    reply_to-Answers err,
  )
