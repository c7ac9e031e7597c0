-- ===== src/Http.antt =====
-- What the controllers of services/workspace-service share: the page limit and the cursor of a
-- request, and the answers (pkg/response/response.go). The strings of a URL are what gin hands
-- over; base64 and the UUID parser are parameters.
pub mod Query
use Prim.Native.Char.{code}
use distributed_workflow_sys.Prelude.{
  ℕ, zero, suc, ◌+◌, ◌-◌, ◌*◌, ◌%◌, ◌^◌, String, Option, none, some, Bool, true, false, ◌&&◌, not,
  List, [], ◌∷◌, ◌++◌, map, any, ltb, eqb, ◌==◌, if◌then◌else◌, joined,
}
use distributed_workflow_sys.Prelude.Act.{
  Act, Error, Result, ok, fail, ◌>>=◌, ◌>>◌, pure, raise, returned, relabel, error_text,
}
use distributed_workflow_sys.Apperror.{bad_request}

-- The code points of a text.
abbrev pub codes : String → List ℕ
codes String.[] = []
codes (String.◌∷◌ c s) = code c ∷ codes s

pub data ℤ : Type 0 where
  pos : ℕ → ℤ
  negsuc : ℕ → ℤ

abbrev neg : ℕ → ℤ
neg zero = pos zero
neg (suc n) = negsuc n

abbrev is_digit : ℕ → Bool
is_digit c = ltb 47 c && ltb c 58

unfoldable pub digits : List ℕ → ℕ → Option ℕ
digits [] n = some n
digits (c ∷ cs) n = let rest = digits cs (n * 10 + (c - 48)) in if is_digit c then rest else none

-- At least one digit, and a value below a bound.
unfoldable pub unsigned : ℕ → List ℕ → Option ℕ
unfolding digits
unsigned bound [] = none
unsigned bound (c ∷ cs) = elim (digits (c ∷ cs) 0) [
  | none ↦ none
  | some n ↦ if ltb n bound then some n else none
]

-- `strconv.Atoi` for a 64-bit int.
unfoldable atoi_codes : List ℕ → Option ℤ
unfolding unsigned
atoi_codes [] = none
atoi_codes (c ∷ cs) =
    if eqb c b'-'
    then elim (unsigned (2 ^ 63 + 1) cs) [ none ↦ none | some n ↦ some (neg n) ]
    else elim (unsigned (2 ^ 63) (if eqb c b'+' then cs else c ∷ cs)) [
      | none ↦ none
      | some n ↦ some (pos n)
    ]

unfoldable pub atoi : String → Option ℤ
unfolding atoi_codes
atoi s = atoi_codes (codes s)

-- Between 1 and 20, and 10 where the request says nothing that can be used.
unfoldable pub clamp_limit : Option ℤ → ℕ
clamp_limit none = 10
clamp_limit (some (pos l)) = if ltb 0 l then (if ltb 20 l then 20 else l) else 10
clamp_limit (some (negsuc l)) = 10

unfoldable pub page_limit : String → ℕ
unfolding clamp_limit atoi
page_limit limit_str = if limit_str == "" then 10 else clamp_limit (atoi limit_str)

-- The URL and standard encodings of base64, and whether uuid.Parse takes a text.
pub record Codec : Type 0 where
  pub url_encode : String → String
  pub url_decode : String → Option String
  pub std_decode : String → Option String
  pub is_uuid : String → Bool

module _ (codec : Codec) where
  abbrev or_else : Option String → Option String → Option String
  or_else (some s) o = some s
  or_else none o = o

  unfoldable pub decoded_cursor : Option String → Result String
  decoded_cursor none = fail (bad_request "Invalid cursor format: must be valid base64")
  decoded_cursor (some cursor) =
      if codec.is_uuid cursor
      then ok cursor
      else fail (bad_request "Invalid cursor format: decoded cursor is not a valid UUID")

  unfoldable pub cursor_of : String → Result String
  unfolding decoded_cursor
  cursor_of cursor_base64 =
      if cursor_base64 == ""
      then ok ""
      else decoded_cursor
          (or_else (codec.url_decode cursor_base64) (codec.std_decode cursor_base64))

  unfoldable pub encode_cursor : String → String
  encode_cursor next_cursor = if next_cursor == "" then "" else codec.url_encode next_cursor

-- IApiResponse with the status of the answer; the 16-bit status code keeps its bit pattern.
pub record Response (M D : Type 0) : Type 0 where
  pub http_status : ℕ
  pub status_code : ℕ
  pub success : Bool
  pub message : String
  pub meta : Option M
  pub payload : D

unfoldable pub send_response : {M D : Type 0} → ℕ → Bool → String → D → Option M → Response M D
send_response status_code success message payload meta = record {
  http_status = status_code;
  status_code = status_code % 2 ^ 16;
  success = success;
  message = message;
  meta = meta;
  payload = payload;
}

-- The parts of a request: the parameters of the path, the query, and the user of the middleware.
pub record Request : Type 0 where
  pub id : String
  pub project_id : String
  pub task_id : String
  pub limit : String
  pub cursor : String
  pub statuses : List String
  pub user_id : String

unfoldable pub binding_failure : Error → Error
binding_failure err = bad_request (joined ("Validation failed: " ∷ error_text err ∷ []))

module _ {W : Type 0} where
  -- `c.Param("id")` must be there.
  unfoldable pub require_id : String → Request → Act W (Unit {0})
  require_id message c = if c.id == "" then raise (bad_request message) else pure tt

  -- `c.ShouldBindJSON`, of which the result is given.
  unfoldable pub bind_json : {A : Type 0} → Result A → Act W A
  unfolding binding_failure
  bind_json body = relabel binding_failure (returned body)
