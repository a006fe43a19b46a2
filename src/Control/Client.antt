-- ===== src/Control/Client.antt =====
-- The settings and the HTTP client helpers of cmd/ctl/main.go. Package cobra, which parses the
-- arguments, package net/http and the texts of encoding/json are parameters.
pub mod Laws
use pfsense_agent.Base.{
  ℕ, String, ◌<>◌, Char, code, Bool, true, false, ◌&&◌, not, Option, none, some, List, [], ◌∷◌,
  ◌==◌, str_eq, if◌then◌else◌, trim_right, decimal, Result, ok, err, map_result, Error, plain, wrap,
  message, Io, Unit0,
}
use pfsense_agent.Json.{
  Json, Decoded, Setter, names_field, set_field, bool_field, string_field, raw_field, pointer_field,
  unmarshal,
}
use pfsense_agent.Control.Table.{Printed, stdout, Screen, print, print_error, print_json}

pub record Settings : Type 0 where
  pub base_url : String
  pub api_key : String
  pub output_fmt : String

-- What the arguments give for the three flags, and the two environment variables.
pub record Given : Type 0 where
  pub url : Option String
  pub api_key : Option String
  pub output : Option String
  pub env_url : String
  pub env_api_key : String

or_default : Option String → String → String
or_default none d = d
or_default (some flag) d = flag

-- The variables are read while the command is built, before the flags are parsed.
unfoldable pub settings_of : Given → Settings
unfolding or_default
settings_of g =
    let base_url : String = "http://localhost:8080" in
    let api_key : String = "" in
    record {
      base_url = or_default g.url (
          if not (str_eq g.env_url "") && str_eq base_url "http://localhost:8080"
          then g.env_url
          else base_url);
      api_key =
          or_default g.api_key
            (if not (str_eq g.env_api_key "") && str_eq api_key "" then g.env_api_key else api_key);
      output_fmt = or_default g.output "table";
    }

pub record ApiError : Type 0 where
  pub code : String
  pub message : String

pub record ApiResponse : Type 0 where
  pub success : Bool
  pub payload : Option Json
  pub error : Option ApiError

abbrev pub no_error : ApiError
no_error = record { code = ""; message = "" }

abbrev pub no_response : ApiResponse
no_response = record { success = false; payload = none; error = none }

-- The name that encoding/json gives to the struct without one.
abbrev error_type : String
error_type = "struct { Code string \"json:\\\"code\\\"\"; Message string \"json:\\\"message\\\"\" }"

set_error : Setter ApiError
unfolding names_field string_field
set_error key v e =
    if names_field key "code"
    then set_field (string_field "" "error.code" v e.code) (λ s. record e { code = s })
    else if names_field key "message"
    then set_field (string_field "" "error.message" v e.message) (λ s. record e { message = s })
    else (e, none)

unfoldable pub set_response : Setter ApiResponse
unfolding set_error names_field bool_field pointer_field
set_response key v r =
    if names_field key "success"
    then set_field (bool_field "apiResponse" "success" v r.success) (λ b. record r { success = b })
    else if names_field key "data"
    then set_field (raw_field v r.payload) (λ d. record r { payload = d })
    else if names_field key "error"
    then set_field (pointer_field "apiResponse" "error" error_type set_error no_error v r.error)
        (λ e. record r { error = e })
    else (r, none)

-- A request with the header that may be set, and what comes back.
pub record Request : Type 0 where
  pub method : String
  pub url : String
  pub authorization : Option String

pub record Response : Type 0 where
  pub status : ℕ
  pub body : Result String

-- `http.NewRequest` as its error, `client.Do`, and the JSON value of a text.
pub record Http (W : Type 0) : Type 0 where
  pub new_request : String → String → Option Error
  pub send : Request → Io W Response
  pub parse : String → Result Json

pub record RequestOptions : Type 0 where
  pub method : String

abbrev pub RequestOption : Type 0
RequestOption = RequestOptions → RequestOptions

unfoldable pub with_method : String → RequestOption
with_method method o = record o { method = method }

apply_all : List RequestOption → RequestOptions → RequestOptions
apply_all [] o = o
apply_all (opt ∷ opts) o = apply_all opts (opt o)

unfoldable pub request_to : Settings → String → List RequestOption → Request
unfolding trim_right apply_all
request_to settings path opts = record {
  method = (apply_all opts (record { method = "GET" })).method;
  url = trim_right (λ c. code c == b'/') settings.base_url <> path;
  authorization =
      if not (str_eq settings.api_key "") then some ("Bearer " <> settings.api_key) else none;
}

-- The last step of `doRequest`.
unfoldable pub judge : ApiResponse → Result ApiResponse
judge r = elim r.error [
  | none ↦ ok r
  | some e ↦ if not r.success then err (plain ("[" <> (e.code <> ("] " <> e.message)))) else ok r
]

judged : ℕ → String → Result ApiResponse → Result ApiResponse
unfolding judge
judged status body (ok r) = judge r
judged status body (err e) =
    err (wrap ("parsing response (status " <> (decimal status <> "): ")) e ("\n" <> body))

decode_response : Result Json → Result ApiResponse
unfolding unmarshal set_response
decode_response (ok v) = unmarshal "main.apiResponse" set_response no_response (some v)
decode_response (err e) = err e

module _ {W : Type 0} (http : Http W) (settings : Settings) where
  read_body : ℕ → Result String → Result ApiResponse
  unfolding judged decode_response
  read_body status (ok body) = judged status body (decode_response (http.parse body))
  read_body status (err e) = err (wrap "reading response: " e "")

  answered : String → Result Response → Result ApiResponse
  unfolding read_body
  answered url (ok r) = read_body r.status r.body
  answered url (err e) = err (wrap ("connecting to agent at " <> (url <> ": ")) e "")

  send_built : Request → Option Error → Io W ApiResponse
  unfolding answered
  send_built req none w = let (r, w') = http.send req w in (answered req.url r, w')
  send_built req (some e) w = (err (wrap "building request: " e ""), w)

  unfoldable pub do_request : String → List RequestOption → Io W ApiResponse
  unfolding send_built request_to
  do_request path opts =
      let req = request_to settings path opts in
      send_built req (http.new_request req.method req.url)
