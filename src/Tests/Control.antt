-- ===== src/Tests/Control.antt =====
-- The control tool on a small agent: sizes and times, a table, and requests that fail and succeed.
use pfsense_agent.Base.{
  ℕ, suc, ◌+◌, ◌*◌, ◌^◌, ◌≤◌, ◌<◌, String, ◌<>◌, Char, false, none, some, List, [], ◌∷◌, ◌≡◌, refl,
  ◌⊎◌, ◌↔◌, ok, err, Error, plain, wrap, arith, decimal,
}
use pfsense_agent.Json.{Json, obj, field, boolean, end}
use pfsense_agent.System.{DiskEntry}
use pfsense_agent.Services.{restart}
use pfsense_agent.Control.Format.{Scale, FloatText, char_at, scale_of, format_bytes}
use pfsense_agent.Control.Format.Laws.{format_bytes_ends}
use pfsense_agent.Control.Table.{Screen}
use pfsense_agent.Control.Client.{Settings, Http, ApiResponse, Response, request_to, do_request}
use pfsense_agent.Control.Client.Laws.{IsBody, do_request_ok_iff}
use pfsense_agent.Control.Commands.{Texts}
use pfsense_agent.Control.Fetch.{Codec, fetch_and_print}
use pfsense_agent.Control.Run.{Codecs, service_action, run_command}
use pfsense_agent.Control.Run.Laws.{expected, run_command_sends}

abbrev show_ratio : FloatText
show_ratio places x = decimal x.num <> ("/" <> decimal x.den)

format_bytes_ends_example :
    (t : Scale) × (unit : Char) × (format_bytes show_ratio 3221225472
      ≡ some
          (show_ratio 1 (record { num = 3221225472; den = t.div }) <> (" " <> String.◌∷◌ unit "B")))
    × (char_at "KMGTPE" t.exp ≡ some unit)
    × (t.div ≡ 1024 ^ suc t.exp)
    × (t.div ≤ 3221225472)
    × (3221225472 < 1024 * t.div)
format_bytes_ends_example = format_bytes_ends show_ratio 3221225472 (omega arith) (omega arith)

three_gib : format_bytes show_ratio 3221225472 ≡ some "3221225472/1073741824 GB"
unfolding format_bytes char_at scale_of decimal
three_gib = refl

abbrev rows : List (List String)
rows = ("vda1" ∷ "/" ∷ []) ∷ ("vdb1" ∷ "/data" ∷ []) ∷ []

-- An agent that counts the requests and denies a success without a reason.
abbrev denied : Json
denied = obj (field "success" (boolean false) end)

abbrev refusing : Http ℕ
refusing = record {
  new_request = λ method url. none;
  send = λ req n. (ok (record { status = 200; body = ok "denied" }), n + 1);
  parse = λ text. ok denied;
}

abbrev settings : Settings
settings = record { base_url = "http://localhost:8080/"; api_key = "k"; output_fmt = "json" }

abbrev no_data : ApiResponse
no_data = record { success = false; payload = none; error = none }

do_request_ok_iff_example : ((do_request refusing settings "/healthz" [] 0).0 ≡ ok no_data) ↔ (
    (refusing.new_request
        (request_to settings "/healthz" []).method
        (request_to settings "/healthz" []).url
      ≡ none)
    × (resp : Response) × ((refusing.send (request_to settings "/healthz" []) 0).0 ≡ ok resp)
    × IsBody refusing settings resp.body no_data)
do_request_ok_iff_example = do_request_ok_iff refusing settings "/healthz" [] 0 no_data

passed_on : (do_request refusing settings "/healthz" [] 0).0 ≡ ok no_data
unfolding do_request
passed_on = refl

abbrev texts : Texts
texts = record { show_float = show_ratio; show_time = λ t. "" }

abbrev undecoded : {T : Type 0} → Codec T
undecoded = record {
  decode = λ payload. err (plain "unexpected end of JSON input");
  encode = λ v. ok "";
}

abbrev codecs : Codecs
codecs = record {
  info = undecoded;
  metrics = undecoded;
  cpu = undecoded;
  memory = undecoded;
  disk = undecoded;
  network = undecoded;
  services = undecoded;
  service = undecoded;
  action = undecoded;
  raw = λ v. ok "";
}

abbrev blank : Screen ℕ
blank = record { printed = []; world = 0 }

abbrev asked : Screen ℕ
asked = record { printed = []; world = 1 }

abbrev not_parsed : Error
not_parsed = wrap "parsing data: " (plain "unexpected end of JSON input") ""

restarted :
    run_command "dev" texts codecs refusing settings (service_action restart "ssh") blank
    ≡ some (err not_parsed, asked)
unfolding run_command fetch_and_print do_request
restarted = refl

run_command_sends_example :
    (asked.world ≡ blank.world)
    ⊎ (asked.world ≡ (refusing.send (expected settings (service_action restart "ssh")) 0).1)
run_command_sends_example =
    run_command_sends "dev" texts codecs refusing settings (service_action restart "ssh") blank
      asked (err not_parsed) restarted

abbrev root_disk : DiskEntry
root_disk = record {
  device = "/dev/vda1";
  mountpoint = "/";
  total_bytes = 10737418240;
  used_bytes = 1000;
  usage_pct = record { num = 1; den = 10 };
  io = none;
}
