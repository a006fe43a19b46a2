-- ===== src/Control/Fetch.antt =====
-- `fetchAndPrint` and `fetchRawAndPrint` of cmd/ctl/main.go: one request, and its answer printed.
pub mod Laws
use pfsense_agent.Base.{
  String, List, Option, none, some, str_eq, if◌then◌else◌, Result, ok, err, Error, wrap, message,
  Unit0,
}
use pfsense_agent.Json.{Json}
use pfsense_agent.Control.Table.{Screen, stdout, print, print_error, print_json}
use pfsense_agent.Control.Client.{Settings, Http, RequestOption, ApiResponse, do_request}

-- encoding/json at a type: `json.Unmarshal` of a raw message and the indented text of a value.
pub record Codec (T : Type 0) : Type 0 where
  pub decode : Option Json → Result T
  pub encode : T → Result String

-- How a run ends; `none` is one that an index out of its range stops.
abbrev pub Ended : Type 0 → Type 0
Ended W = Option (Result Unit0 × Screen W)

-- What prints a value as a table.
abbrev pub Printer : Type 0 → Type 0 → Type 0
Printer W T = T → Screen W → Option (Screen W)

module _ {W : Type 0} where
  done : Option (Screen W) → Ended W
  done none = none
  done (some s) = some (ok tt, s)

  module _ {T : Type 0} (codec : Codec T) (printer : Printer W T) where
    shown : String → Result T → Screen W → Ended W
    unfolding done print_json
    shown output_fmt (err e) s = some (err (wrap "parsing data: " e ""), s)
    shown output_fmt (ok v) s =
        if str_eq output_fmt "json"
        then some (ok tt, print_json (codec.encode v) s)
        else done (printer v s)

    received : String → Result ApiResponse → Screen W → Ended W
    unfolding shown print_error
    received output_fmt (err e) s = some (err e, print_error (message e) s)
    received output_fmt (ok r) s = shown output_fmt (codec.decode r.payload) s

    unfoldable pub fetch_and_print :
        Http W → Settings → String → List RequestOption → Screen W → Ended W
    unfolding received
    fetch_and_print http settings path opts s =
        let (r, w) = do_request http settings path opts s.world in
        received settings.output_fmt r (record s { world = w })

  module _ (encode : Json → Result String) where
    -- A payload that is there is JSON.
    raw_payload : Option Json → Screen W → Screen W
    unfolding print print_json
    raw_payload none s = print (stdout "\n") s
    raw_payload (some v) s = print_json (encode v) s

    raw_received : Result ApiResponse → Screen W → Result Unit0 × Screen W
    unfolding raw_payload print_error
    raw_received (err e) s = (err e, print_error (message e) s)
    raw_received (ok r) s = (ok tt, raw_payload r.payload s)

    unfoldable pub fetch_raw_and_print :
        Http W → Settings → String → List RequestOption → Screen W → Result Unit0 × Screen W
    unfolding raw_received
    fetch_raw_and_print http settings path opts s =
        let (r, w) = do_request http settings path opts s.world in
        raw_received r (record s { world = w })
