-- ===== src/Control/Fetch/Laws.antt =====
-- What a fetch of cmd/ctl/main.go does to the world besides printing.
use pfsense_agent.Base.{
  String, List, Option, none, some, ◌≡◌, refl, str_eq, Bool-cases, inl, inr, Result, ok, err,
}
use pfsense_agent.Json.{Json}
use pfsense_agent.Control.Table.{Screen, print, print_error, print_json}
use pfsense_agent.Control.Client.{Settings, Http, RequestOption, ApiResponse, do_request}
use pfsense_agent.Control.Fetch.{
  Codec, Ended, Printer, done, shown, received, fetch_and_print, raw_payload, raw_received,
  fetch_raw_and_print,
}

module _ {W : Type 0} where
  abbrev pub Keeps : Option (Screen W) → W → Type 0
  Keeps none w = Unit
  Keeps (some s) w = s.world ≡ w

  -- A printer changes nothing but what is printed.
  abbrev pub IsOnlyPrinting : {T : Type 0} → Printer W T → Type 0
  IsOnlyPrinting {T} printer = (v : T) (s : Screen W) → Keeps (printer v s) s.world

  -- The world at the end of a run that was not stopped.
  abbrev pub EndsIn : Ended W → W → Type 0
  EndsIn none w = Unit
  EndsIn (some e) w = e.1.world ≡ w

  print_json-world : (t : Result String) (s : Screen W) → (print_json t s).world ≡ s.world
  unfolding print_json print print_error
  print_json-world (ok t) s = refl
  print_json-world (err e) s = refl

  module _ {T : Type 0} (codec : Codec T) (printer : Printer W T)
      (keeps : IsOnlyPrinting printer) where
    done-EndsIn : (o : Option (Screen W)) (w : W) → Keeps o w → EndsIn (done o) w
    unfolding done
    done-EndsIn none w h = h
    done-EndsIn (some s) w h = h

    shown-EndsIn :
        (fmt : String) (r : Result T) (s : Screen W) → EndsIn (shown codec printer fmt r s) s.world
    unfolding shown
    shown-EndsIn fmt (err e) s = refl
    shown-EndsIn fmt (ok v) s = elim (Bool-cases (str_eq fmt "json")) [
      | inl json ↦ rw json (print_json-world (codec.encode v) s)
      | inr table ↦ rw table (done-EndsIn (printer v s) s.world (keeps v s))
    ]

    received-EndsIn :
        (fmt : String) (r : Result ApiResponse) (s : Screen W)
        → EndsIn (received codec printer fmt r s) s.world
    unfolding received print_error print
    received-EndsIn fmt (err e) s = refl
    received-EndsIn fmt (ok r) s = shown-EndsIn fmt (codec.decode r.payload) s

    pub fetch_and_print-EndsIn :
        (http : Http W) (settings : Settings) (path : String) (opts : List RequestOption)
        (s : Screen W)
        → EndsIn
            (fetch_and_print codec printer http settings path opts s)
            (do_request http settings path opts s.world).1
    unfolding fetch_and_print
    fetch_and_print-EndsIn http settings path opts s = received-EndsIn settings.output_fmt _ _

  module _ (encode : Json → Result String) where
    raw_payload-world : (o : Option Json) (s : Screen W) → (raw_payload encode o s).world ≡ s.world
    unfolding raw_payload print
    raw_payload-world none s = refl
    raw_payload-world (some v) s = print_json-world (encode v) s

    raw_received-EndsIn :
        (r : Result ApiResponse) (s : Screen W) → EndsIn (some (raw_received encode r s)) s.world
    unfolding raw_received print_error print
    raw_received-EndsIn (err e) s = refl
    raw_received-EndsIn (ok r) s = raw_payload-world r.payload s

    pub fetch_raw_and_print-EndsIn :
        (http : Http W) (settings : Settings) (path : String) (opts : List RequestOption)
        (s : Screen W)
        → EndsIn
            (some (fetch_raw_and_print encode http settings path opts s))
            (do_request http settings path opts s.world).1
    unfolding fetch_raw_and_print
    fetch_raw_and_print-EndsIn http settings path opts s = raw_received-EndsIn _ _
