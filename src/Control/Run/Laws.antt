-- ===== src/Control/Run/Laws.antt =====
-- What the commands of cmd/ctl/main.go send, and the table of disks.
use pfsense_agent.Base.{
  join, ◌+◌, String, ◌<>◌, List, [], ◌∷◌, ◌++◌, none, some, ◌≡◌, refl, true, false, not, Bool,
  str_eq, trim_right, code, Char, ◌==◌, if◌then◌else◌, All, length, arith, inl, ◌⊎◌, length-map,
  Result, Unit0,
}
use pfsense_agent.System.{DiskEntry}
use pfsense_agent.Control.Table.{Screen, print, print_table, table, table_lines}
use pfsense_agent.Control.Client.{Settings, Http, Request, request_to, with_method, do_request}
use pfsense_agent.Control.Client.Laws.{IsSentOnce, do_request-IsSentOnce}
use pfsense_agent.Control.Fetch.{Codec, Ended, Printer, fetch_and_print, fetch_raw_and_print}
use pfsense_agent.Control.Fetch.Laws.{
  IsOnlyPrinting, EndsIn, fetch_and_print-EndsIn, fetch_raw_and_print-EndsIn,
}
use pfsense_agent.Control.Commands.{Texts}
use pfsense_agent.Control.Commands.Laws.{IsSized, disk_rows-length}
use pfsense_agent.Control.Run.{
  disk_headers, Command, service_action, agent_version, Codecs, path_of, options_of, print_info,
  print_services, print_service, shown_rows, print_result, print_cpu, print_memory, print_metrics,
  print_disks, print_network, run_command,
}
use pfsense_agent.Control.Run.Printers.{
  print_result-Keeps, print_cpu-Keeps, print_memory-Keeps, print_network-Keeps, print_disks-Keeps,
  print_metrics-Keeps,
}
use pfsense_agent.Control.Run.Command.{
  system_info, system_metrics, system_cpu, system_memory, system_disk, system_network, service_list,
  service_get, metadata_show, metadata_instance, metadata_network, agent_status,
}

-- The request that a command stands for: a `POST` for an action on a service and a `GET` otherwise, to
-- the base URL without its last slashes, with the API key if there is one.
method_of : Command → String
method_of (service_action action name) = "POST"
method_of _ = "GET"

pub expected : Settings → Command → Request
unfolding method_of
expected settings c = record {
  method = method_of c;
  url = trim_right (λ (c : Char). code c == b'/') settings.base_url <> path_of c;
  authorization = if str_eq settings.api_key "" then none else some ("Bearer " <> settings.api_key);
}

if_not : {A : Type 0} (b : Bool) (x y : A) → (if not b then x else y) ≡ (if b then y else x)
if_not true x y = refl
if_not false x y = refl

requested :
    (settings : Settings) (path : String) (c : Command)
    → (request_to settings path (options_of c)).method ≡ method_of c
unfolding request_to method_of with_method
requested settings path system_info = refl
requested settings path system_metrics = refl
requested settings path system_cpu = refl
requested settings path system_memory = refl
requested settings path system_disk = refl
requested settings path system_network = refl
requested settings path service_list = refl
requested settings path metadata_show = refl
requested settings path metadata_instance = refl
requested settings path metadata_network = refl
requested settings path agent_status = refl
requested settings path agent_version = refl
requested settings path (service_get name) = refl
requested settings path (service_action action name) = refl

request_to-expected :
    (settings : Settings) (c : Command)
    → request_to settings (path_of c) (options_of c) ≡ expected settings c
unfolding request_to expected
request_to-expected settings c =
    let method = requested settings (path_of c) c in
    let header = if_not (str_eq settings.api_key "") (some ("Bearer " <> settings.api_key)) none in
    rw (method, header) refl

module _ {W : Type 0} (version : String) (texts : Texts) (codecs : Codecs) (http : Http W)
    (settings : Settings) where
  -- A request of the command at most, in a run that is not stopped.
  SentBy : Command → Ended W → W → Type 0
  SentBy c none w = Unit
  SentBy c (some e) w = IsSentOnce http settings (expected settings c) w e.1.world

  sent :
      (c : Command) (e : Ended W) (w : W)
      → EndsIn e (do_request http settings (path_of c) (options_of c) w).1
      → SentBy c e w
  unfolding SentBy
  sent c none w h = tt
  sent c (some e) w h =
      rw (h, ← request_to-expected settings c)
        (do_request-IsSentOnce http settings (path_of c) (options_of c) w)

  fetched :
      {T : Type 0} (c : Command) (codec : Codec T) (printer : Printer W T)
      → IsOnlyPrinting printer
      → (s : Screen W)
      → SentBy c (fetch_and_print codec printer http settings (path_of c) (options_of c) s) s.world
  fetched c codec printer keeps s =
      sent c (fetch_and_print codec printer http settings (path_of c) (options_of c) s) s.world
        (fetch_and_print-EndsIn codec printer keeps http settings (path_of c) (options_of c) s)

  fetched_raw :
      (c : Command) (s : Screen W)
      → SentBy c
          (some (fetch_raw_and_print codecs.raw http settings (path_of c) (options_of c) s))
          s.world
  fetched_raw c s =
      sent c (some (fetch_raw_and_print codecs.raw http settings (path_of c) (options_of c) s))
        s.world (fetch_raw_and_print-EndsIn codecs.raw http settings (path_of c) (options_of c) s)

  run_command-SentBy :
      (c : Command) (s : Screen W)
      → SentBy c (run_command version texts codecs http settings c s) s.world
  unfolding run_command print print_table SentBy
  run_command-SentBy system_info s =
      fetched system_info codecs.info (print_info texts) (λ v s. refl) s
  run_command-SentBy system_metrics s =
      fetched system_metrics codecs.metrics (print_metrics texts) (print_metrics-Keeps texts) s
  run_command-SentBy system_cpu s =
      fetched system_cpu codecs.cpu (print_cpu texts) (print_cpu-Keeps texts) s
  run_command-SentBy system_memory s =
      fetched system_memory codecs.memory (print_memory texts) (print_memory-Keeps texts) s
  run_command-SentBy system_disk s =
      fetched system_disk codecs.disk (print_disks texts) (print_disks-Keeps texts) s
  run_command-SentBy system_network s =
      fetched system_network codecs.network (print_network texts) (print_network-Keeps texts) s
  run_command-SentBy service_list s =
      fetched service_list codecs.services print_services (λ v s. refl) s
  run_command-SentBy metadata_show s = fetched_raw metadata_show s
  run_command-SentBy metadata_instance s = fetched_raw metadata_instance s
  run_command-SentBy metadata_network s = fetched_raw metadata_network s
  run_command-SentBy agent_status s = fetched_raw agent_status s
  run_command-SentBy agent_version s = inl refl
  run_command-SentBy (service_get name) s =
      fetched (service_get name) codecs.service print_service (λ v s. refl) s
  run_command-SentBy (service_action action name) s =
      fetched (service_action action name) codecs.action print_result print_result-Keeps s

  -- A run of the tool that ends sends at most one request, and only the one that its command stands
  -- for: to the base URL without its last slashes, by `POST` for an action on a service and by `GET`
  -- otherwise, with an API key exactly if the settings have one. It changes nothing else but the output.
  pub run_command_sends :
      (c : Command) (s s' : Screen W) (r : Result Unit0)
      → run_command version texts codecs http settings c s ≡ some (r, s')
      → (s'.world ≡ s.world) ⊎ (s'.world ≡ (http.send (expected settings c) s.world).1)
  unfolding SentBy
  run_command_sends c s s' r e = rw e at (run_command-SentBy c s)

-- The table of disks is printed for every list of disks whose sizes a `uint64` holds: it has a line
-- for each disk below its two lines of headings, and nothing else is printed or changed.
pub print_disks_ends :
    {W : Type 0} (texts : Texts) (disks : List DiskEntry) (s : Screen W)
    → All IsSized disks
    → (lines : List String) × (print_disks texts disks s
        ≡ some (record s { printed = s.printed ++ table lines ∷ [] }))
      × (length lines ≡ length disks + 2)
unfolding print_disks shown_rows print_table print table_lines
print_disks_ends texts disks s sized =
    let (rows, found, long) = disk_rows-length texts disks sized in
    (table_lines disk_headers rows, rw found refl, omega (arith, long, length-map (join "\t") rows))
