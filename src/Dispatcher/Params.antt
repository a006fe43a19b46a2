-- ===== src/Dispatcher/Params.antt =====
-- The parameter structs of internal/dispatcher/dispatcher.go, their decoding, and `emptyParams`.
use pfsense_agent.Base.{
  String, Bool, true, false, Option, none, some, List, [], if◌then◌else◌, Result,
}
use pfsense_agent.Base.Int.{ℤ, pos}
use pfsense_agent.Json.{
  Json, null, arr, obj, nil, end, Setter, unmarshal, string_field, int_field, strings_field,
  set_field, names_field,
}
use pfsense_agent.Pfsense.{FirewallRuleInput, PortForwardInput}

pub record Params : Type 0 where
  pub name : String
  pub command : String
  pub args : List String
  pub interval_s : ℤ
  pub username : String
  pub password : String

abbrev pub no_params : Params
no_params = record {
  name = "";
  command = "";
  args = [];
  interval_s = pos 0;
  username = "";
  password = "";
}

set_params : Setter Params
unfolding names_field string_field int_field strings_field
set_params key v p =
    if names_field key "name"
    then set_field (string_field "params" "name" v p.name) (λ s. record p { name = s })
    else if names_field key "command"
    then set_field (string_field "params" "command" v p.command) (λ s. record p { command = s })
    else if names_field key "args"
    then set_field (strings_field "params" "args" v p.args) (λ s. record p { args = s })
    else if names_field key "interval_s"
    then set_field (int_field "params" "interval_s" v p.interval_s)
        (λ n. record p { interval_s = n })
    else if names_field key "username"
    then set_field (string_field "params" "username" v p.username) (λ s. record p { username = s })
    else if names_field key "password"
    then set_field (string_field "params" "password" v p.password) (λ s. record p { password = s })
    else (p, none)

unfoldable pub decode_params : Option Json → Result Params
unfolding unmarshal set_params
decode_params raw = unmarshal "dispatcher.params" set_params no_params raw

set_tracker : Setter String
unfolding names_field string_field
set_tracker key v t =
    if names_field key "tracker"
    then set_field (string_field "trackerParams" "tracker" v t) (λ s. s)
    else (t, none)

unfoldable pub decode_tracker : Option Json → Result String
unfolding unmarshal set_tracker
decode_tracker raw = unmarshal "dispatcher.trackerParams" set_tracker "" raw

set_rule : Setter FirewallRuleInput
unfolding names_field string_field
set_rule key v r =
    let read = λ (name old : String). string_field "FirewallRuleInput" name v old in
    if names_field key "interface"
    then set_field (read "interface" r.interface) (λ s. record r { interface = s })
    else if names_field key "action"
    then set_field (read "action" r.action) (λ s. record r { action = s })
    else if names_field key "protocol"
    then set_field (read "protocol" r.protocol) (λ s. record r { protocol = s })
    else if names_field key "source"
    then set_field (read "source" r.source) (λ s. record r { source = s })
    else if names_field key "source_port"
    then set_field (read "source_port" r.source_port) (λ s. record r { source_port = s })
    else if names_field key "destination"
    then set_field (read "destination" r.destination) (λ s. record r { destination = s })
    else if names_field key "destination_port"
    then set_field (read "destination_port" r.dest_port) (λ s. record r { dest_port = s })
    else if names_field key "description"
    then set_field (read "description" r.description) (λ s. record r { description = s })
    else (r, none)

unfoldable pub decode_rule : Option Json → Result FirewallRuleInput
unfolding unmarshal set_rule
decode_rule raw =
    unmarshal "pfsense.FirewallRuleInput" set_rule
      (record {
        interface = "";
        action = "";
        protocol = "";
        source = "";
        source_port = "";
        destination = "";
        dest_port = "";
        description = "";
      })
      raw

set_forward : Setter PortForwardInput
unfolding names_field string_field
set_forward key v r =
    let read = λ (name old : String). string_field "PortForwardInput" name v old in
    if names_field key "interface"
    then set_field (read "interface" r.interface) (λ s. record r { interface = s })
    else if names_field key "protocol"
    then set_field (read "protocol" r.protocol) (λ s. record r { protocol = s })
    else if names_field key "source"
    then set_field (read "source" r.source) (λ s. record r { source = s })
    else if names_field key "source_port"
    then set_field (read "source_port" r.source_port) (λ s. record r { source_port = s })
    else if names_field key "destination"
    then set_field (read "destination" r.destination) (λ s. record r { destination = s })
    else if names_field key "destination_port"
    then set_field (read "destination_port" r.dest_port) (λ s. record r { dest_port = s })
    else if names_field key "target_ip"
    then set_field (read "target_ip" r.target_ip) (λ s. record r { target_ip = s })
    else if names_field key "target_port"
    then set_field (read "target_port" r.target_port) (λ s. record r { target_port = s })
    else if names_field key "description"
    then set_field (read "description" r.description) (λ s. record r { description = s })
    else (r, none)

unfoldable pub decode_forward : Option Json → Result PortForwardInput
unfolding unmarshal set_forward
decode_forward raw =
    unmarshal "pfsense.PortForwardInput" set_forward
      (record {
        interface = "";
        protocol = "";
        source = "";
        source_port = "";
        destination = "";
        dest_port = "";
        target_ip = "";
        target_port = "";
        description = "";
      })
      raw

-- `len(cmd.Params) > 0 && !emptyParams(cmd.Params)` is the negation of this test.
unfoldable pub empty_params : Option Json → Bool
empty_params none = true
empty_params (some null) = true
empty_params (some (arr nil)) = true
empty_params (some (obj end)) = true
empty_params (some _) = false
