-- ===== src/DiskResize/Device.antt =====
-- `parseDevice` of internal/modules/diskresize/linux.go: its two patterns, `^(nvme\d+n\d+)p(\d+)$` and
-- `^([a-z]+)(\d+)$`, as the one way in which each can match.
pub mod Laws
use pfsense_agent.Base.{
  String, ◌<>◌, Bool, true, false, not, ◌&&◌, Option, none, some, Char, str_eq, is_lower, is_digit,
  after_prefix, if◌then◌else◌,
}

-- The longest front of characters that pass, and the rest.
unfoldable pub span : (Char → Bool) → String → String × String
span p String.[] = ("", "")
span p (String.◌∷◌ c s) =
    let rest = span p s in if p c then (String.◌∷◌ c rest.0, rest.1) else ("", String.◌∷◌ c s)

abbrev pub is_given : String → Bool
is_given s = not (str_eq s "")

-- `(\d+)$`
unfoldable pub is_number : String → Bool
unfolding span
is_number s = is_given s && str_eq (span is_digit s).1 ""

-- A base and its number.
pub record Partition : Type 0 where
  pub base : String
  pub number : String

numbered : String → String → Option Partition
unfolding is_number
numbered base number =
    if is_given base && is_number number
    then some (record { base = base; number = number })
    else none

traditional : String → Option Partition
unfolding numbered span
traditional name = let (base, number) = span is_lower name in numbered base number

-- Behind the namespace's digits: the `p` and the number.
behind_namespace : String → String → String → Option String → Option Partition
unfolding numbered
behind_namespace controller namespace rest none = none
behind_namespace controller namespace rest (some number) =
    if is_given controller && is_given namespace
    then numbered ("nvme" <> (controller <> ("n" <> namespace))) number
    else none

-- Behind the `n` that follows the controller's digits.
behind_controller : String → Option String → Option Partition
unfolding behind_namespace span
behind_controller controller none = none
behind_controller controller (some s) =
    let (namespace, rest) = span is_digit s in
    behind_namespace controller namespace rest (after_prefix rest "p")

behind_nvme : Option String → Option Partition
unfolding behind_controller span
behind_nvme none = none
behind_nvme (some s) =
    let (controller, rest) = span is_digit s in behind_controller controller (after_prefix rest "n")

or_traditional : String → Option Partition → Option Partition
unfolding traditional
or_traditional name (some found) = some found
or_traditional name none = traditional name

unfoldable pub parse_device : String → Option Partition
unfolding or_traditional behind_nvme
parse_device name = or_traditional name (behind_nvme (after_prefix name "nvme"))
