-- ===== src/Pfsense/NetMatch.antt =====
-- internal/modules/pfsense/netmatch.go: metadata NICs matched to local interfaces by MAC address.
pub mod Laws
use pfsense_agent.Base.{
  String, Bool, Option, none, some, List, [], ◌∷◌, ◌++◌, str_eq, if◌then◌else◌, to_lower,
  trim_space,
}
use pfsense_agent.IsoConfig.{VirtualNetworkCard}

-- `net.Interface`, with the text of its hardware address.
pub record Interface : Type 0 where
  pub name : String
  pub hardware_addr : String

pub record MatchedNic : Type 0 where
  pub card : VirtualNetworkCard
  pub if_name : String

unfoldable pub normalize_mac : String → String
unfolding to_lower trim_space
normalize_mac mac = to_lower (trim_space mac)

-- A `map[string]string`: the last write to a key counts.
abbrev pub MacTable : Type 0
MacTable = List (String × String)

unfoldable pub find : String → MacTable → Option String
find key [] = none
find key ((k, v) ∷ t) = if str_eq key k then some v else find key t

-- The first loop: each interface is put in front, where it hides an earlier one of the same address.
unfoldable pub by_mac : List Interface → MacTable → MacTable
by_mac [] table = table
by_mac (iface ∷ ifaces) table = by_mac ifaces (
    if str_eq (normalize_mac iface.hardware_addr) ""
    then table
    else (normalize_mac iface.hardware_addr, iface.name) ∷ table)

add_match : VirtualNetworkCard → Option String → List MatchedNic → List MatchedNic
add_match card none matched = matched
add_match card (some name) matched = matched ++ record { card = card; if_name = name } ∷ []

match_from : MacTable → List VirtualNetworkCard → List MatchedNic → List MatchedNic
unfolding add_match
match_from table [] matched = matched
match_from table (card ∷ cards) matched =
    match_from table cards (add_match card (find (normalize_mac card.mac_addr) table) matched)

unfoldable pub match_nics_by_mac : List VirtualNetworkCard → List Interface → List MatchedNic
unfolding match_from by_mac find
match_nics_by_mac cards ifaces = match_from (by_mac ifaces []) cards []
