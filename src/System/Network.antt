-- ===== src/System/Network.antt =====
-- `GetNetwork` of internal/modules/system/system.go. The counters and the interfaces are read by
-- gopsutil, which is a parameter.
pub mod Laws
use pfsense_agent.Base.{
  ℕ, String, Bool, true, false, ◌||◌, Option, none, some, List, [], ◌∷◌, ◌++◌, Result, ok, err,
  Error, wrap, str_eq, has_prefix, contains, if◌then◌else◌, Io,
}
use pfsense_agent.System.{NetworkEntry}

-- `IOCountersStat` and `InterfaceStat` of gopsutil, as far as they are read.
pub record Counters : Type 0 where
  pub name : String
  pub bytes_sent : ℕ
  pub bytes_recv : ℕ

pub record Interface : Type 0 where
  pub name : String
  pub flags : List String

pub record Host (S : Type 0) : Type 0 where
  pub io_counters : Io S (List Counters)
  pub interfaces : Io S (List Interface)

unfoldable pub is_virtual_interface : String → Bool
unfolding has_prefix
is_virtual_interface name =
    str_eq name "lo"
    || (has_prefix name "docker"
        || (has_prefix name "veth"
            || (has_prefix name "br-" || (has_prefix name "virbr" || has_prefix name "vlan"))))

-- The map by name, where a later interface hides an earlier one.
by_name : List Interface → List Interface → List Interface
by_name [] table = table
by_name (i ∷ is) table = by_name is (i ∷ table)

find_flags : String → List Interface → Option (List String)
find_flags name [] = none
find_flags name (i ∷ is) =
    let rest = find_flags name is in if str_eq name i.name then some i.flags else rest

is_up : Option (List String) → Bool
unfolding contains
is_up none = false
is_up (some flags) = contains flags "up"

entry_of : List Interface → Counters → NetworkEntry
unfolding is_up find_flags
entry_of table c = record {
  interface = c.name;
  bytes_sent = c.bytes_sent;
  bytes_recv = c.bytes_recv;
  is_up = is_up (find_flags c.name table);
}

entries_from : List Interface → List Counters → List NetworkEntry → List NetworkEntry
unfolding entry_of is_virtual_interface
entries_from table [] entries = entries
entries_from table (c ∷ cs) entries =
    entries_from table cs
      (if is_virtual_interface c.name then entries else entries ++ entry_of table c ∷ [])

module _ {S : Type 0} where
  with_interfaces : List Counters → Result (List Interface) × S → Result (List NetworkEntry) × S
  unfolding entries_from by_name
  with_interfaces counters (err e, s) = (err (wrap "net.Interfaces: " e ""), s)
  with_interfaces counters (ok ifaces, s) = (ok (entries_from (by_name ifaces []) counters []), s)

  with_counters : Host S → Result (List Counters) × S → Result (List NetworkEntry) × S
  unfolding with_interfaces
  with_counters host (err e, s) = (err (wrap "net.IOCounters: " e ""), s)
  with_counters host (ok counters, s) = with_interfaces counters (host.interfaces s)

  unfoldable pub get_network : Host S → Io S (List NetworkEntry)
  unfolding with_counters
  get_network host s = with_counters host (host.io_counters s)
