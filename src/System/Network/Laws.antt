-- ===== src/System/Network/Laws.antt =====
-- Which interfaces internal/modules/system/system.go reports, and as what.
use mathlib.Core.List.{append-nil, append_assoc}
use pfsense_agent.Base.{
  String, ◌≡◌, refl, sym, ◌∙◌, Option, none, some, List, [], ◌∷◌, ◌++◌, ok, str_eq, if◌then◌else◌,
  Bool-cases, inl, inr, arith,
}
use pfsense_agent.System.{NetworkEntry}
use pfsense_agent.System.Network.{
  Counters, Interface, Host, is_virtual_interface, by_name, find_flags, is_up, entry_of,
  entries_from, with_interfaces, with_counters, get_network,
}

-- The flags of the last interface of a name, said without a map.
or_else : Option (List String) → Option (List String) → Option (List String)
or_else none o = o
or_else (some f) o = some f

last_flags : String → List Interface → Option (List String)
last_flags name [] = none
last_flags name (i ∷ is) =
    or_else (last_flags name is) (if str_eq name i.name then some i.flags else none)

find_flags-by_name :
    (name : String) (is table : List Interface)
    → find_flags name (by_name is table) ≡ or_else (last_flags name is) (find_flags name table)
unfolding find_flags by_name last_flags or_else
find_flags-by_name name [] table = refl
find_flags-by_name name (i ∷ is) table = ground (arith, find_flags-by_name name is (i ∷ table))

-- An entry that is up if the last interface of its name has the flag.
described : List Interface → Counters → NetworkEntry
described ifaces c = record {
  interface = c.name;
  bytes_sent = c.bytes_sent;
  bytes_recv = c.bytes_recv;
  is_up = is_up (last_flags c.name ifaces);
}

-- An entry for each counter that is not of a virtual interface, in their order.
pub reported : List Interface → List Counters → List NetworkEntry
reported ifaces [] = []
reported ifaces (c ∷ cs) =
    if is_virtual_interface c.name
    then reported ifaces cs
    else described ifaces c ∷ reported ifaces cs

found_flags :
    (name : String) (ifaces : List Interface)
    → find_flags name (by_name ifaces []) ≡ last_flags name ifaces
unfolding find_flags or_else
found_flags name ifaces = find_flags-by_name name ifaces [] ∙ ground arith

entry_of-described :
    (ifaces : List Interface) (c : Counters) → entry_of (by_name ifaces []) c ≡ described ifaces c
unfolding entry_of described
entry_of-described ifaces c = rw (found_flags c.name ifaces) refl

entries_from-reported :
    (ifaces : List Interface) (cs : List Counters) (entries : List NetworkEntry)
    → entries_from (by_name ifaces []) cs entries ≡ entries ++ reported ifaces cs
unfolding entries_from reported
entries_from-reported ifaces [] entries = sym (append-nil entries)
entries_from-reported ifaces (c ∷ cs) entries = elim (Bool-cases (is_virtual_interface c.name)) [
  | inl virtual ↦ rw virtual (entries_from-reported ifaces cs entries)
  | inr physical ↦
      rw (physical, entry_of-described ifaces c)
        (entries_from-reported ifaces cs (entries ++ described ifaces c ∷ [])
          ∙ append_assoc entries (described ifaces c ∷ []) (reported ifaces cs))
]

-- If both readings succeed, the report has one entry for each counter that is not of a virtual
-- interface, in their order, which is up exactly if the last interface of that name has the flag `up`.
pub get_network_lem :
    {S : Type 0} (host : Host S) (s t u : S) (counters : List Counters) (ifaces : List Interface)
    → host.io_counters s ≡ (ok counters, t)
    → host.interfaces t ≡ (ok ifaces, u)
    → get_network host s ≡ (ok (reported ifaces counters), u)
unfolding get_network with_counters with_interfaces
get_network_lem host s t u counters ifaces counted listed =
    rw (counted, listed, entries_from-reported ifaces counters []) refl
