-- ===== src/Pfsense/NetMatch/Laws.antt =====
-- The matches of internal/modules/pfsense/netmatch.go, against a description without a table.
use mathlib.Core.List.{Memᴰ, append-nil, append_assoc}
use pfsense_agent.Base.{
  All, String, ◌≡◌, refl, sym, ◌∙◌, ◌≢◌, inl, inr, Option, none, some, List, [], ◌∷◌, ◌++◌, arith,
  str_eq, eq_iff, if◌then◌else◌, Bool-cases, Option-cases,
}
use pfsense_agent.IsoConfig.{VirtualNetworkCard}
use pfsense_agent.Pfsense.NetMatch.{
  Interface, MatchedNic, MacTable, normalize_mac, find, by_mac, add_match, match_from,
  match_nics_by_mac,
}

-- The last interface with an address, said without a table: the answer of the rest of the list, or of
-- its first interface.
or_else : Option String → Option String → Option String
or_else none o = o
or_else (some n) o = some n

unfoldable pub last_with : String → List Interface → Option String
unfolding or_else
last_with mac [] = none
last_with mac (iface ∷ ifaces) =
    or_else (last_with mac ifaces)
      (if str_eq mac (normalize_mac iface.hardware_addr) then some iface.name else none)

find-by_mac :
    (mac : String) (ifaces : List Interface) (table : MacTable)
    → mac ≢ ""
    → find mac (by_mac ifaces table) ≡ or_else (last_with mac ifaces) (find mac table)
unfolding find by_mac last_with
find-by_mac mac [] table h = refl
find-by_mac mac (iface ∷ ifaces) table h =
    let key = normalize_mac iface.hardware_addr in
    ground (
      arith,
      find-by_mac mac ifaces table h,
      find-by_mac mac ifaces ((key, iface.name) ∷ table) h,
      eq_iff mac key,
      eq_iff key "",
    )

find-nil_key :
    (ifaces : List Interface) (table : MacTable)
    → find "" table ≡ none
    → find "" (by_mac ifaces table) ≡ none
unfolding find by_mac
find-nil_key [] table h = h
find-nil_key (iface ∷ ifaces) table h =
    let key = normalize_mac iface.hardware_addr in
    find-nil_key ifaces _ (ground (arith, eq_iff key "", eq_iff "" key))

-- The interface of a NIC: the last one that has its address, and none for a NIC without an address.
unfoldable pub interface_of : List Interface → VirtualNetworkCard → Option String
unfolding last_with
interface_of ifaces card =
    if str_eq (normalize_mac card.mac_addr) ""
    then none
    else last_with (normalize_mac card.mac_addr) ifaces

find-interface_of :
    (card : VirtualNetworkCard) (ifaces : List Interface)
    → find (normalize_mac card.mac_addr) (by_mac ifaces []) ≡ interface_of ifaces card
unfolding interface_of find or_else
find-interface_of card ifaces = elim (Bool-cases (str_eq (normalize_mac card.mac_addr) "")) [
  | inl absent ↦ rw (absent, (eq_iff _ _).0 absent) (find-nil_key ifaces [] refl)
  | inr present ↦ rw present (
      find-by_mac (normalize_mac card.mac_addr) ifaces []
        (λ e. ground (arith, eq_iff (normalize_mac card.mac_addr) ""))
      ∙ ground arith)
]

-- The NICs that have an interface, in their order, each with it.
unfoldable pub kept : VirtualNetworkCard → Option String → List MatchedNic → List MatchedNic
kept card none rest = rest
kept card (some name) rest = record { card = card; if_name = name } ∷ rest

unfoldable pub matches_of : List Interface → List VirtualNetworkCard → List MatchedNic
unfolding kept
matches_of ifaces [] = []
matches_of ifaces (card ∷ cards) = kept card (interface_of ifaces card) (matches_of ifaces cards)

add_match-append :
    (card : VirtualNetworkCard) (o : Option String) (matched rest : List MatchedNic)
    → add_match card o matched ++ rest ≡ matched ++ kept card o rest
unfolding add_match kept
add_match-append card none matched rest = refl
add_match-append card (some name) matched rest = append_assoc matched (_ ∷ []) rest

match_from-eq :
    (ifaces : List Interface) (cards : List VirtualNetworkCard) (matched : List MatchedNic)
    → match_from (by_mac ifaces []) cards matched ≡ matched ++ matches_of ifaces cards
unfolding match_from matches_of
match_from-eq ifaces [] matched = sym (append-nil matched)
match_from-eq ifaces (card ∷ cards) matched =
    match_from-eq ifaces cards _
    ∙ rw find-interface_of
        (add_match-append card (interface_of ifaces card) matched (matches_of ifaces cards))

-- The matching keeps the NICs in their order and leaves out those without an interface. A NIC gets the
-- last interface whose address is the same up to case and white space around it, and a NIC or an
-- interface without an address matches nothing.
pub match_nics_by_mac-eq :
    (cards : List VirtualNetworkCard) (ifaces : List Interface)
    → match_nics_by_mac cards ifaces ≡ matches_of ifaces cards
unfolding match_nics_by_mac
match_nics_by_mac-eq cards ifaces = match_from-eq ifaces cards []

abbrev pub Sits : VirtualNetworkCard → String → Interface → Type 0
Sits card name iface =
    (iface.name ≡ name) × (normalize_mac iface.hardware_addr ≡ normalize_mac card.mac_addr)

last_with-mem :
    (card : VirtualNetworkCard) (ifaces : List Interface) (name : String)
    → last_with (normalize_mac card.mac_addr) ifaces ≡ some name
    → (iface : Interface) × Memᴰ iface ifaces × Sits card name iface
unfolding last_with or_else
last_with-mem card [] name h = cc
last_with-mem card (iface ∷ ifaces) name h =
    elim (Option-cases (last_with (normalize_mac card.mac_addr) ifaces)) [
      | inr (later, e) ↦
          let (found, m, sits) = last_with-mem card ifaces name (ground arith) in
          (found, Memᴰ.tail m, sits)
      | inl e ↦ (
        iface,
        Memᴰ.head refl,
        ground (arith, eq_iff (normalize_mac card.mac_addr) (normalize_mac iface.hardware_addr)),
      )
    ]

interface_of-mem :
    (ifaces : List Interface) (card : VirtualNetworkCard) (name : String)
    → interface_of ifaces card ≡ some name
    → (iface : Interface) × Memᴰ iface ifaces × Sits card name iface
unfolding interface_of
interface_of-mem ifaces card name h = last_with-mem card ifaces name (ground arith)

-- A match whose interface is one of the local ones, and has the NIC's address.
abbrev pub IsLocal : List Interface → MatchedNic → Type 0
IsLocal ifaces mn = (iface : Interface) × Memᴰ iface ifaces × Sits mn.card mn.if_name iface

kept-IsLocal :
    (ifaces : List Interface) (card : VirtualNetworkCard) (o : Option String)
    (rest : List MatchedNic)
    → interface_of ifaces card ≡ o
    → All (IsLocal ifaces) rest
    → All (IsLocal ifaces) (kept card o rest)
unfolding kept
kept-IsLocal ifaces card none rest e h = h
kept-IsLocal ifaces card (some name) rest e h = (interface_of-mem ifaces card name e, h)

matches_of-IsLocal :
    (ifaces : List Interface) (cards : List VirtualNetworkCard)
    → All (IsLocal ifaces) (matches_of ifaces cards)
unfolding matches_of
matches_of-IsLocal ifaces [] = tt
matches_of-IsLocal ifaces (card ∷ cards) =
    kept-IsLocal ifaces card _ (matches_of ifaces cards) refl (matches_of-IsLocal ifaces cards)

-- Every NIC that is matched is matched to a local interface that has the NIC's address, up to case and
-- white space around it.
pub match_nics_by_mac-IsLocal :
    (cards : List VirtualNetworkCard) (ifaces : List Interface)
    → All (IsLocal ifaces) (match_nics_by_mac cards ifaces)
match_nics_by_mac-IsLocal cards ifaces =
    rw (match_nics_by_mac-eq cards ifaces) (matches_of-IsLocal ifaces cards)
