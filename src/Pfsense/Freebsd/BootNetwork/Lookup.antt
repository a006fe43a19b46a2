-- ===== src/Pfsense/Freebsd/BootNetwork/Lookup.antt =====
-- The table `matchedByMAC` of internal/modules/pfsense/pfsense_freebsd.go gives each NIC its interface.
use mathlib.Core.Path.{subst}
use pfsense_agent.Base.{
  String, ◌≡◌, refl, sym, ◌∙◌, ◌⊎◌, inl, inr, Option, none, some, List, [], ◌∷◌, str_eq, eq_iff,
  if◌then◌else◌, Bool-cases, All,
}
use pfsense_agent.IsoConfig.{VirtualNetworkCard}
use pfsense_agent.Pfsense.NetMatch.{
  Interface, MatchedNic, MacTable, normalize_mac, find, match_nics_by_mac,
}
use pfsense_agent.Pfsense.NetMatch.Laws.{
  interface_of, last_with, matches_of, kept, match_nics_by_mac-eq,
}
use pfsense_agent.Pfsense.Freebsd.BootNetwork.{matched_by_mac}

module _ (ifaces : List Interface) where
  -- The interface of an address, as `interface_of` has it for a NIC.
  abbrev interface_at : String → Option String
  interface_at key = if str_eq key "" then none else last_with key ifaces

  at_card :
      (c : VirtualNetworkCard) → interface_at (normalize_mac c.mac_addr) ≡ interface_of ifaces c
  unfolding interface_of
  at_card c = refl

  abbrev added : VirtualNetworkCard → Option String → MacTable → MacTable
  added c none table = table
  added c (some name) table = (normalize_mac c.mac_addr, name) ∷ table

  matched_by_mac-kept :
      (c : VirtualNetworkCard) (o : Option String) (rest : List MatchedNic) (table : MacTable)
      → matched_by_mac (kept c o rest) table ≡ matched_by_mac rest (added c o table)
  unfolding matched_by_mac kept
  matched_by_mac-kept c none rest table = refl
  matched_by_mac-kept c (some name) rest table = refl

  -- A table has the right interface for an address, or none.
  abbrev IsRightAt : MacTable → String → Type 0
  IsRightAt table key = find key table ≡ interface_at key

  abbrev IsFine : MacTable → Type 0
  IsFine table = (key : String) → (find key table ≡ none) ⊎ IsRightAt table key

  added-IsRightAt :
      (c : VirtualNetworkCard) (o : Option String) (table : MacTable) (key : String)
      → interface_at (normalize_mac c.mac_addr) ≡ o
      → IsRightAt table key
      → IsRightAt (added c o table) key
  unfolding find
  added-IsRightAt c none table key e right = right
  added-IsRightAt c (some name) table key e right =
      elim (Bool-cases (str_eq key (normalize_mac c.mac_addr))) [
        | inl same ↦ rw (same, (eq_iff key (normalize_mac c.mac_addr)).0 same) (sym e)
        | inr other ↦ rw other right
      ]

  added-IsFine :
      (c : VirtualNetworkCard) (o : Option String) (table : MacTable)
      → interface_at (normalize_mac c.mac_addr) ≡ o
      → IsFine table
      → IsFine (added c o table)
  unfolding find
  added-IsFine c none table e fine key = fine key
  added-IsFine c (some name) table e fine key =
      elim (Bool-cases (str_eq key (normalize_mac c.mac_addr))) [
        | inl same ↦ inr (rw (same, (eq_iff key (normalize_mac c.mac_addr)).0 same) (sym e))
        | inr other ↦ rw other (fine key)
      ]

  added_finds :
      (c : VirtualNetworkCard) (o : Option String) (table : MacTable)
      → interface_at (normalize_mac c.mac_addr) ≡ o
      → IsFine table
      → IsRightAt (added c o table) (normalize_mac c.mac_addr)
  unfolding find
  added_finds c none table e fine = elim (fine (normalize_mac c.mac_addr)) [
    | inl missing ↦ missing ∙ sym e
    | inr right ↦ right
  ]
  added_finds c (some name) table e fine =
      rw ((eq_iff (normalize_mac c.mac_addr) (normalize_mac c.mac_addr)).1 refl) (sym e)

  matched-IsRightAt :
      (cards : List VirtualNetworkCard) (table : MacTable) (key : String)
      → IsRightAt table key
      → IsRightAt (matched_by_mac (matches_of ifaces cards) table) key
  unfolding matched_by_mac matches_of
  matched-IsRightAt [] table key right = right
  matched-IsRightAt (c ∷ cs) table key right =
      let o = interface_of ifaces c in
      rw (matched_by_mac-kept c o (matches_of ifaces cs) table) (
        matched-IsRightAt cs (added c o table) key
          (added-IsRightAt c o table key (at_card c) right))

  matched_finds :
      (cards : List VirtualNetworkCard) (table : MacTable)
      → IsFine table
      → All
          (λ c.
            IsRightAt (matched_by_mac (matches_of ifaces cards) table) (normalize_mac c.mac_addr))
          cards
  unfolding matched_by_mac matches_of
  matched_finds [] table fine = tt
  matched_finds (c ∷ cs) table fine =
      let o = interface_of ifaces c in
      subst (λ t. All (λ k. IsRightAt t (normalize_mac k.mac_addr)) (c ∷ cs))
        (sym (matched_by_mac-kept c o (matches_of ifaces cs) table))
        (
          matched-IsRightAt cs (added c o table) (normalize_mac c.mac_addr)
              (added_finds c o table (at_card c) fine),
          matched_finds cs (added c o table) (added-IsFine c o table (at_card c) fine),
        )

  -- Every NIC of the metadata is given the last local interface that has its address.
  pub table_finds :
      (cards : List VirtualNetworkCard)
      → All
          (λ c.
            find (normalize_mac c.mac_addr) (matched_by_mac (match_nics_by_mac cards ifaces) [])
            ≡ interface_of ifaces c)
          cards
  unfolding find interface_of
  table_finds cards =
      rw (match_nics_by_mac-eq cards ifaces) (matched_finds cards [] (λ key. inl refl))
