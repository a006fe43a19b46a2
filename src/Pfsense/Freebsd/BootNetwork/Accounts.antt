-- ===== src/Pfsense/Freebsd/BootNetwork/Accounts.antt =====
-- What becomes of each NIC in `ApplyBootNetworkConfig` of internal/modules/pfsense/pfsense_freebsd.go, said
-- without its table and its two lists.
use pfsense_agent.Base.{
  String, ◌≡◌, refl, sym, ap, ◌∙◌, ◌≢◌, ◌⊎◌, inl, inr, false, Option, none, some, List, [], ◌∷◌,
  ◌++◌, arith, str_eq, eq_iff, Bool-cases, All,
}
use mathlib.Core.List.{append-nil, append_assoc}
use pfsense_agent.IsoConfig.{VirtualNetworkCard, IpEntry}
use pfsense_agent.Pfsense.{InterfaceApplyResult}
use pfsense_agent.Pfsense.NetMatch.{Interface, MacTable, normalize_mac, find, match_nics_by_mac}
use pfsense_agent.Pfsense.NetMatch.Laws.{interface_of}
use pfsense_agent.Pfsense.Freebsd.{PlanEntry}
use pfsense_agent.Pfsense.Freebsd.BootNetwork.{
  matched_by_mac, entry_for, Planned, plan_found, plan_card, plan_cards, plan_for,
}
use pfsense_agent.Pfsense.Freebsd.BootNetwork.Bare.{
  IsBareOf, IsBareRouter, AreBareOf, strip_cidr_suffix-IsBareOf, bare_gateway-IsBareRouter,
  map-AreBareOf,
}
use pfsense_agent.Pfsense.Freebsd.BootNetwork.Lookup.{table_finds}

abbrev pub not_applied : String → String → String → InterfaceApplyResult
not_applied mac_addr if_name message = record {
  mac_addr = mac_addr;
  if_name = if_name;
  logical = "";
  applied = false;
  assigned = false;
  message = message;
}

module _ (ifaces : List Interface) where
  -- Why a NIC is left out, with the report of it.
  pub data IsSkipped (c : VirtualNetworkCard) : InterfaceApplyResult → Type 0 where
    absent :
        interface_of ifaces c ≡ none
        → IsSkipped c (not_applied c.mac_addr "" "no local network interface with this MAC address")
    unaddressed :
        (name : String)
        → interface_of ifaces c ≡ some name
        → (c.ip_list ≡ []) ⊎ (c.network.subnet ≡ "")
        → IsSkipped c (not_applied c.mac_addr name "no static IP/subnet in metadata for this NIC")

  -- The entry of a NIC: its interface, and its first address with the settings of its network.
  pub record IsPlanned (c : VirtualNetworkCard) (e : PlanEntry) : Type 0 where
    pub found : interface_of ifaces c ≡ some e.if_name
    pub address :
        (ip : IpEntry) × (more : List IpEntry) × (c.ip_list ≡ ip ∷ more)
        × IsBareOf ip.ip_addr e.ip_addr
    pub mask : e.subnet ≡ c.network.subnet
    pub masked : e.subnet ≢ ""
    pub router : IsBareRouter c.network.gateway e.gateway
    pub servers : AreBareOf c.network.dns_nameservers e.dns
    pub mtu : e.mtu ≡ c.network.mtu

  -- The NICs, one after the other, with the reports and the entries in the same order.
  pub data Accounts
      : List VirtualNetworkCard → List InterfaceApplyResult → List PlanEntry → Type 0 where
    nothing : Accounts [] [] []
    skipped :
        {cs : List VirtualNetworkCard} {rs : List InterfaceApplyResult} {es : List PlanEntry}
        (c : VirtualNetworkCard) (r : InterfaceApplyResult)
        → IsSkipped c r
        → Accounts cs rs es
        → Accounts (c ∷ cs) (r ∷ rs) es
    planned :
        {cs : List VirtualNetworkCard} {rs : List InterfaceApplyResult} {es : List PlanEntry}
        (c : VirtualNetworkCard) (e : PlanEntry)
        → IsPlanned c e
        → Accounts cs rs es
        → Accounts (c ∷ cs) rs (e ∷ es)

module _ (ifaces : List Interface) where
  entry_for-IsPlanned :
      (c : VirtualNetworkCard) (name : String) (ip : IpEntry) (more : List IpEntry)
      → interface_of ifaces c ≡ some name
      → c.ip_list ≡ ip ∷ more
      → str_eq c.network.subnet "" ≡ false
      → IsPlanned ifaces c (entry_for c name ip)
  unfolding entry_for
  entry_for-IsPlanned c name ip more found listed set = record {
    found = found;
    address = (ip, more, listed, strip_cidr_suffix-IsBareOf ip.ip_addr);
    mask = refl;
    masked = λ e. ground (arith, eq_iff c.network.subnet "");
    router = bare_gateway-IsBareRouter c.network.gateway;
    servers = map-AreBareOf c.network.dns_nameservers;
    mtu = refl;
  }

  -- What a NIC adds to the two lists.
  abbrev Adds : VirtualNetworkCard → Planned → Planned → Type 0
  Adds c p q =
      ((r : InterfaceApplyResult) × IsSkipped ifaces c r
        × (q.results ≡ p.results ++ r ∷ [])
        × (q.plan ≡ p.plan))
      ⊎ ((e : PlanEntry) × IsPlanned ifaces c e
          × (q.results ≡ p.results)
          × (q.plan ≡ p.plan ++ e ∷ []))

  plan_found-Adds :
      (c : VirtualNetworkCard) (name : String) (ips : List IpEntry) (p : Planned)
      → interface_of ifaces c ≡ some name
      → c.ip_list ≡ ips
      → Adds c p (plan_found c name ips p)
  unfolding plan_found
  plan_found-Adds c name [] p found listed =
      inl (_, unaddressed name found (inl listed), refl, refl)
  plan_found-Adds c name (ip ∷ more) p found listed =
      elim (Bool-cases (str_eq c.network.subnet "")) [
        | inl unset ↦ rw unset (
            inl
              (_, unaddressed name found (inr ((eq_iff c.network.subnet "").0 unset)), refl, refl))
        | inr set ↦
            rw set (inr (_, entry_for-IsPlanned c name ip more found listed set, refl, refl))
      ]

  plan_card-Adds :
      (c : VirtualNetworkCard) (o : Option String) (p : Planned)
      → interface_of ifaces c ≡ o
      → Adds c p (plan_card c o p)
  unfolding plan_card
  plan_card-Adds c none p found = inl (_, absent found, refl, refl)
  plan_card-Adds c (some name) p found = plan_found-Adds c name c.ip_list p found refl

  -- A state of the loop after the NICs, from the one before them.
  abbrev AccountsFrom : List VirtualNetworkCard → Planned → Planned → Type 0
  AccountsFrom cards p q =
      (rs : List InterfaceApplyResult) × (es : List PlanEntry) × (q.results ≡ p.results ++ rs)
      × (q.plan ≡ p.plan ++ es)
      × Accounts ifaces cards rs es

  extend :
      (c : VirtualNetworkCard) (cs : List VirtualNetworkCard) (p q r : Planned)
      → Adds c p q
      → AccountsFrom cs q r
      → AccountsFrom (c ∷ cs) p r
  extend c cs p q r (inl (x, left_out, reported, same)) (rs, es, results, plan, rest) = (
    x ∷ rs,
    es,
    results ∙ (ap (λ l. l ++ rs) reported ∙ append_assoc p.results (x ∷ []) rs),
    plan ∙ ap (λ l. l ++ es) same,
    skipped c x left_out rest,
  )
  extend c cs p q r (inr (e, taken, same, entered)) (rs, es, results, plan, rest) = (
    rs,
    e ∷ es,
    results ∙ ap (λ l. l ++ rs) same,
    plan ∙ (ap (λ l. l ++ es) entered ∙ append_assoc p.plan (e ∷ []) es),
    planned c e taken rest,
  )

  plan_cards-AccountsFrom :
      (table : MacTable) (cards : List VirtualNetworkCard) (p : Planned)
      → All (λ c. find (normalize_mac c.mac_addr) table ≡ interface_of ifaces c) cards
      → AccountsFrom cards p (plan_cards table cards p)
  unfolding plan_cards
  plan_cards-AccountsFrom table [] p h =
      ([], [], sym (append-nil p.results), sym (append-nil p.plan), nothing)
  plan_cards-AccountsFrom table (c ∷ cs) p h =
      let o = find (normalize_mac c.mac_addr) table in
      extend c cs p (plan_card c o p) (plan_cards table cs (plan_card c o p))
        (plan_card-Adds c o p (sym h.0)) (plan_cards-AccountsFrom table cs (plan_card c o p) h.1)

  -- Each NIC of the metadata is either left out, with one report that has its address and says why, or is
  -- planned, with one entry; both lists are in the order of the NICs. A NIC is left out exactly if
  -- it has no local interface, no address or no subnet, and its entry has the last local
  -- interface with its address, and its first IP address, gateway and name servers, each
  -- cut before the first slash, beside its subnet and MTU.
  pub plan_for-Accounts :
      (cards : List VirtualNetworkCard)
      → Accounts ifaces cards (plan_for cards ifaces).results (plan_for cards ifaces).plan
  unfolding plan_for
  plan_for-Accounts cards =
      let table = matched_by_mac (match_nics_by_mac cards ifaces) [] in
      let start : Planned = record { results = []; plan = [] } in
      let (rs, es, results, plan, rest) =
        plan_cards-AccountsFrom table cards start (table_finds ifaces cards) in
      rw (results, plan) rest
