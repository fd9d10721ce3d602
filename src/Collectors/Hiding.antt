-- ===== src/Collectors/Hiding.antt =====
-- The default collectors (internal/collectors/collectors.go) and the hardware (MAC) addresses of network cards.
use truespec_agent.Prelude.{
  ◌≡◌, refl, ap, sym, ◌∙◌, false, Option, none, some, List, [], ◌∷◌, map, In, Result, arith,
}
use truespec_agent.Collectors.Measures.{Interface, NetInfo, networks, network_info}
use truespec_agent.Collectors.Registry.{
  Collector, system, cpu, memory, disk, processes, network, new_default_collectors, Machine,
  as_data, of_network, collect,
}

abbrev pub without_mac : Interface → Interface
without_mac i = record i { hardware_addr = "" }

abbrev pub without_macs_of : Option (List Interface) → Option (List Interface)
without_macs_of none = none
without_macs_of (some is) = some (map without_mac is)

-- The machine, had its network cards no hardware (MAC) addresses.
abbrev pub without_macs : {F : Type 0} → Machine F → Machine F
without_macs m = record m { interfaces = without_macs_of m.interfaces }

networks-without_mac :
    (is : List Interface) → networks false (map without_mac is) ≡ networks false is
unfolding networks
networks-without_mac [] = refl
networks-without_mac (i ∷ is) =
    ap
      (λ (ns : List NetInfo).
        (record { name = i.name; mtu = i.mtu; flags = i.flags; addresses = i.addrs; mac = none })
        ∷ ns)
      (networks-without_mac is)

network_info-without_macs_of :
    (o : Option (List Interface)) → network_info false (without_macs_of o) ≡ network_info false o
unfolding network_info
network_info-without_macs_of none = refl
network_info-without_macs_of (some is) = ap Result.ok (networks-without_mac is)

-- The collector does not report the addresses.
abbrev IsHiding : Collector → Type 0
IsHiding (network collect_mac) = collect_mac ≡ false
IsHiding _ = Unit

collect-without_macs :
    {F : Type 0} (c : Collector) (m : Machine F)
    → IsHiding c
    → collect c (without_macs m) ≡ collect c m
unfolding collect
collect-without_macs system m hides = refl
collect-without_macs cpu m hides = refl
collect-without_macs memory m hides = refl
collect-without_macs disk m hides = refl
collect-without_macs processes m hides = refl
collect-without_macs (network collect_mac) m hides =
    rw hides (ap (as_data of_network) (network_info-without_macs_of m.interfaces))

new_default_collectors-IsHiding : (c : Collector) → In c new_default_collectors → IsHiding c
unfolding new_default_collectors
new_default_collectors-IsHiding (network b) h = ground arith
new_default_collectors-IsHiding system h = tt
new_default_collectors-IsHiding cpu h = tt
new_default_collectors-IsHiding memory h = tt
new_default_collectors-IsHiding disk h = tt
new_default_collectors-IsHiding processes h = tt

-- What a default collector returns does not depend on the hardware (MAC) addresses of the network
-- cards: on two machines that are alike but for these, it returns the same.
pub collect_hides_macs :
    {F : Type 0} (c : Collector) (m m' : Machine F)
    → In c new_default_collectors
    → without_macs m ≡ without_macs m'
    → collect c m ≡ collect c m'
collect_hides_macs c m m' default alike =
    let hides = new_default_collectors-IsHiding c default in
    sym (collect-without_macs c m hides) ∙ ap (collect c) alike ∙ collect-without_macs c m' hides
