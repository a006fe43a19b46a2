-- ===== src/Control/Run/Printers.antt =====
-- What prints the tables of cmd/ctl/main.go changes nothing else.
use pfsense_agent.Base.{String, List, Option, none, some, refl, Bool-cases, inl, inr}
use pfsense_agent.System.{MemoryStats}
use pfsense_agent.Control.Table.{Screen, print, print_table, print_success, print_error}
use pfsense_agent.Control.Fetch.Laws.{Keeps, IsOnlyPrinting}
use pfsense_agent.Control.Commands.{Texts, disk_rows, cpu_rows, memory_rows, network_rows}
use pfsense_agent.Control.Run.{
  fields, disk_headers, network_headers, shown_rows, and_then, print_result, print_cpu,
  print_memory, print_metrics, print_disks, print_network,
}

module _ {W : Type 0} where
  shown_rows-Keeps :
      (headers : List String) (rows : Option (List (List String))) (s : Screen W)
      → Keeps (shown_rows headers rows s) s.world
  unfolding shown_rows print_table print
  shown_rows-Keeps headers none s = tt
  shown_rows-Keeps headers (some rows) s = refl

  pub print_result-Keeps : IsOnlyPrinting {W = W} print_result
  unfolding print_result print_success print_error print
  print_result-Keeps v s = elim (Bool-cases v.success) [ inl e ↦ rw e refl | inr e ↦ rw e refl ]

  module _ (texts : Texts) where
    pub print_cpu-Keeps : IsOnlyPrinting {W = W} (print_cpu texts)
    unfolding print_cpu
    print_cpu-Keeps v s = shown_rows-Keeps fields (cpu_rows texts v) s

    pub print_memory-Keeps : IsOnlyPrinting {W = W} (print_memory texts)
    unfolding print_memory
    print_memory-Keeps v s = shown_rows-Keeps fields (memory_rows texts v) s

    pub print_network-Keeps : IsOnlyPrinting {W = W} (print_network texts)
    unfolding print_network
    print_network-Keeps v s = shown_rows-Keeps network_headers (network_rows texts v) s

    pub print_disks-Keeps : IsOnlyPrinting {W = W} (print_disks texts)
    unfolding print_disks
    print_disks-Keeps v s = shown_rows-Keeps disk_headers (disk_rows texts v) s

    and_then-Keeps :
        (o : Option (Screen W)) (w : W) (v : MemoryStats)
        → Keeps o w
        → Keeps (and_then o (print_memory texts v)) w
    unfolding and_then
    and_then-Keeps none w v h = h
    and_then-Keeps (some s) w v h = rw (← h) (print_memory-Keeps v s)

    pub print_metrics-Keeps : IsOnlyPrinting {W = W} (print_metrics texts)
    unfolding print_metrics
    print_metrics-Keeps v s =
        and_then-Keeps (print_cpu texts v.cpu s) s.world v.memory (print_cpu-Keeps v.cpu s)
