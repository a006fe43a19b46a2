-- ===== src/Tests/Metrics.antt =====
-- Metrics of a machine with one disk: two readings, and what they give.
use pfsense_agent.Base.{
  ℕ, suc, ◌*◌, none, some, [], ◌∷◌, ok, err, plain, ◌≡◌, refl, trim_prefix, contains, after_prefix,
}
use pfsense_agent.System.{Float64}
use pfsense_agent.System.Disk
use pfsense_agent.System.Disk.{IoCounters, rate, get_disk, elapsed_since, io_of}
use pfsense_agent.System.Disk.Laws.{IsReading, get_disk-IsReading}
use pfsense_agent.System.Network
use pfsense_agent.System.Collect.{Host, new}
use pfsense_agent.System.Collect.Laws.{new-ReadsNumbers}
use pfsense_agent.Protocol.{all_finite, is_finite}
use pfsense_agent.Dispatcher.Run.Marshals.{ReadsNumbers}

abbrev half : Float64
half = record { num = 50; den = 1 }

abbrev counted : ℕ → IoCounters
counted n = record { read_bytes = n; write_bytes = n; read_count = n; write_count = n; io_time = n }

-- The world is the number of the clock's ticks.
abbrev disk_host : Disk.Host ℕ
disk_host = record {
  partitions =
      λ n. (ok (record { device = "/dev/vda1"; mountpoint = "/"; fstype = "ext4" } ∷ []), n);
  now = λ n. (n * 1000000000, suc n);
  io_counters = λ n. (some (("vda1", counted (n * 100)) ∷ []), n);
  usage = λ path n. (ok (record { total = 1000; used = 500; used_percent = half }), n);
}

abbrev before : Disk.Module ℕ
before = record {
  prev_io = some (("vda1", counted 100) ∷ []);
  prev_io_at = some 1000000000;
  world = 3;
}

get_disk-IsReading_example : IsReading disk_host before (get_disk disk_host before)
get_disk-IsReading_example = get_disk-IsReading disk_host before

read_at_three :
    (get_disk disk_host before).0
    ≡ ok (
        record {
          device = "/dev/vda1";
          mountpoint = "/";
          total_bytes = 1000;
          used_bytes = 500;
          usage_pct = half;
          io = some (record {
            read_bytes_per_s = record { num = 300000000000; den = 2000000000 };
            write_bytes_per_s = record { num = 300000000000; den = 2000000000 };
            read_iops = record { num = 300000000000; den = 2000000000 };
            write_iops = record { num = 300000000000; den = 2000000000 };
            util_pct = record { num = 30000000000; den = 2000000000 };
          });
        }
        ∷ [])
unfolding get_disk contains trim_prefix after_prefix
read_at_three = refl

abbrev network_host : Network.Host ℕ
network_host = record { io_counters = λ s. (ok [], s); interfaces = λ s. (ok [], s) }

abbrev machine : Host ℕ
machine = record {
  info = λ s. (err (plain "no host information"), s);
  percent = λ ms cores s. (ok (half ∷ []), s);
  counts = λ logical s. (ok 1, s);
  load_avg = λ s. (ok (record { load1 = half; load5 = half; load15 = half }), s);
  virtual_memory = λ s. (ok (record { total = 1000; used = 500; used_percent = half }), s);
  disk = disk_host;
  network = network_host;
}

new-ReadsNumbers_example : ReadsNumbers (new machine none) before
unfolding all_finite is_finite
new-ReadsNumbers_example =
    new-ReadsNumbers machine (λ ms cores s. refl) (λ s. (refl, refl, refl)) (λ s. refl)
      (λ path s. refl) none before
