-- ===== src/Metrics.antt =====
-- src/metrics/metrics.cpp, with a display and without a floating-point unit: the average latency of writes.
use passinglink.Common.{
  ℕ, ◌+◌, ◌-◌, ◌*◌, ◌/◌, ◌%◌, ◌^◌, Option, none, some, List, [], ◌∷◌, ◌++◌, ◌==◌, if◌then◌else◌,
}

-- `averager` and `input_tick`; `latencies` lists the calls of `display_update_latency`.
pub record Metrics : Type 0 where
  pub reports : ℕ
  pub average : Option ℕ
  pub input_tick : Option ℕ
  pub latencies : List ℕ

-- `moving_average<uint64_t, 2, 2048>::add`
unfoldable pub add : ℕ → Metrics → Metrics
add value m = record m {
  average = elim m.average [
    | none ↦ some value
    | some average ↦ some ((2046 * average + 2 * value) % 2 ^ 64 / 2048)
  ];
  reports = (m.reports + 1) % 2 ^ 32;
}

unfoldable pub metrics_reset : Metrics → Metrics
metrics_reset m = record m { reports = 0; average = none; input_tick = none }

-- `now` is `k_uptime_ticks()`.
unfoldable pub metrics_record_input_read : ℕ → Metrics → Metrics
metrics_record_input_read now m = elim m.input_tick [
  | none ↦ record m { input_tick = some (now % 2 ^ 32) }
  | some _ ↦ m
]

-- `us_per_tick` is `k_ticks_to_us_ceil32(1)`.
unfoldable pub metrics_record_usb_write : ℕ → ℕ → Metrics → Metrics
metrics_record_usb_write us_per_tick now m = elim m.input_tick [
  | none ↦ m
  | some tick ↦
      let n = add ((now + (2 ^ 32 - tick)) % 2 ^ 32) (record m { input_tick = none }) in
      if n.reports % 1024 == 0
      then (elim n.average [
        | none ↦ n
        | some average ↦ record n {
          latencies = n.latencies ++ (us_per_tick * average % 2 ^ 32) ∷ [];
        }
      ])
      else n
]
