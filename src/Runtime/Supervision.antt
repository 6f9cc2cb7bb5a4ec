-- ===== src/Runtime/Supervision.antt =====
-- ver9/runtime/runtime_supervision_layer.py, runtime_metrics_layer.py and runtime_metrics.py: what
-- the runtime makes of its latencies. The mean is a parameter; of a snapshot the model has what
-- the supervision reads and writes, and time stamps are left out.
pub mod Latency
mod Tests
use crypto_trader_ver_9_alph.Prelude.{
  ℕ, zero, suc, ◌-◌, Bool, true, false, not, List, [], ◌∷◌, ◌++◌, String, length, drop,
  if◌then◌else◌,
}
use crypto_trader_ver_9_alph.Prelude.Float.{FloatOps, decimal, le, round, largest_of}

pub data SystemStatus : Type 0 where
  active : SystemStatus
  warning : SystemStatus
  halted : SystemStatus

pub record RuntimeSnapshot : Type 0 where
  pub runtime_id : String
  pub system_status : SystemStatus

pub record SupervisionState (F : Type 0) : Type 0 where
  pub runtime_id : String
  pub status : SystemStatus
  pub average_latency_ms : F
  pub escalation_level : ℕ
  pub coordination_active : Bool

pub record RuntimeSupervisionLayer (F : Type 0) : Type 0 where
  pub warning_latency_ms : F
  pub critical_latency_ms : F
  pub latency_history : List F

pub record RuntimeMetricSnapshot (F : Type 0) : Type 0 where
  pub latency_ms : F
  pub rolling_latency_ms : F
  pub sample_count : ℕ

pub record RuntimeMetricsLayer (F : Type 0) : Type 0 where
  pub rolling_window : ℕ
  pub samples : List F

pub record RuntimeMetrics (F : Type 0) : Type 0 where
  pub average_latency_ms : F
  pub peak_latency_ms : F
  pub event_count : ℕ
  pub classification : String

-- `xs[-n:]`, which is all of the list for 0
unfoldable pub last_n : {A : Type 0} → ℕ → List A → List A
last_n zero xs = xs
last_n (suc n) xs = drop (length xs - suc n) xs

abbrev pub is_halted : SystemStatus → Bool
is_halted active = false
is_halted warning = false
is_halted halted = true

module _ {F : Type 0} ⦃o : FloatOps F⦄ where
  -- the status and the escalation level of a rolling latency
  abbrev pub level_of : F → F → F → SystemStatus × ℕ
  level_of warning_latency critical_latency rolling =
      if le critical_latency rolling
      then (halted, 2)
      else if le warning_latency rolling
      then (warning, 1)
      else (active, 0)

module _ {F : Type 0} ⦃o : FloatOps F⦄ (mean : List F → F) where
  -- the layer and the snapshot after the call, and its result
  unfoldable pub supervise :
      RuntimeSupervisionLayer F
      → RuntimeSnapshot
      → F
      → RuntimeSupervisionLayer F × RuntimeSnapshot × SupervisionState F
  supervise layer snapshot latency =
      let history = layer.latency_history ++ latency ∷ [] in
      let rolling = mean (last_n 25 history) in
      let (status, level) = level_of layer.warning_latency_ms layer.critical_latency_ms rolling in
      (
        record layer { latency_history = history },
        record snapshot { system_status = status },
        record {
          runtime_id = snapshot.runtime_id;
          status = status;
          average_latency_ms = round rolling 4;
          escalation_level = level;
          coordination_active = not (is_halted status);
        },
      )

  unfoldable pub add_sample :
      RuntimeMetricsLayer F → F → RuntimeMetricsLayer F × RuntimeMetricSnapshot F
  add_sample layer latency =
      let samples = layer.samples ++ latency ∷ [] in
      (
        record layer { samples = samples },
        record {
          latency_ms = round latency 4;
          rolling_latency_ms = round (mean (last_n layer.rolling_window samples)) 4;
          sample_count = length samples;
        },
      )

  -- `RuntimeMetricsAnalyzer(elevated, severe).classify(latencies)`
  unfoldable pub classify : F → F → List F → RuntimeMetrics F
  classify elevated severe [] = record {
    average_latency_ms = decimal 0 1;
    peak_latency_ms = decimal 0 1;
    event_count = 0;
    classification = "idle";
  }
  classify elevated severe (x ∷ xs) =
      let average = mean (x ∷ xs) in
      record {
        average_latency_ms = round average 4;
        peak_latency_ms = round (largest_of x xs) 4;
        event_count = length (x ∷ xs);
        classification =
            if le severe average
            then "severe"
            else if le elevated average
            then "elevated"
            else "normal";
      }
