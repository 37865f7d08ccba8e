-- ===== src/Types/Metrics.antt =====
-- The stale-rate metrics that a network publishes (src/types.rs, src/config.rs).
use reorg_playground.Prelude.{ℕ, Bool, false, Option, none, some, List, map}

-- `f64`, which is not modelled: a type with its zero and the quotient of two counts.
pub record Float (F : Type 0) : Type 0 where
  pub zero_rate : F
  -- `a as f64 / b as f64`
  pub rate_of : ℕ → ℕ → F

-- `StaleRateRange` of the configuration and `StaleBlockRateRangeJson`, with the same two cases
pub data StaleRateRange : Type 0 where
  rolling : ℕ → StaleRateRange
  all_time : StaleRateRange

pub data StaleBlockRateRangeJson : Type 0 where
  rolling : ℕ → StaleBlockRateRangeJson
  all_time : StaleBlockRateRangeJson

-- `From<&StaleRateRange>`
unfoldable pub range_json : StaleRateRange → StaleBlockRateRangeJson
range_json (StaleRateRange.rolling blocks) = StaleBlockRateRangeJson.rolling blocks
range_json StaleRateRange.all_time = StaleBlockRateRangeJson.all_time

pub data MetricUnavailableReason : Type 0 where
  no_reachable_active_tip no_reachable_stale_tip_support : MetricUnavailableReason
  tip_not_in_tree insufficient_history incomplete_observed_history : MetricUnavailableReason

pub record StaleBlockRateWindowJson (F : Type 0) : Type 0 where
  pub range : StaleBlockRateRangeJson
  pub stale_blocks : ℕ
  pub active_blocks : ℕ
  pub rate : F
  pub available : Bool
  pub reason : Option MetricUnavailableReason

pub record StaleBlockRateJson (F : Type 0) : Type 0 where
  pub as_of_height : Option ℕ
  pub windows : List (StaleBlockRateWindowJson F)

pub record NetworkMetricsJson (F : Type 0) : Type 0 where
  pub stale_block_rate : StaleBlockRateJson F

module _ {F : Type 0} ⦃float : Float F⦄ where
  -- `StaleBlockRateWindowJson::unavailable`
  unfoldable pub window_unavailable :
      StaleBlockRateRangeJson → MetricUnavailableReason → StaleBlockRateWindowJson F
  window_unavailable range reason = record {
    range = range;
    stale_blocks = 0;
    active_blocks = 0;
    rate = float.zero_rate;
    available = false;
    reason = some reason;
  }

  -- `NetworkMetricsJson::unavailable`
  unfoldable pub metrics_unavailable :
      List StaleRateRange → MetricUnavailableReason → NetworkMetricsJson F
  metrics_unavailable stale_rate_ranges reason = record {
    stale_block_rate = record {
      as_of_height = none;
      windows = map (λ range. window_unavailable (range_json range) reason) stale_rate_ranges;
    };
  }
