-- ===== src/Report.antt =====
-- benchmark/report.py: the summaries of benchmark runs. The numbers are floats, whose arithmetic
-- is a parameter, and dicts with fixed keys are records. The output as markdown is left out, and
-- `batcher_stats`, which is passed on unread.
pub mod Guards
pub mod Matched
pub mod Totals
use probe_guided_inference.Base.{
  ℕ, suc, ◌+◌, ◌-◌, min, Bool, true, false, ◌&&◌, not, Option, none, some, List, [], ◌∷◌, map,
  index_error, zero_division_error, value_error, Result, ok, raise, or_raise, ◌>>=◌, ◌==◌, ltb,
  length, get_elem?, select, if◌then◌else◌,
}
use probe_guided_inference.Base.Dict
use probe_guided_inference.Base.Dict.{Dict}
use probe_guided_inference.Probe.{Label, convergent, divergent}
use probe_guided_inference.Scheduler.State.{
  RoutingStrategy, baseline, probe_terminate, probe_deprioritize,
}

-- `truncate` is `int`; `div` and `mean` are read only through `div_of` and `statistics_mean`, which
-- raise where Python does.
pub record Floats : Type 1 where
  pub Float : Type 0
  pub nan : Float
  pub of_nat : ℕ → Float
  pub add : Float → Float → Float
  pub sub : Float → Float → Float
  pub mul : Float → Float → Float
  pub div : Float → Float → Float
  pub lt : Float → Float → Bool
  pub is_zero : Float → Bool
  pub truncate : Float → ℕ
  pub mean : List Float → Float
  pub half : Float
  pub most : Float

pub record Record (F : Floats) : Type 0 where
  pub aime_idx : ℕ
  pub terminated_by_probe : Bool
  pub correct : Bool
  pub converged : Bool
  pub latency_s : Option F.Float
  pub routing_label : Option Label

pub record RunResult (F : Floats) : Type 0 where
  pub strategy : RoutingStrategy
  pub records : List (Record F)
  pub wall_clock_s : F.Float
  pub total_tokens_generated : ℕ

-- `all_results`: the result of each strategy that was run.
abbrev pub Results : Floats → Type 0
Results F = RoutingStrategy → Option (RunResult F)

pub record Summary (F : Floats) : Type 0 where
  pub strategy : RoutingStrategy
  pub n_requests : ℕ
  pub wall_clock_s : F.Float
  pub throughput_req_per_s : F.Float
  pub avg_tokens_per_request : F.Float
  pub accuracy_on_completed : F.Float
  pub n_completed : ℕ
  pub n_terminated : ℕ
  pub convergence_rate : F.Float
  pub latency_p50_s : F.Float
  pub latency_p95_s : F.Float

pub record FalseTerminations (F : Floats) : Type 0 where
  pub n_terminated : ℕ
  pub n_false_terminations : ℕ
  pub false_termination_rate : F.Float

pub record Breakdown (F : Floats) : Type 0 where
  pub convergent_p50_s : F.Float
  pub convergent_mean_s : F.Float
  pub divergent_p50_s : F.Float
  pub divergent_mean_s : F.Float
  pub n_convergent : ℕ
  pub n_divergent : ℕ
  pub baseline_convergent_p50_s : Option F.Float
  pub convergent_p50_improvement_pct : Option F.Float

abbrev pub has_label : Label → Option Label → Bool
has_label convergent (some convergent) = true
has_label divergent (some divergent) = true
has_label _ _ = false

module _ (F : Floats) where
  open F use {Float, nan, of_nat, add, sub, mul, div, lt, is_zero, truncate, mean, half, most}

  -- `x / y`
  abbrev pub div_of : Float → Float → Result Float
  div_of x y = if is_zero y then raise zero_division_error else ok (div x y)

  -- `statistics.mean`, whose error is a `ValueError`.
  abbrev pub statistics_mean : List Float → Result Float
  statistics_mean [] = raise value_error
  statistics_mean (x ∷ xs) = ok (mean (x ∷ xs))

  unfoldable pub mean_of : List Float → Result Float
  mean_of [] = ok nan
  mean_of (x ∷ xs) = statistics_mean (x ∷ xs)

  -- `sorted(values)`
  unfoldable pub insert_sorted : Float → List Float → List Float
  insert_sorted x [] = x ∷ []
  insert_sorted x (y ∷ ys) = if lt y x then y ∷ insert_sorted x ys else x ∷ y ∷ ys

  unfoldable pub sorted : List Float → List Float
  unfolding insert_sorted
  sorted [] = []
  sorted (x ∷ xs) = insert_sorted x (sorted xs)

  unfoldable pub percentile : List Float → Float → Result Float
  unfolding sorted
  percentile [] pct = ok nan
  percentile (x ∷ xs) pct = do
    let values = sorted (x ∷ xs)
    let k = mul (of_nat (length values - 1)) pct
    let f = truncate k
    let c = min (f + 1) (length values - 1)
    low ← or_raise index_error (get_elem? values f)
    high ← or_raise index_error (get_elem? values c)
    ok (if f == c then low else add low (mul (sub high low) (sub k (of_nat f))))

  -- The latencies that are not `None`.
  abbrev pub latencies : List (Record F) → List Float
  latencies [] = []
  latencies (r ∷ rs) = elim r.latency_s [ none ↦ latencies rs | some s ↦ s ∷ latencies rs ]

  unfoldable pub rate : ℕ → ℕ → Float → Result Float
  rate part whole otherwise =
      if ltb 0 whole then div_of (of_nat part) (of_nat whole) else ok otherwise

  unfoldable pub throughput : ℕ → Float → Result Float
  throughput n wall_clock_s =
      if lt (of_nat 0) wall_clock_s then div_of (of_nat n) wall_clock_s else ok (of_nat 0)

  unfoldable pub summarize_strategy : RunResult F → Result (Summary F)
  unfolding percentile rate throughput
  summarize_strategy result = do
    let n = length result.records
    let completed = select (λ (r : Record F). not r.terminated_by_probe) result.records
    let n_correct_completed = length (select (λ (r : Record F). r.correct) completed)
    let n_conv = length (select (λ (r : Record F). r.converged) result.records)
    throughput_req_per_s ← throughput n result.wall_clock_s
    avg_tokens_per_request ← rate result.total_tokens_generated n (of_nat 0)
    accuracy_on_completed ← rate n_correct_completed (length completed) nan
    convergence_rate ← rate n_conv n (of_nat 0)
    p50 ← percentile (latencies result.records) half
    p95 ← percentile (latencies result.records) most
    ok (record {
      strategy = result.strategy;
      n_requests = n;
      wall_clock_s = result.wall_clock_s;
      throughput_req_per_s = throughput_req_per_s;
      avg_tokens_per_request = avg_tokens_per_request;
      accuracy_on_completed = accuracy_on_completed;
      n_completed = length completed;
      n_terminated = n - length completed;
      convergence_rate = convergence_rate;
      latency_p50_s = p50;
      latency_p95_s = p95;
    })

  -- `{r["aime_idx"]: r for r in records}`
  unfoldable pub by_idx : List (Record F) → Dict (Record F) → Dict (Record F)
  by_idx [] d = d
  by_idx (r ∷ rs) d = by_idx rs (Dict.insert r.aime_idx r d)

  -- `baseline_by_idx.get(idx, {}).get("converged")`
  abbrev pub converged_at : Dict (Record F) → ℕ → Bool
  converged_at d idx = elim (Dict.get idx d) [ none ↦ false | some r ↦ r.converged ]

  abbrev pub false_terms : List (Record F) → List (Record F) → List (Record F)
  false_terms base terminated =
      select (λ (r : Record F). converged_at (by_idx base []) r.aime_idx) terminated

  unfoldable pub count_false : List (Record F) → List (Record F) → Result (FalseTerminations F)
  unfolding by_idx
  count_false base cut_records =
      let terminated = select (λ (r : Record F). r.terminated_by_probe) cut_records in
      elim terminated [
        | [] ↦
            ok (record { n_terminated = 0; n_false_terminations = 0; false_termination_rate = nan })
        | r ∷ rs ↦
            div_of (of_nat (length (false_terms base (r ∷ rs)))) (of_nat (length (r ∷ rs))) >>= λ x.
            ok (record {
              n_terminated = length (r ∷ rs);
              n_false_terminations = length (false_terms base (r ∷ rs));
              false_termination_rate = x;
            })
      ]

  -- `None` if one of the two strategies was not run.
  abbrev pub both_run :
      Option (RunResult F) → Option (RunResult F) → Result (Option (FalseTerminations F))
  both_run (some base) (some cut) = count_false base.records cut.records >>= λ t. ok (some t)
  both_run _ _ = ok none

  unfoldable pub false_termination_rate : Results F → Result (Option (FalseTerminations F))
  unfolding count_false
  false_termination_rate all_results = both_run (all_results baseline) (all_results probe_terminate)

  -- A latency that is neither `None` nor zero.
  abbrev pub truthy : Option Float → Option Float
  truthy none = none
  truthy (some s) = if is_zero s then none else some s

  abbrev pub kept : Option Float → List Float → List Float
  kept none rest = rest
  kept (some s) rest = s ∷ rest

  unfoldable pub labelled : Label → List (Record F) → List Float
  labelled label [] = []
  labelled label (r ∷ rs) =
      if has_label label r.routing_label
      then kept (truthy r.latency_s) (labelled label rs)
      else labelled label rs

  -- Of the requests that were found convergent, the latencies under the baseline.
  abbrev pub same_in_baseline : Option (Record F) → Option Float
  same_in_baseline none = none
  same_in_baseline (some r) = truthy r.latency_s

  unfoldable pub baseline_latencies : Dict (Record F) → Dict (Record F) → List Float
  baseline_latencies base [] = []
  baseline_latencies base ((idx, r) ∷ rest) =
      if has_label convergent r.routing_label
      then kept (same_in_baseline (Dict.get idx base)) (baseline_latencies base rest)
      else baseline_latencies base rest

  -- `baseline_conv_latencies`, empty where there is no baseline.
  abbrev pub compared : Option (RunResult F) → List (Record F) → List Float
  compared none records = []
  compared (some base) records = baseline_latencies (by_idx base.records []) (by_idx records [])

  unfoldable pub improvement : Float → List Float → Result (Option Float × Option Float)
  improvement depri_p50 [] = ok (none, none)
  improvement depri_p50 (s ∷ base) = do
    base_p50 ← percentile (s ∷ base) half
    better ←
        if is_zero base_p50
        then ok nan
        else div_of (mul (of_nat 100) (sub base_p50 depri_p50)) base_p50
    ok (some base_p50, some better)

  unfoldable pub breakdown : Option (RunResult F) → List (Record F) → Result (Breakdown F)
  unfolding labelled baseline_latencies improvement mean_of
  breakdown base records = do
    let conv_latencies = labelled convergent records
    let div_latencies = labelled divergent records
    conv_p50 ← percentile conv_latencies half
    conv_mean ← mean_of conv_latencies
    div_p50 ← percentile div_latencies half
    div_mean ← mean_of div_latencies
    better ← improvement conv_p50 (compared base records)
    ok (record {
      convergent_p50_s = conv_p50;
      convergent_mean_s = conv_mean;
      divergent_p50_s = div_p50;
      divergent_mean_s = div_mean;
      n_convergent = length conv_latencies;
      n_divergent = length div_latencies;
      baseline_convergent_p50_s = better.0;
      convergent_p50_improvement_pct = better.1;
    })

  -- `None` if the strategy was not run.
  unfoldable pub deprioritize_latency_breakdown : Results F → Result (Option (Breakdown F))
  unfolding breakdown
  deprioritize_latency_breakdown all_results = elim (all_results probe_deprioritize) [
    | none ↦ ok none
    | some result ↦ breakdown (all_results baseline) result.records >>= λ b. ok (some b)
  ]
