-- ===== src/Report/Totals.antt =====
-- The percentiles and totals of benchmark/report.py.
use probe_guided_inference.Base.{
  ℕ, zero, suc, ◌+◌, ◌-◌, ◌≤◌, ◌<◌, min, Bool, not, ◌≡◌, refl, ap, ◌>>=◌, sym, ◌∙◌, Option, none,
  some, List, [], ◌∷◌, arith, Result, ok, raise, After, length, get_elem?, select, or_raise,
  index_error, if◌then◌else◌, inl, inr, Bool-cases, After-exists,
}
use probe_guided_inference.Report.{
  Floats, Record, RunResult, Results, Summary, FalseTerminations, Breakdown, insert_sorted, sorted,
  percentile, summarize_strategy, rate, div_of, latencies, count_false, false_terms,
  false_termination_rate, labelled, breakdown, deprioritize_latency_breakdown, improvement,
  compared, kept, truthy, has_label,
}
use probe_guided_inference.Report.Guards.{
  IsFraction, IsNumeric, div_of_total, rate_pos, no_rate, rate_total, throughput_total,
  mean_of_total,
}
use probe_guided_inference.Report.Matched.{would_converge, false_terms-eq}
use probe_guided_inference.Probe.{Label, convergent, divergent}
use probe_guided_inference.Scheduler.State.{baseline, probe_terminate, probe_deprioritize}

get_some : {A : Type 0} (xs : List A) (i : ℕ) → i < length xs → (x : A) × (get_elem? xs i ≡ some x)
get_some [] i h = absurd (omega arith)
get_some (x ∷ xs) zero h = (x, refl)
get_some (x ∷ xs) (suc i) h = get_some xs i (omega arith)

two_reads :
    {A : Type 0} (g : A → A → A) (m n : Result A) {low high : A}
    → m ≡ ok low
    → n ≡ ok high
    → (x : A) × ((m >>= λ l. n >>= λ h. ok (g l h)) ≡ ok x)
two_reads g m n {low} {high} e k = (g low high, rw (e, k) refl)

length-select :
    {A : Type 0} (p : A → Bool) (xs : List A)
    → length (select p xs) + length (select (λ x. not (p x)) xs) ≡ length xs
length-select p [] = refl
length-select p (x ∷ xs) = ground (arith, length-select p xs)

module _ (F : Floats) where
  length-insert_sorted :
      (x : F.Float) (ys : List F.Float) → length (insert_sorted F x ys) ≡ length ys + 1
  unfolding insert_sorted
  length-insert_sorted x [] = refl
  length-insert_sorted x (y ∷ ys) = ground (arith, length-insert_sorted x ys)

  length-sorted : (xs : List F.Float) → length (sorted F xs) ≡ length xs
  unfolding sorted
  length-sorted [] = refl
  length-sorted (x ∷ xs) = omega (arith, length-insert_sorted x (sorted F xs), length-sorted xs)

  -- If truncating the given fraction of n never gives more than n, the percentile of any list
  -- of values is computed without an index error, an empty list included.
  pub percentile_total :
      (xs : List F.Float) (pct : F.Float)
      → IsFraction F pct
      → (p : F.Float) × (percentile F xs pct ≡ ok p)
  unfolding percentile
  percentile_total [] pct h = (F.nan, refl)
  percentile_total (x ∷ xs) pct h =
      let size = length-sorted (x ∷ xs) in
      let f = F.truncate (F.mul (F.of_nat (length (sorted F (x ∷ xs)) - 1)) pct) in
      let below : f ≤ length (sorted F (x ∷ xs)) - 1 = h (length (sorted F (x ∷ xs)) - 1) in
      let (low, e) = get_some (sorted F (x ∷ xs)) f (omega arith) in
      let (high, k) =
        get_some (sorted F (x ∷ xs)) (min (f + 1) (length (sorted F (x ∷ xs)) - 1)) (omega arith) in
      two_reads _ _ _ (ap (or_raise index_error) e) (ap (or_raise index_error) k)

  count_false_lem :
      (base records : List (Record F))
      → IsNumeric F
      → After ⊥ (count_false F base records) (λ t.
        (t.n_terminated ≡ length (select (λ r. r.terminated_by_probe) records))
        × (t.n_false_terminations
            ≡ length (
                select
                  (λ r. would_converge F base r.aime_idx)
                  (select (λ r. r.terminated_by_probe) records)))
        × (rate F t.n_false_terminations t.n_terminated F.nan ≡ ok t.false_termination_rate))
  unfolding count_false
  count_false_lem base records i = cases (select (λ (r : Record F). r.terminated_by_probe) records)
    where
      cases :
          (rs : List (Record F))
          → After ⊥
              (elim rs as (λ _. Result (FalseTerminations F)) [
                | [] ↦ ok (record {
                  n_terminated = 0;
                  n_false_terminations = 0;
                  false_termination_rate = F.nan;
                })
                | r ∷ ts ↦
                    div_of F
                      (F.of_nat (length (false_terms F base (r ∷ ts))))
                      (F.of_nat (length (r ∷ ts)))
                    >>= λ x. ok (record {
                      n_terminated = length (r ∷ ts);
                      n_false_terminations = length (false_terms F base (r ∷ ts));
                      false_termination_rate = x;
                    })
              ])
              (λ t.
                (t.n_terminated ≡ length rs)
                × (t.n_false_terminations
                    ≡ length (select (λ r. would_converge F base r.aime_idx) rs))
                × (rate F t.n_false_terminations t.n_terminated F.nan
                    ≡ ok t.false_termination_rate))
      cases [] = (refl, refl, no_rate F)
      cases (r ∷ ts) =
          let few = length (false_terms F base (r ∷ ts)) in
          let (x, e) =
            div_of_total F (F.of_nat few) (F.of_nat (suc (length ts))) (i.counts (length ts)) in
          rw e (
            refl,
            ap (λ (l : List (Record F)). length l) (false_terms-eq F base (r ∷ ts)),
            rate_pos F few (length ts) F.nan ∙ e,
          )

  summarize_lem :
      (result : RunResult F)
      → IsNumeric F
      → After ⊥ (summarize_strategy F result) (λ s.
        (s.n_terminated ≡ length (select (λ r. r.terminated_by_probe) result.records))
        × (s.n_completed + s.n_terminated ≡ length result.records)
        × (s.n_requests ≡ length result.records))
  unfolding summarize_strategy
  summarize_lem result i =
      let n = length result.records in
      let completed = select (λ (r : Record F). not r.terminated_by_probe) result.records in
      let n_correct = length (select (λ (r : Record F). r.correct) completed) in
      let n_conv = length (select (λ (r : Record F). r.converged) result.records) in
      let (t, e) = throughput_total F n result.wall_clock_s i in
      let (v, f) = rate_total F result.total_tokens_generated n (F.of_nat 0) i in
      let (u, g) = rate_total F n_correct (length completed) F.nan i in
      let (c, h) = rate_total F n_conv n (F.of_nat 0) i in
      let (p50, j) = percentile_total (latencies F result.records) F.half i.half in
      let (p95, k) = percentile_total (latencies F result.records) F.most i.most in
      let parts = length-select (λ (r : Record F). r.terminated_by_probe) result.records in
      rw (e, f, g, h, j, k) (omega (arith, parts), omega (arith, parts), refl)

  -- If baseline and probe_terminate were both run, a positive number is not zero and the two
  -- percentiles are fractions, both reports are computed without a division by zero or any
  -- other exception, also from no records, no terminated ones or a wall clock that is not
  -- positive, and they agree: the number of terminated requests is the same in both; the false
  -- terminations are the terminated requests whose index has records in the baseline, the last
  -- of which converged; their rate is the quotient of the two numbers, or NaN if nothing was
  -- terminated; and completed and terminated requests together are all records.
  pub reports-agree :
      (all_results : Results F) (base cut : RunResult F)
      → all_results baseline ≡ some base
      → all_results probe_terminate ≡ some cut
      → IsNumeric F
      → (t : FalseTerminations F) × (s : Summary F) × (false_termination_rate F all_results
          ≡ ok (some t))
        × (summarize_strategy F cut ≡ ok s)
        × (t.n_terminated ≡ s.n_terminated)
        × (t.n_false_terminations
            ≡ length (
                select
                  (λ r. would_converge F base.records r.aime_idx)
                  (select (λ r. r.terminated_by_probe) cut.records)))
        × (rate F t.n_false_terminations t.n_terminated F.nan ≡ ok t.false_termination_rate)
        × (s.n_completed + s.n_terminated ≡ length cut.records)
  unfolding false_termination_rate
  reports-agree all_results base cut e k i =
      let (s, f, known) = After-exists _ (summarize_strategy F cut) (summarize_lem cut i) in
      let (t, g, told) =
        After-exists _ (count_false F base.records cut.records)
          (count_false_lem base.records cut.records i) in
      (t, s, rw (e, k) (rw g refl), f, told.0 ∙ sym known.0, told.1, told.2, known.1)

  labelled-le :
      (rs : List (Record F))
      → length (labelled F convergent rs) + length (labelled F divergent rs) ≤ length rs
  unfolding labelled
  labelled-le [] = omega arith
  labelled-le (r ∷ rs) = cases r.routing_label (truthy F r.latency_s) (labelled-le rs)
    where
      cases :
          (label : Option Label) (latency : Option F.Float)
          → length (labelled F convergent rs) + length (labelled F divergent rs) ≤ length rs
          → length (
                if has_label convergent label
                then kept F latency (labelled F convergent rs)
                else labelled F convergent rs)
              + length (
                  if has_label divergent label
                  then kept F latency (labelled F divergent rs)
                  else labelled F divergent rs)
            ≤ suc (length rs)
      cases none latency rest = omega arith
      cases (some convergent) none rest = omega arith
      cases (some convergent) (some x) rest = omega arith
      cases (some divergent) none rest = omega arith
      cases (some divergent) (some x) rest = omega arith

  improvement_total :
      (p : F.Float) (base : List F.Float)
      → IsFraction F F.half
      → (better : Option F.Float × Option F.Float) × (improvement F p base ≡ ok better)
  unfolding improvement
  improvement_total p [] h = ((none, none), refl)
  improvement_total p (x ∷ base) h =
      let (q, e) = percentile_total (x ∷ base) F.half h in
      elim (Bool-cases (F.is_zero q)) [
        | inl still ↦ ((some q, some F.nan), rw e (rw still refl))
        | inr moving ↦
            ((some q, some (F.div (F.mul (F.of_nat 100) (F.sub q p)) q)), rw e (rw moving refl))
      ]

  breakdown-After :
      (base : Option (RunResult F)) (records : List (Record F))
      → IsFraction F F.half
      → After ⊥ (breakdown F base records) (λ r. r.n_convergent + r.n_divergent ≤ length records)
  unfolding breakdown
  breakdown-After base records h =
      let (p, e) = percentile_total (labelled F convergent records) F.half h in
      let (m, k) = mean_of_total F (labelled F convergent records) in
      let (q, f) = percentile_total (labelled F divergent records) F.half h in
      let (v, l) = mean_of_total F (labelled F divergent records) in
      let (better, g) = improvement_total p (compared F base records) h in
      rw (e, k, f, l, g) (labelled-le records)

  -- If probe_deprioritize was run and the median is a fraction, the latency breakdown is
  -- computed without an exception whatever the labels and latencies and whether or not there is
  -- a baseline: no mean is taken of an empty list, no division is by zero where the median of
  -- the baseline is zero, and no read is out of range; and the convergent and divergent
  -- requests in it are together at most the records of the run.
  pub breakdown_total :
      (all_results : Results F) (run : RunResult F)
      → all_results probe_deprioritize ≡ some run
      → IsFraction F F.half
      → (d : Breakdown F) × (deprioritize_latency_breakdown F all_results ≡ ok (some d))
        × (d.n_convergent + d.n_divergent ≤ length run.records)
  unfolding deprioritize_latency_breakdown
  breakdown_total all_results run e h =
      from (breakdown F (all_results baseline) run.records) refl
        (breakdown-After (all_results baseline) run.records h)
    where
      from :
          (m : Result (Breakdown F))
          → breakdown F (all_results baseline) run.records ≡ m
          → After ⊥ m (λ r. r.n_convergent + r.n_divergent ≤ length run.records)
          → (d : Breakdown F) × (elim (all_results probe_deprioritize)
                as (λ _. Result (Option (Breakdown F))) [
                  | none ↦ ok none
                  | some result ↦
                      breakdown F (all_results baseline) result.records >>= λ b. ok (some b)
                ]
              ≡ ok (some d))
            × (d.n_convergent + d.n_divergent ≤ length run.records)
      from (ok d) f k = (d, rw e (rw f refl), k)
      from (raise x) f k = absurd k
