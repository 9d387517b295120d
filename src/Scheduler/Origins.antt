-- ===== src/Scheduler/Origins.antt =====
-- What src/scheduler.py never changes of a request: what its submission has set.
use probe_guided_inference.Base.{
  ℕ, Bool, ◌≡◌, inl, inr, refl, ap, sym, ◌∙◌, Option, List, length, if_ind, subst,
}
use probe_guided_inference.Backend.{Backend}
use probe_guided_inference.Queue.{GenerationRequest, Metadata}
use probe_guided_inference.Runner.{Limits, is_finished, set_reason, append_token}
use probe_guided_inference.Scheduler.State.{Config, complete}
use probe_guided_inference.Scheduler.Flags.{IsTicked, outcome}
use probe_guided_inference.Scheduler.Routed.{outcome-IsRouted}
use probe_guided_inference.Scheduler.Local.{LocalRule}

pub record Origin : Type 0 where
  pub request_id : ℕ
  pub prompt_ids : List ℕ
  pub max_tokens : ℕ
  pub arrival_time : ℕ
  pub metadata : Option Metadata

module _ {b : Backend} where
  abbrev pub origin : GenerationRequest b → Origin
  origin r = record {
    request_id = r.request_id;
    prompt_ids = r.prompt_ids;
    max_tokens = r.max_tokens;
    arrival_time = r.arrival_time;
    metadata = r.metadata;
  }

  origin-set_reason :
      (limits : Limits) (nid : ℕ) (r : GenerationRequest b)
      → origin (set_reason limits nid r) ≡ origin r
  origin-set_reason limits nid r =
      if_ind (λ (t : GenerationRequest b). origin t ≡ origin r) (is_finished limits nid r)
        (λ _. refl) (λ _. refl)

  origin-routed :
      (config : Config b) (r r'' : GenerationRequest b)
      → r'' ≡ (outcome config r).0
      → origin r'' ≡ origin r
  origin-routed config r r'' e = elim (outcome-IsRouted config r) [
    | inl (flag, (routed, priority, f, why)) ↦ ap origin (e ∙ f)
    | inr (flag, (strategy, decision, d, divergent, confident, f)) ↦ ap origin (e ∙ f)
  ]

  origin-ticked :
      (limits : Limits) (config : Config b) (now : ℕ) (r r'' : GenerationRequest b) (fin : Bool)
      → IsTicked limits config now r r'' fin
      → origin r'' ≡ origin r
  origin-ticked limits config now r r'' fin (r', done, (nid, s, fired, e, f), g, h) =
      origin-routed config r' r'' g ∙ ap origin e ∙ origin-set_reason limits nid s ∙ elim fired [
        | inl (same, unready) ↦ ap origin same
        | inr (gate, hidden, d, k, i, j, l, same) ↦ ap origin same
      ]

  -- What holds of a request's origin holds of it from its submission to its end.
  pub origins :
      (now : ℕ) (config : Config b) (P : Origin → Type 0)
      → LocalRule now config (λ r. P (origin r)) (λ r. P (origin r)) (λ r. P (origin r))
  unfolding complete
  origins now config P = record {
    resets = λ r p one. p;
    prefills = λ r nid p.
        let r' = append_token nid (length r.prompt_ids) r in
        let kept = subst P (sym (origin-set_reason config.limits nid r')) p in
        (λ _. kept, λ _. kept);
    ticks = λ r r' finishing p t.
        let kept = subst P (sym (origin-ticked config.limits config now r r' finishing t)) p in
        (λ _. kept, λ _. kept);
  }
