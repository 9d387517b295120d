-- ===== src/Scheduler/Local/Finishing.antt =====
-- The second half of the rule of Local.antt: the decoding step and the loop that finishes requests.
use probe_guided_inference.Base.{
  or_raise, key_error, ℕ, ◌≤◌, true, false, ◌≡◌, ◌≢◌, refl, sym, ◌∙◌, inl, inr, some, List, [], ◌∷◌,
  arith, Option-cases, All, All-append, After, After-map, subst,
}
use probe_guided_inference.Backend.{Backend}
use probe_guided_inference.Queue.{GenerationRequest}
use probe_guided_inference.Runner.{run_decode_step}
use probe_guided_inference.Runner.Steps.{run_decode_step_lem}
use probe_guided_inference.Scheduler.State.{
  Config, Batcher, get_active, pop_active, finish, complete,
}
use probe_guided_inference.Scheduler.Admit.{preempt}
use probe_guided_inference.Scheduler.Route.{apply_routing}
use probe_guided_inference.Scheduler.Loop.{contains}
use probe_guided_inference.Scheduler.Rule.{Rule, routed, to_finish}
use probe_guided_inference.Scheduler.Places.{get_active_lem}
use probe_guided_inference.Scheduler.Conserve.{
  Conserved, finish-Conserved, decoded-Conserved, Advances-SameId,
}
use probe_guided_inference.Scheduler.Flags.{OneEach, Ticked, Ticked_lem}
use probe_guided_inference.Scheduler.Each.{All-pop_active, All-get_active}
use probe_guided_inference.Scheduler.Local.{
  LocalRule, KnowingRule, Everywhere, knowing, admit_one-Everywhere, preempt-Everywhere, All-others,
  IsTicked-SameId,
}

module _ {b : Backend} (now : ℕ) (config : Config b) (total : ℕ → ℕ) (once : (k : ℕ) → total k ≤ 1)
    {X W A F : GenerationRequest b → Type 0} (rule : KnowingRule now config X W A F) where
  -- Of an active request after the routing phase, with the identifiers that are to be finished.
  abbrev pub Due : List ℕ → GenerationRequest b → Type 0
  Due rids r =
      (contains r.request_id rids ≡ true → F (complete now r))
      × (contains r.request_id rids ≡ false → A r)

  pub record Finishing (rids : List ℕ) (s : Batcher b) : Type 0 where
    pub conserved : Conserved now config total once s
    pub waiting : All W s.queue.pending
    pub due : All (Due rids) s.active
    pub finished : All F s.finished

  one_each : (s : Batcher b) → Conserved now config total once s → OneEach s.active
  one_each s c k = omega (arith, c.places k, once k)

  Ticked-Due :
      (ids : List ℕ) (rs rs' : List (GenerationRequest b))
      → All A rs
      → Ticked config.limits config now ids rs rs'
      → All (Due ids) rs'
  Ticked-Due ids [] [] a t = tt
  Ticked-Due ids [] (r' ∷ rs') a t = absurd t
  Ticked-Due ids (r ∷ rs) [] a t = absurd t
  Ticked-Due ids (r ∷ rs) (r' ∷ rs') (a, rest) (t, ts) =
      let flag = contains r.request_id ids in
      let (ends, goes_on) = rule.ticks r r' flag a t in
      (
        subst (λ k. (contains k ids ≡ true → F (complete now r')) × (contains k ids ≡ false → A r'))
            (sym (IsTicked-SameId config.limits config now r r' flag t)) (ends, goes_on),
        Ticked-Due ids rs rs' rest ts,
      )

  -- Once a request is finished, the others are still due as they were.
  Due-tail :
      (rid : ℕ) (rids : List ℕ) (rs : List (GenerationRequest b))
      → All (λ r. r.request_id ≢ rid) rs
      → All (Due (rid ∷ rids)) rs
      → All (Due rids) rs
  Due-tail rid rids [] other due = tt
  Due-tail rid rids (r ∷ rs) (other, others) ((ends, goes_on), due) =
      let same : contains r.request_id (rid ∷ rids) ≡ contains r.request_id rids =
        ground (arith, λ (e : rid ≡ r.request_id). other (sym e)) in
      ((λ h. ends (same ∙ h), λ h. goes_on (same ∙ h)), Due-tail rid rids rs others due)

  finish-Finishing :
      (rid : ℕ) (rids : List ℕ) (s : Batcher b) (req : GenerationRequest b)
      → Finishing (rid ∷ rids) s
      → get_active rid s.active ≡ some req
      → Finishing rids (finish now req s)
  unfolding finish
  finish-Finishing rid rids s req c found =
      let named : req.request_id ≡ rid = (get_active_lem rid s.active req found).0 in
      let due = All-get_active (Due (rid ∷ rids)) rid s.active c.due found in
      record {
        conserved = finish-Conserved now config total once rid s req c.conserved found;
        waiting = c.waiting;
        due =
            Due-tail rid rids (pop_active req.request_id s.active)
              (rw named (All-others rid s.active (one_each s c.conserved)))
              (All-pop_active (Due (rid ∷ rids)) req.request_id s.active c.due);
        finished =
            All-append F s.finished (complete now req ∷ []) c.finished
              (due.0 (ground (arith, named)), tt);
      }

  settled : (rs : List (GenerationRequest b)) → All (Due []) rs → All A rs
  settled [] h = tt
  settled (r ∷ rs) h = (h.0.1 refl, settled rs h.1)

  pub decoded-Finishing :
      (s : Batcher b)
      → Everywhere now config total once rule s
      → After Unit
          (run_decode_step s.limits s.gate now s.active s.cache s.capture)
          (λ d. Finishing (to_finish s d) (routed s d))
  decoded-Finishing s c =
      After-map Unit (run_decode_step s.limits s.gate now s.active s.cache s.capture)
        (run_decode_step_lem s.limits s.gate now s.active s.cache s.capture)
        λ d advances.
          let kept =
            Advances-SameId s.limits s.gate now s.active d.active_reqs d.finished_ids advances in
          let ticked =
            Ticked_lem s.limits s.config now s.active d.active_reqs d.finished_ids
              (one_each s c.conserved) kept advances in
          let out = (apply_routing s.config d.active_reqs).0 in
          record {
            conserved = decoded-Conserved now config total once s d c.conserved advances;
            waiting = c.waiting;
            due = Ticked-Due (to_finish s d) s.active out c.active (
                subst (λ (k : Config b). Ticked k.limits k now (to_finish s d) s.active out)
                  c.conserved.same_config ticked);
            finished = c.finished;
          }

  pub get_active-Finishing :
      (rid : ℕ) (rids : List ℕ) (s : Batcher b)
      → Finishing (rid ∷ rids) s
      → After Unit
          (or_raise key_error (get_active rid s.active))
          (λ req. Finishing rids (finish now req s))
  get_active-Finishing rid rids s c = elim (Option-cases (get_active rid s.active)) [
    | inl absent ↦ rw absent tt
    | inr (req, found) ↦ rw found (finish-Finishing rid rids s req c found)
  ]

  pub settled-Everywhere :
      (s : Batcher b) → Finishing [] s → Everywhere now config total once rule s
  settled-Everywhere s c = record {
    conserved = c.conserved;
    waiting = c.waiting;
    active = settled s.active c.due;
    finished = c.finished;
  }

module _ {b : Backend} (now : ℕ) (config : Config b) (total : ℕ → ℕ) (once : (k : ℕ) → total k ≤ 1)
    {W A F : GenerationRequest b → Type 0} (rule : LocalRule now config W A F) where
  -- What the rule asks for is enough: the predicates hold after each round.
  pub locally :
      Rule now config Unit
        (Everywhere now config total once (knowing rule))
        (Finishing now config total once (knowing rule))
  locally = record {
    same_config = λ s c. c.conserved.same_config;
    admits = λ s c room. admit_one-Everywhere now config total once (knowing rule) s c;
    swaps = λ s victim c strategy contended found.
        admit_one-Everywhere now config total once (knowing rule) (preempt victim s)
          (preempt-Everywhere now config total once (knowing rule) s victim tt c found);
    decodes = λ s c some_active. decoded-Finishing now config total once (knowing rule) s c;
    finishes =
        λ rid rids s c. get_active-Finishing now config total once (knowing rule) rid rids s c;
    settles = λ s c. settled-Everywhere now config total once (knowing rule) s c;
  }
