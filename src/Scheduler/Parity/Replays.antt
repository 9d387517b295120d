-- ===== src/Scheduler/Parity/Replays.antt =====
-- What a client reads from the token queues of src/scheduler.py, against the reference.
use probe_guided_inference.Base.{
  ℕ, ◌≤◌, ◌≡◌, refl, sym, ◌∙◌, ap, List, [], ◌∷◌, ◌++◌, append_assoc, append-nil, or_raise,
  key_error, ok, All, All-append, After, After-bind, After-map, After-both, After-exists, if_ind,
}
use probe_guided_inference.Backend.{Backend}
use probe_guided_inference.Model.{IsRowWise}
use probe_guided_inference.Queue.{submit, make_request}
use probe_guided_inference.Runner.Greedy.{greedy}
use probe_guided_inference.Runner.{run_decode_step}
use probe_guided_inference.Scheduler.State.{Config, Batcher, get_active}
use probe_guided_inference.Scheduler.Admit.{admit_one, preempt}
use probe_guided_inference.Scheduler.Loop.{
  Process, Event, submits, rounds, stops, closes, step, run, tick,
}
use probe_guided_inference.Scheduler.Rule.{Rule, tick_ind}
use probe_guided_inference.Scheduler.Each.{victim_ind}
use probe_guided_inference.Scheduler.History.{issued, issued_once}
use probe_guided_inference.Scheduler.Local.{
  Everywhere, KnowingRule, admit_one-Everywhere, preempt-Everywhere,
}
use probe_guided_inference.Scheduler.Local.Finishing.{
  Finishing, decoded-Finishing, get_active-Finishing, settled-Everywhere,
}
use probe_guided_inference.Scheduler.Streams.{
  IsQueued, IsStreaming, IsStreamed, streams, make_request-IsQueued,
}
use probe_guided_inference.Scheduler.Parity.{IsExact, IsFaithful, Accepts}
use probe_guided_inference.Scheduler.Parity.Rounds.{Serving, Draining, serves}
use probe_guided_inference.Scheduler.Parity.Histories.{IsServing, IsServed, step-IsServing}

module _ {b : Backend} (w : IsRowWise b) where
  -- The tokens of attempts that made these numbers of steps.
  abbrev replayed : List ℕ → List ℕ → List ℕ
  replayed prompt [] = []
  replayed prompt (k ∷ ks) = (greedy w prompt k).tokens ++ replayed prompt ks

  -- The tokens are those of attempts, one after the other, each by greedy generation.
  abbrev pub IsReplay : List ℕ → List ℕ → Type 0
  IsReplay prompt before = (attempts : List ℕ) × (before ≡ replayed prompt attempts)

  replayed-append :
      (prompt ks : List ℕ) (k : ℕ)
      → replayed prompt (ks ++ k ∷ []) ≡ replayed prompt ks ++ (greedy w prompt k).tokens
  replayed-append prompt [] k = append-nil (greedy w prompt k).tokens
  replayed-append prompt (j ∷ ks) k =
      ap (λ (l : List ℕ). (greedy w prompt j).tokens ++ l) (replayed-append prompt ks k)
      ∙ sym
          (append_assoc (greedy w prompt j).tokens (replayed prompt ks) (greedy w prompt k).tokens)

  append-IsReplay :
      (prompt before ids : List ℕ)
      → IsExact w prompt ids
      → IsReplay prompt before
      → IsReplay prompt (before ++ ids)
  append-IsReplay prompt before ids (k, e) (ks, f) =
      (ks ++ k ∷ [], rw (e, f) (sym (replayed-append prompt ks k)))

module _ {b : Backend} (w : IsRowWise b) (config : Config b) where
  relays :
      (now : ℕ)
      → KnowingRule now config
          (λ r. IsExact w r.prompt_ids r.generated_ids)
          (IsQueued config (IsReplay w))
          (IsStreaming config (IsReplay w))
          (IsStreamed config (IsReplay w))
  relays = streams config (IsReplay w) (IsExact w) (λ prompt. ([], refl)) (append-IsReplay w)

  -- The requests are served, and what a client has got of each is as told.
  pub record IsRelayed (p : Process b) : Type 0 where
    pub serving : IsServing w config p
    pub waiting : All (IsQueued config (IsReplay w)) p.batcher.queue.pending
    pub active : All (IsStreaming config (IsReplay w)) p.batcher.active
    pub finished : All (IsStreamed config (IsReplay w)) p.batcher.finished

  module _ (now : ℕ) (total : ℕ → ℕ) (once : (k : ℕ) → total k ≤ 1) where
    abbrev Both : Batcher b → Type 0
    Both s = Serving w now config total once s × Everywhere now config total once (relays now) s

    abbrev Leaving : List ℕ → Batcher b → Type 0
    Leaving rids s =
        Draining w now config total once rids s
        × Finishing now config total once (relays now) rids s

    -- An attempt that is preempted had the tokens of greedy generation.
    serves_and_relays : Accepts config.gate → Rule now config ⊥ Both Leaving
    serves_and_relays accepts =
        let rule = serves w now config total once accepts in
        record {
          same_config = λ s c. rule.same_config s c.0;
          admits = λ s c room.
              After-both (Serving w now config total once)
                (Everywhere now config total once (relays now)) (admit_one now s)
                (rule.admits s c.0 room)
                (admit_one-Everywhere now config total once (relays now) s c.1);
          swaps = λ s victim c strategy contended found.
              let (some_token, steps, e, st) =
                (victim_ind (IsFaithful w s.cache) s.active victim c.0.active found).0 in
              After-both (Serving w now config total once)
                (Everywhere now config total once (relays now)) (admit_one now (preempt victim s))
                (rule.swaps s victim c.0 strategy contended found)
                (admit_one-Everywhere now config total once (relays now) (preempt victim s) (
                  preempt-Everywhere now config total once (relays now) s victim (steps, e) c.1
                    found));
          decodes = λ s c some_active.
              After-both _ _ (run_decode_step s.limits s.gate now s.active s.cache s.capture)
                (rule.decodes s c.0 some_active)
                (decoded-Finishing now config total once (relays now) s c.1);
          finishes = λ rid rids s c.
              After-both _ _ (or_raise key_error (get_active rid s.active))
                (rule.finishes rid rids s c.0)
                (get_active-Finishing now config total once (relays now) rid rids s c.1);
          settles = λ s c.
              (rule.settles s c.0, settled-Everywhere now config total once (relays now) s c.1);
        }

  tick-IsRelayed :
      (p : Process b) (now : ℕ)
      → Accepts config.gate
      → IsRelayed p
      → After ⊥ (tick now p.batcher) (λ s. IsRelayed (record p { batcher = s }))
  tick-IsRelayed p now accepts k =
      let i = k.serving in
      After-map ⊥ (tick now p.batcher)
        (tick_ind (serves_and_relays now (issued p.next_id) (issued_once p.next_id) accepts)
          p.batcher
          (
            record {
              conserved = record { same_config = i.same_config; places = i.conserved.places };
              waiting = i.waiting;
              active = i.active;
              finished = i.finished;
              hooked = i.hooked;
            },
            record {
              conserved = record { same_config = i.same_config; places = i.conserved.places };
              waiting = k.waiting;
              active = k.active;
              finished = k.finished;
            },
          ))
        (λ s c. record {
          serving = record {
            same_config = c.0.conserved.same_config;
            conserved = record { started = i.conserved.started; places = c.0.conserved.places };
            waiting = c.0.waiting;
            active = c.0.active;
            finished = c.0.finished;
            hooked = c.0.hooked;
          };
          waiting = c.1.waiting;
          active = c.1.active;
          finished = c.1.finished;
        })

  step-IsRelayed :
      (p : Process b) (now : ℕ) (e : Event)
      → Accepts config.gate
      → IsServed e
      → IsRelayed p
      → After ⊥ (step p (now, e)) IsRelayed
  unfolding step submit
  step-IsRelayed p now (submits s) accepts h k = record {
    serving = step-IsServing w config p now (submits s) accepts h k.serving;
    waiting =
        All-append (IsQueued config (IsReplay w)) p.batcher.queue.pending
          (make_request p.next_id now s ∷ []) k.waiting
          (
            make_request-IsQueued config (IsReplay w) (IsExact w) (λ prompt. ([], refl))
                (append-IsReplay w) p.next_id now s,
            tt,
          );
    active = k.active;
    finished = k.finished;
  }
  step-IsRelayed p now rounds accepts h k =
      if_ind (λ m. After ⊥ m IsRelayed) p.batcher.stopped (λ _. k)
        λ _.
          After-bind ⊥ (λ s. IsRelayed (record p { batcher = s })) IsRelayed (tick now p.batcher)
            (λ s. ok (record p { batcher = s })) (tick-IsRelayed p now accepts k) (λ s _ kept. kept)
  step-IsRelayed p now stops accepts h k = record {
    serving = step-IsServing w config p now stops accepts h k.serving;
    waiting = k.waiting;
    active = k.active;
    finished = k.finished;
  }
  step-IsRelayed p now closes accepts h k = absurd h

  run-After :
      (p : Process b) (es : List (ℕ × Event))
      → Accepts config.gate
      → All (λ e. IsServed e.1) es
      → IsRelayed p
      → After ⊥ (run p es) IsRelayed
  unfolding run
  run-After p [] accepts h k = k
  run-After p ((now, e) ∷ es) accepts (h, hs) k =
      After-bind ⊥ IsRelayed IsRelayed (step p (now, e)) (λ q. run q es)
        (step-IsRelayed p now e accepts h k) (λ q _ j. run-After q es accepts hs j)

  -- For a model that reads a batch of the documented shape row by row, ignores masked columns
  -- and is shown the new token, in exact arithmetic, and a gate, if there is one, that
  -- classifies every hidden state: from a process whose requests are relayed, any history of
  -- rounds, stops and submissions of prompts that have a token, in which the hook is not
  -- removed, runs without an exception, and its requests are relayed at its end. Relayed means
  -- that the process is serving in the sense of run-IsServing; that the token queue of a
  -- streaming request holds first the tokens of preempted attempts, each attempt with exactly
  -- the tokens that greedy generation gives the prompt after some number of steps, and no such
  -- attempt unless the strategy is probe_deprioritize, then its generated tokens in order, and
  -- if it is finished the end mark behind them, once; and that a request that does not stream
  -- has no token queue.
  pub run-IsRelayed :
      (p : Process b) (es : List (ℕ × Event))
      → Accepts config.gate
      → All (λ e. IsServed e.1) es
      → IsRelayed p
      → (q : Process b) × (run p es ≡ ok q) × IsRelayed q
  run-IsRelayed p es accepts h k = After-exists IsRelayed (run p es) (run-After p es accepts h k)
