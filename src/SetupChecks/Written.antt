-- ===== src/SetupChecks/Written.antt =====
-- What scripts/verify_setup.py keeps of its requests over a decoding step.
use mathlib.Core.Path.{ap₂}
use probe_guided_inference.Base.{
  ℕ, ◌+◌, ◌<◌, true, false, ◌≡◌, ◌≢◌, refl, ap, ◌∙◌, Option, List, [], ◌∷◌, arith, All, All₂,
  length-append, ltb, ◌==◌,
}
use probe_guided_inference.Backend.{Backend}
use probe_guided_inference.Gate.{ClassificationGate}
use probe_guided_inference.Queue.{GenerationRequest, n_generated}
use probe_guided_inference.Runner.{Limits}
use probe_guided_inference.Runner.Steps.{Advances}
use probe_guided_inference.Scheduler.State.{get_active}
use probe_guided_inference.Scheduler.Places.{SameId}
use probe_guided_inference.Scheduler.Flags.{OneEach, OneEach-head, OneEach-tail}
use probe_guided_inference.Scheduler.Parity.Others.{absent_all}
use probe_guided_inference.SetupChecks.{replacement, write_back, unfinished}

module _ {b : Backend} where
  abbrev pub SamePrompt : GenerationRequest b → GenerationRequest b → Type 0
  SamePrompt r r' = r'.prompt_ids ≡ r.prompt_ids

  pub Advances-SamePrompt :
      (limits : Limits) (gate : Option (ClassificationGate b)) (now : ℕ)
      (rs rs' : List (GenerationRequest b)) (ids : List ℕ)
      → Advances limits gate now rs rs' ids
      → All₂ SamePrompt rs rs'
  Advances-SamePrompt limits gate now [] [] ids h = tt
  Advances-SamePrompt limits gate now [] (r' ∷ rs') ids h = absurd h
  Advances-SamePrompt limits gate now (r ∷ rs) [] ids h = absurd h
  Advances-SamePrompt limits gate now (r ∷ rs) (r' ∷ rs') ids
        (done, rest, (nid, r'', fired, e, f), h, g) =
      (ground arith, Advances-SamePrompt limits gate now rs rs' rest h)

  pub Advances-n_generated :
      (limits : Limits) (gate : Option (ClassificationGate b)) (now k : ℕ)
      (rs rs' : List (GenerationRequest b)) (ids : List ℕ)
      → Advances limits gate now rs rs' ids
      → All (λ r. n_generated r ≡ k) rs
      → All (λ r. n_generated r ≡ k + 1) rs'
  Advances-n_generated limits gate now k [] [] ids h s = tt
  Advances-n_generated limits gate now k [] (r' ∷ rs') ids h s = absurd h
  Advances-n_generated limits gate now k (r ∷ rs) [] ids h s = absurd h
  Advances-n_generated limits gate now k (r ∷ rs) (r' ∷ rs') ids
        (done, rest, (nid, r'', fired, e, f), h, g) (s, ss) =
      (
        ground (arith, s, length-append r.generated_ids (nid ∷ [])),
        Advances-n_generated limits gate now k rs rs' rest h ss,
      )

  pub replacement_same :
      (u : GenerationRequest b) (us : List (GenerationRequest b)) (r : GenerationRequest b)
      → SameId r u
      → replacement (u ∷ us) r ≡ u
  unfolding get_active
  replacement_same u us r h =
      let here : (u.request_id == r.request_id) ≡ true = ground arith in
      rw (here, replacement, get_active) refl

  pub replacement_other :
      (u : GenerationRequest b) (us : List (GenerationRequest b)) (r : GenerationRequest b)
      → r.request_id ≢ u.request_id
      → replacement (u ∷ us) r ≡ replacement us r
  unfolding get_active
  replacement_other u us r h =
      let there : (u.request_id == r.request_id) ≡ false = ground (arith, h) in
      rw (there, replacement, get_active) refl

  pub write_back_other :
      (u : GenerationRequest b) (us rs : List (GenerationRequest b))
      → All (λ r. r.request_id ≢ u.request_id) rs
      → write_back (u ∷ us) rs ≡ write_back us rs
  write_back_other u us [] h = refl
  write_back_other u us (r ∷ rs) (h, hs) =
      ap₂ ◌∷◌ (replacement_other u us r h) (write_back_other u us rs hs)

  -- All requests are replaced, in their order.
  pub write_back_all :
      (rs us : List (GenerationRequest b)) → OneEach rs → All₂ SameId rs us → write_back us rs ≡ us
  write_back_all [] [] one h = refl
  write_back_all [] (u ∷ us) one h = absurd h
  write_back_all (r ∷ rs) [] one h = absurd h
  write_back_all (r ∷ rs) (u ∷ us) one (h, hs) =
      let others : All (λ t. t.request_id ≢ u.request_id) rs =
        rw h (absent_all r.request_id rs (OneEach-head r rs one)) in
      ap₂ ◌∷◌ (replacement_same u us r h)
        (write_back_other u us rs others ∙ write_back_all rs us (OneEach-tail r rs one) hs)

  pub unfinished_all :
      (n k : ℕ) (rs : List (GenerationRequest b))
      → k < n
      → All (λ r. n_generated r ≡ k) rs
      → unfinished n rs ≡ rs
  unfinished_all n k [] less s = refl
  unfinished_all n k (r ∷ rs) less (s, ss) =
      let more : ltb (n_generated r) n ≡ true = ground arith in
      rw more (ap (◌∷◌ r) (unfinished_all n k rs less ss))
