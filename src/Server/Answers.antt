-- ===== src/Server/Answers.antt =====
-- What the clients of src/server.py get.
use probe_guided_inference.Base.{
  ℕ, true, false, ◌≡◌, ◌⊎◌, inl, inr, refl, ap, ◌∙◌, Option, none, some, List, [], ◌∷◌, ◌++◌, map,
  String, Bool,
}
use probe_guided_inference.Backend.{Backend}
use probe_guided_inference.Queue.{GenerationRequest}
use probe_guided_inference.Scheduler.State.{Config}
use probe_guided_inference.Scheduler.Endings.{IsEnded, IsEos, IsFull, IsTerminated, limit}
use probe_guided_inference.Gate.{RoutingDecision, is_divergent}
use probe_guided_inference.Probe.{Label, convergent, divergent}
use probe_guided_inference.Scheduler.Streams.{IsStreamed, IsRetried, tokens, streamed}
use probe_guided_inference.Server.{
  Chunk, ttft_ms, token, done, respond, response, GenerateResponse, token_generator,
}

module _ (b : Backend) where
  -- The chunks of tokens, each decoded by itself.
  abbrev pub token_chunks : List ℕ → List Chunk
  token_chunks ids = map (λ n. token (b.detokenize (n ∷ []))) ids

  -- The time to the first token comes in front of the tokens, if there is one.
  abbrev pub chunks_of : ℕ → List ℕ → List Chunk
  chunks_of elapsed [] = done ∷ []
  chunks_of elapsed (n ∷ ids) = ttft_ms elapsed ∷ token_chunks (n ∷ ids) ++ done ∷ []

  rest_of_stream :
      (elapsed : ℕ) (ids : List ℕ)
      → token_generator b elapsed true (tokens ids ++ none ∷ []) ≡ token_chunks ids ++ done ∷ []
  unfolding token_generator
  rest_of_stream elapsed [] = refl
  rest_of_stream elapsed (n ∷ ids) =
      ap (◌∷◌ (token (b.detokenize (n ∷ [])))) (rest_of_stream elapsed ids)

  stream_lem :
      (elapsed : ℕ) (ids : List ℕ)
      → token_generator b elapsed false (tokens ids ++ none ∷ []) ≡ chunks_of elapsed ids
  unfolding token_generator
  stream_lem elapsed [] = refl
  stream_lem elapsed (n ∷ ids) =
      ap (λ (cs : List Chunk). ttft_ms elapsed ∷ token (b.detokenize (n ∷ [])) ∷ cs)
        (rest_of_stream elapsed ids)

module _ {b : Backend} (config : Config b) where
  -- For a finished streaming request whose token queue is as run-IsRelayed says, whatever is
  -- known of the tokens of its preempted attempts, the token generator yields the time to the
  -- first token if there is a token, then each token decoded by itself in the order of
  -- generation, behind the tokens of preempted attempts, of which that is still known, and then
  -- the end mark.
  pub stream-chunks :
      (Tried : List ℕ → List ℕ → Type 0) (r : GenerationRequest b) (elapsed : ℕ)
      → IsStreamed config Tried r
      → r.stream ≡ true
      → (before : List ℕ) × (items : List (Option ℕ)) × IsRetried config before
        × Tried r.prompt_ids before
        × (r.token_queue ≡ some items)
        × (token_generator b elapsed false items ≡ chunks_of b elapsed (before ++ r.generated_ids))
  stream-chunks Tried r elapsed s streams = (
    s.before,
    tokens (s.before ++ r.generated_ids) ++ none ∷ [],
    s.retried,
    s.tried,
    s.items ∙ ap (λ on. streamed on (tokens (s.before ++ r.generated_ids) ++ none ∷ [])) streams,
    stream_lem b elapsed (s.before ++ r.generated_ids),
  )

  -- The response has the request's decision, if there is one.
  abbrev pub HasDecision : Option (RoutingDecision b) → GenerateResponse b → Type 0
  HasDecision decision a =
      ((decision ≡ none) × (a.routing_label ≡ none) × (a.routing_confidence ≡ none))
      ⊎ ((d : RoutingDecision b) × (decision ≡ some d)
          × (a.routing_label ≡ some d.label)
          × (a.routing_confidence ≡ some d.confidence))

  -- The response gives the reason for which the request ended, and that reason is right.
  abbrev pub IsReported : GenerationRequest b → GenerateResponse b → Type 0
  IsReported r a =
      (a.text ≡ b.detokenize r.generated_ids)
      × HasDecision r.routing_decision a
      × ((IsEos config a.finish_reason r.terminated_by_probe r.generated_ids
            ⊎ IsFull config a.finish_reason r.terminated_by_probe r.generated_ids (limit config r))
          ⊎ (IsTerminated config a.finish_reason r.terminated_by_probe r.routing_decision
              × (a.routing_label ≡ some divergent)))

  decision_lem :
      (r : GenerationRequest b) (start now : ℕ) (text : String)
      (decision : Option (RoutingDecision b))
      → r.routing_decision ≡ decision
      → HasDecision decision (response start now r text)
  decision_lem r start now text none e = inl (refl, rw e refl, rw e refl)
  decision_lem r start now text (some d) e = inr (d, refl, rw e refl, rw e refl)

  divergent_label :
      (l : Label)
      → (elim l as (λ _. Bool) [ divergent ↦ true | convergent ↦ false ]) ≡ true
      → l ≡ divergent
  divergent_label convergent e = absurd cc
  divergent_label divergent e = refl

  -- Of a request that ended as run-Endings says, the response is there: its text is the
  -- decoding of exactly its tokens; its label and confidence are those of the decision of the
  -- request, or both missing if there is none; and its finish reason says how the tokens ended:
  -- eos if the last token is the first end-of-sequence token, max_tokens if there are exactly
  -- max(1, limit) tokens and no such token, and probe_terminated only under probe_terminate and
  -- then with the label divergent.
  pub respond-IsEnded :
      (r : GenerationRequest b) (start now : ℕ)
      → IsEnded config r
      → (a : GenerateResponse b) × (respond start now r ≡ some a) × IsReported r a
  unfolding respond is_divergent
  respond-IsEnded r start now e = (
    response start now r (b.detokenize r.generated_ids),
    rw e.answered refl,
    (
      refl,
      decision_lem r start now (b.detokenize r.generated_ids) r.routing_decision refl,
      elim e.ending [
        | inl natural ↦ inl natural
        | inr (reason, flag, strategy, d, has, diverges, sure) ↦ inr (
          (reason, flag, strategy, d, has, diverges, sure),
          rw has (ap some (divergent_label d.label diverges)),
        )
      ],
    ),
  )
