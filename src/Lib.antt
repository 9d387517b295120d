-- ===== src/Lib.antt =====
-- A verification of probe-guided-inference: a server that decodes many generation requests in one
-- continuous batch, and reroutes a request once a linear probe on a hidden state finds its
-- reasoning divergent.
--
-- The parts and their files. Paths are from the root of the repository.
--   * Base, Base/*: tests on numbers, lists, exceptions as values, dicts, and intervals of time.
--   * Backend: what is taken from torch, transformers, scikit-learn and float arithmetic, as the
--     fields of one record that every module has as a parameter.
--   * Model: what is relied on of the language model, as named hypotheses (`IsRowWise`): row i of
--     a batch of the documented shape depends on row i, and in it on the columns that the attention mask
--     shows, among which the new token is to be. This is exact arithmetic.
--     Kernels that round differently for different batches have it only up to rounding, and
--     results/routing_eval.json shows runs whose greedy tokens differ for that reason.
--   * Probe: src/probe.py (`ProbeArtifact`, `load_probe`, `LayerActivationCapture`). Loading is
--     on the checks at load time.
--   * Gate: src/gate.py (`RoutingDecision`, `ClassificationGate`). Batches is on
--     `classify_batch`.
--   * Queue: src/queue.py (`GenerationRequest`, `RequestQueue`). A deque is the list of its items.
--   * Cache: src/hf_cache_bridge.py (`BatchedSequenceCache`). A tensor is the list of its rows along the
--     batch, each a list of columns along the sequence. Padding is on the mask, Build on
--     `build_batch`, Scatter on `scatter_updated_batch`.
--   * Runner: src/model_runner.py (`run_prefill`, `run_decode_step`). Steps says what they do to
--     each request, Forward is on the forward pass of a batch, Greedy is the reference.
--   * Scheduler: src/scheduler.py (`ContinuousBatcher`). State, Admit, Route and Loop have the
--     definitions. Rule is a proof rule for the tick; Places, Conserve, Counters and History are
--     on where requests are; Identifiers, Flags, Each, Local and Local/Finishing
--     on what holds of each request alone.
--     Routed says what routing can do to a request; Requests takes a statement on each request to
--     histories, which Endings and Gating use: how requests end, and when the gate is asked. Streams is
--     on what the token queues hold. Admission is on what `_try_admit` achieves, Preemptions on how often
--     it preempts. Origins is on what a submission sets of a request. Work measures what is left to
--     do: Spending is on the steps, Ticks on the tick, Going on the flag that stops the loop, Draining on
--     rounds until nothing is left.
--     Pool is the abstract view, jobs that move between a queue, a batch and the finished ones: Jobs and
--     Changes are on lists of requests as jobs, Following on the rounds, Refinement on whole histories.
--     Parity takes whole histories against Runner/Greedy: Advancing and Decoding are on the decoding step, Others on
--     the requests that a step does not touch, Rounds on the rounds, Histories on whole histories, Replays
--     on the token queues.
--   * Server: src/server.py (`generate`, `stream_generate`, `health`, `metrics`). Startup is
--     `startup`, Answers on what clients get, Counts on the numbers of /metrics.
--   * Report: benchmark/report.py without its output as markdown. Guards is on what keeps its
--     divisions from an error, Matched on the records of the
--     baseline that are looked up, Totals on its numbers.
--   * Answers: benchmark/aime_loader.py (`extract_answer`, `normalize_answer`). Boxed is on the pattern
--     for boxes.
--   * Evaluation: benchmark/routing_eval.py (`run_strategy` and the loop of `main_async`). Submitted,
--     Started, Awaited and Outcomes are on its phases, Complete on a whole run, Tokens and Counterfactual
--     on two runs of the same samples.
--   * SetupChecks: scripts/verify_setup.py (`verify_setup` is `main`). Written and Stepping are on its
--     decoding loops, Prefilling on the prefills, Parity on the comparison with the tokens of
--     `model.generate`, Verdicts on the two parity checks, Passing on the whole script.
--   * Training: scripts/train_probe.py (`load_activations`, `cross_validated_auc`; `train` is `main`).
--     Samples and Gathered are on what is read, Folds on the cross-validation, Inputs on what a fit takes,
--     Served on the stored probe.
--   * Tests: a toy model, and runs of the definitions on it.
--
-- How they interact: submitters append requests to the queue. A round of the scheduler takes
-- requests from it into the batch (`try_admit`, which prefills each and stores its cache), decodes one
-- token for every active request (`run_decode_step`, over the cache bridge, and asks the gate),
-- applies the routing strategy, and finishes requests. Calls from outside come between rounds,
-- where the coroutine sleeps: a history is a list of events with the reading of the clock at each.
--
-- State is passed explicitly, and an exception is a value of `Result`; after one the state is
-- given up, as the task that runs the loop ends with it. A request is a value: the scheduler holds
-- each request in one place, and `finished` stands for the references that submitters keep. The
-- set that `run_forever` finishes is taken in one of its orders. The dict `active` is the list of its values
-- in the order of insertion. Times are numbers, and a
-- difference of two is kept as the two readings, since nothing computes with them.
--
-- Fuel: `admit_while_room` runs on the length of the queue, of which each round takes one;
-- `preempt_while_full` counts `attempts` down as the code counts them up. `await_all` makes a round for
-- each reading of the clock it is given; `none` says that it still waits when they are used up.
--
-- Not modelled: the settings of src/config.py that only the scripts read, the
-- markdown of benchmark/report.py, command lines and output files, and the two files of scripts/ that
-- draw plots; logging; devices and dtypes of tensors.
mod Base
pub mod Backend
pub mod Model
pub mod Probe
pub mod Gate
pub mod Queue
pub mod Cache
pub mod Runner
pub mod Scheduler
pub mod Report
pub mod Answers
pub mod Evaluation
pub mod SetupChecks
pub mod Training
pub mod Server
pub mod Tests
