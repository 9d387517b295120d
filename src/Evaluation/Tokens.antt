-- ===== src/Evaluation/Tokens.antt =====
-- Greedy generations of one prompt that stop at different places, for the records of
-- benchmark/routing_eval.py.
use probe_guided_inference.Base.{
  ℕ, zero, suc, ◌≤◌, true, ◌≡◌, ◌≢◌, inl, inr, refl, ap, sym, ◌∙◌, List, [], ◌∷◌, ◌++◌,
  append_assoc, append-nil, arith, All, length, length-append, subst,
}
use native.Mathlib.Decide.{ℕ_discrete, dec_le}
use probe_guided_inference.Backend.{Backend}
use probe_guided_inference.Model.{IsRowWise}
use probe_guided_inference.Runner.Greedy.{greedy, length-greedy}
use probe_guided_inference.Scheduler.State.{RoutingStrategy}
use probe_guided_inference.Scheduler.Loop.{contains}
use probe_guided_inference.Evaluation.{Sample, Bench, Outcome}
use probe_guided_inference.Evaluation.Outcomes.{IsOutcome, EndsNaturally}

-- More steps of the reference only add tokens.
pub greedy-extends :
    {b : Backend} (w : IsRowWise b) (prompt : List ℕ) (m n : ℕ)
    → m ≤ n
    → (rest : List ℕ) × ((greedy w prompt n).tokens ≡ (greedy w prompt m).tokens ++ rest)
unfolding greedy
greedy-extends w prompt m zero le =
    let same : 0 ≡ m = omega arith in
    ([], ap (λ k. (greedy w prompt k).tokens) same ∙ sym (append-nil (greedy w prompt m).tokens))
greedy-extends w prompt m (suc n) le = elim (ℕ_discrete (suc n) m) [
  | yes same ↦
      ([], ap (λ k. (greedy w prompt k).tokens) same ∙ sym (append-nil (greedy w prompt m).tokens))
  | no other ↦
      let (rest, e) = greedy-extends w prompt m n (omega arith) in
      let one = (greedy w prompt (suc n)).newest ∷ [] in
      (
        rest ++ one,
        ap (λ (ids : List ℕ). ids ++ one) e ∙ append_assoc (greedy w prompt m).tokens rest one,
      )
]

-- What stands in front of the last item.
abbrev IsPrefix : List ℕ → List ℕ → Type 0
IsPrefix xs ys = (rest : List ℕ) × (ys ≡ xs ++ rest)

proper-front :
    (xs rest before : List ℕ) (newest : ℕ)
    → xs ++ rest ≡ before ++ newest ∷ []
    → 1 ≤ length rest
    → IsPrefix xs before
proper-front [] rest before newest e some_rest = (before, refl)
proper-front (x ∷ xs) rest [] newest e some_rest =
    absurd (omega (arith, ap (λ (l : List ℕ). length l) e, length-append {0} xs rest))
proper-front (x ∷ xs) rest (y ∷ before) newest e some_rest =
    let tail : xs ++ rest ≡ before ++ newest ∷ [] = ap (λ (l : List ℕ). tail_of l) e in
    let (more, f) = proper-front xs rest before newest tail some_rest in
    let same : y ≡ x = let one : x ∷ (xs ++ rest) ≡ y ∷ (before ++ newest ∷ []) = e in cc in
    (more, ap (λ a. a ∷ before) same ∙ ap (◌∷◌ x) f)
  where
    tail_of : List ℕ → List ℕ
    tail_of [] = []
    tail_of (x ∷ xs) = xs

All-prefix : (P : ℕ → Type 0) (xs rest ys : List ℕ) → ys ≡ xs ++ rest → All P ys → All P xs
All-prefix P xs rest ys e h = front xs rest (subst (All P) e h)
  where
    front : (xs rest : List ℕ) → All P (xs ++ rest) → All P xs
    front [] rest h = tt
    front (x ∷ xs) rest h = (h.0, front xs rest h.1)

pub All-last : (P : ℕ → Type 0) (before : List ℕ) (x : ℕ) → All P (before ++ x ∷ []) → P x
All-last P [] x h = h.0
All-last P (y ∷ before) x h = All-last P before x h.1

pub contains-append :
    (k : ℕ) (xs rest : List ℕ) → contains k xs ≡ true → contains k (xs ++ rest) ≡ true
contains-append k [] rest h = cc
contains-append k (x ∷ xs) rest h = ground (arith, contains-append k xs rest)

module _ {b : Backend} (bench : Bench b) (w : IsRowWise b) (max_tokens : ℕ) (s : Sample) (i : ℕ)
    (arrivals arrivals' : ℕ → ℕ) (strategy strategy' : RoutingStrategy) (o o' : Outcome b) where
  -- A run that ended by itself has no fewer tokens than one that stopped, for whatever reason.
  pub stops-before :
      (t : IsOutcome bench w max_tokens arrivals strategy i s o)
      (t' : IsOutcome bench w max_tokens arrivals' strategy' i s o')
      → EndsNaturally bench w max_tokens arrivals strategy o.finish_reason o.terminated_by_probe
          t.tokens
      → t'.exact.0 ≤ t.exact.0
  stops-before t t' ends = elim (dec_le t'.exact.0 t.exact.0) [
    | yes le ↦ le
    | no more ↦
        let prompt = (bench.tokenizer.encode (bench.tokenizer.template s.question)) in
        let (rest, e) = greedy-extends w prompt t.exact.0 t'.exact.0 (omega arith) in
        let longer : t'.tokens ≡ t.tokens ++ rest =
          t'.exact.1 ∙ e ∙ ap (λ (l : List ℕ). l ++ rest) (sym t.exact.1) in
        let n = length-greedy w prompt t.exact.0 in
        let n' = length-greedy w prompt t'.exact.0 in
        let size = ap (λ (l : List ℕ). length l) t.exact.1 in
        let size' = ap (λ (l : List ℕ). length l) t'.exact.1 in
        let (before, newest, split, no_eos) = t'.prior in
        let (more_front, f) = proper-front t.tokens rest before newest (sym longer ∙ split) (
          omega (
            arith,
            ap (λ (l : List ℕ). length l) e,
            length-append {0} (greedy w prompt t.exact.0).tokens rest,
          )) in
        let none_here =
          All-prefix (λ k. k ≢ bench.eos_token_id) t.tokens more_front before f no_eos in
        elim ends [
          | inl (reason, flag, front, at_eos, none_before) ↦ absurd (
              All-last (λ k. k ≢ bench.eos_token_id) front bench.eos_token_id
                (subst (All (λ k. k ≢ bench.eos_token_id)) at_eos none_here) refl)
          | inr (reason, flag, full, none_all) ↦ absurd (omega (arith, full, t'.bound))
        ]
  ]
