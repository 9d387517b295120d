-- ===== src/Runner/Greedy.antt =====
-- The reference for src/model_runner.py: greedy generation of one prompt alone, with no batch,
-- padding or scheduling.
use probe_guided_inference.Base.{
  ℕ, zero, suc, ◌+◌, ◌≡◌, refl, some, List, [], ◌∷◌, ◌++◌, arith, length, get_last?, length-append,
}
use probe_guided_inference.Backend.{Backend}
use probe_guided_inference.Model.{SeqRows, IsRowWise, append_columns}

-- The cache, the tokens so far and the last of them, whose columns are not in the cache yet.
pub record Generation (b : Backend) : Type 0 where
  pub rows : SeqRows b.Column
  pub tokens : List ℕ
  pub newest : ℕ

module _ {b : Backend} (w : IsRowWise b) (prompt : List ℕ) where
  -- After the prompt and `n` decoding steps.
  unfoldable pub greedy : ℕ → Generation b
  greedy zero = record {
    rows = w.prompt_rows prompt;
    tokens = b.argmax (w.prompt_logits prompt) ∷ [];
    newest = b.argmax (w.prompt_logits prompt);
  }
  greedy (suc n) =
      let before = greedy n in
      let answer = w.row before.rows before.newest (length prompt + n) in
      record {
        rows = append_columns before.rows answer.columns;
        tokens = before.tokens ++ b.argmax answer.logits ∷ [];
        newest = b.argmax answer.logits;
      }

get_last?-append : (xs : List ℕ) (x : ℕ) → get_last? (xs ++ x ∷ []) ≡ some x
get_last?-append [] x = refl
get_last?-append (y ∷ []) x = refl
get_last?-append (y ∷ z ∷ xs) x = get_last?-append (z ∷ xs) x

module _ {b : Backend} (w : IsRowWise b) (prompt : List ℕ) where
  pub newest-get_last? :
      (n : ℕ) → get_last? (greedy w prompt n).tokens ≡ some (greedy w prompt n).newest
  unfolding greedy
  newest-get_last? zero = refl
  newest-get_last? (suc n) = get_last?-append (greedy w prompt n).tokens _

  -- One token for the prompt, and one for each step.
  pub length-greedy : (n : ℕ) → length (greedy w prompt n).tokens ≡ n + 1
  unfolding greedy
  length-greedy zero = omega arith
  length-greedy (suc n) =
      omega (arith, length-greedy n, length-append {0} (greedy w prompt n).tokens (_ ∷ []))
