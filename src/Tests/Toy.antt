-- ===== src/Tests/Toy.antt =====
-- A small concrete backend: numbers for floats, columns, hidden states and logits. It shows that
-- what Model.antt asks of a language model can be had.
use probe_guided_inference.Base.{
  ℕ, zero, suc, ◌+◌, ◌-◌, max, if◌then◌else◌, Bool, some, List, [], ◌∷◌, ◌++◌, ◌≡◌, refl, arith,
  subst, ltb, get_elem?,
}
use probe_guided_inference.Backend.{Backend, Batch, Past, Tensor}
use probe_guided_inference.Model.{
  SeqRows, single, IsRow, shown, visible, append_columns, RowOutput, IsRowWise,
}

abbrev sum : List ℕ → ℕ
sum [] = 0
sum (n ∷ ns) = n + sum ns

abbrev first : Tensor ℕ → List ℕ
first [] = []
first (r ∷ rows) = r

abbrev rest : Tensor ℕ → Tensor ℕ
rest [] = []
rest (r ∷ rows) = rows

abbrev keys_of : Past ℕ → Tensor ℕ
keys_of [] = []
keys_of ((k, v) ∷ past) = k

abbrev row_keys : SeqRows ℕ → List ℕ
row_keys [] = []
row_keys ((k, v) ∷ rows) = k

abbrev pub answer : List ℕ → ℕ → ℕ → ℕ
answer seen token position =
    let n = sum seen + token + token + position in if ltb 1000 n then 2 else n

abbrev answers : List ℕ → List ℕ → List (List Bool) → Tensor ℕ → List ℕ
answers (t ∷ ts) (p ∷ ps) (m ∷ ms) ks = answer (shown m (first ks)) t p ∷ answers ts ps ms (rest ks)
answers _ _ _ ks = []

abbrev extend : Tensor ℕ → List ℕ → Tensor ℕ
extend (r ∷ rows) (t ∷ ts) = (r ++ t ∷ []) ∷ extend rows ts
extend _ _ = []

abbrev grow : Past ℕ → List ℕ → Past ℕ
grow [] ts = []
grow ((k, v) ∷ past) ts = (extend k ts, extend v ts) ∷ []

abbrev pub toy : Backend
toy = record {
  Score = ℕ;
  gt = λ x y. ltb y x;
  half = 50;
  complement = λ p. 100 - p;
  np_maximum = max;
  Hidden = ℕ;
  dim = λ _. 4;
  Column = ℕ;
  zeros = 0;
  Logits = ℕ;
  argmax = λ n. n;
  prefill = λ prompt. record {
    past_key_values = single ((prompt, prompt) ∷ []);
    logits = answer prompt 0 0 ∷ [];
    hidden = sum prompt ∷ [];
  };
  decode = λ batch. record {
    past_key_values = grow batch.past batch.input_ids;
    logits = answers batch.input_ids batch.position_ids batch.attention_mask (keys_of batch.past);
    hidden = answers batch.input_ids batch.position_ids batch.attention_mask (keys_of batch.past);
  };
  detokenize = λ ids. "text";
}

abbrev pub toy_row : SeqRows ℕ → ℕ → ℕ → RowOutput toy
toy_row rows token position = record {
  columns = (token, token) ∷ [];
  logits = answer (row_keys rows) token position;
  hidden = answer (row_keys rows) token position;
}

extend_lem :
    (i token : ℕ) (k : Tensor ℕ) (ts : List ℕ) (row : List ℕ)
    → get_elem? ts i ≡ some token
    → get_elem? k i ≡ some row
    → get_elem? (extend k ts) i ≡ some (row ++ token ∷ [])
extend_lem i token [] ts row e f = absurd cc
extend_lem i token (r ∷ k) [] row e f = absurd cc
extend_lem zero token (r ∷ k) (t ∷ ts) row e f = ground arith
extend_lem (suc i) token (r ∷ k) (t ∷ ts) row e f = extend_lem i token k ts row e f

-- The keys of row `i`, and none where the cache has no layer.
abbrev IsKeys : ℕ → Tensor ℕ → List ℕ → Type 0
IsKeys i [] seen = seen ≡ []
IsKeys zero (r ∷ ks) seen = r ≡ seen
IsKeys (suc i) (r ∷ ks) seen = IsKeys i ks seen

get-IsKeys : (i : ℕ) (ks : Tensor ℕ) (seen : List ℕ) → get_elem? ks i ≡ some seen → IsKeys i ks seen
get-IsKeys i [] seen e = absurd cc
get-IsKeys zero (r ∷ ks) seen e = ground arith
get-IsKeys (suc i) (r ∷ ks) seen e = get-IsKeys i ks seen e

answers_lem :
    (i token position : ℕ) (mask : List Bool) (seen : List ℕ) (ts ps : List ℕ)
    (ms : List (List Bool)) (ks : Tensor ℕ)
    → get_elem? ts i ≡ some token
    → get_elem? ps i ≡ some position
    → get_elem? ms i ≡ some mask
    → IsKeys i ks seen
    → get_elem? (answers ts ps ms ks) i ≡ some (answer (shown mask seen) token position)
answers_lem i token position mask seen [] ps ms ks e f g h = absurd cc
answers_lem i token position mask seen (t ∷ ts) [] ms ks e f g h = absurd cc
answers_lem i token position mask seen (t ∷ ts) (p ∷ ps) [] ks e f g h = absurd cc
answers_lem zero token position mask seen (t ∷ ts) (p ∷ ps) (m ∷ ms) [] e f g h = ground arith
answers_lem zero token position mask seen (t ∷ ts) (p ∷ ps) (m ∷ ms) (r ∷ ks) e f g h = ground arith
answers_lem (suc i) token position mask seen (t ∷ ts) (p ∷ ps) (m ∷ ms) [] e f g h =
    answers_lem i token position mask seen ts ps ms [] e f g h
answers_lem (suc i) token position mask seen (t ∷ ts) (p ∷ ps) (m ∷ ms) (r ∷ ks) e f g h =
    answers_lem i token position mask seen ts ps ms ks e f g h

shown_none : (mask : List Bool) → shown {C = ℕ} mask [] ≡ []
shown_none [] = refl
shown_none (bit ∷ mask) = refl

append_none : (rows : SeqRows ℕ) → append_columns rows [] ≡ []
append_none [] = refl
append_none (l ∷ rows) = refl

pub decode_lem :
    (batch : Batch ℕ) (i token position : ℕ) (mask : List Bool) (past : Past ℕ) (rows : SeqRows ℕ)
    → get_elem? batch.input_ids i ≡ some token
    → get_elem? batch.position_ids i ≡ some position
    → get_elem? batch.attention_mask i ≡ some mask
    → IsRow i past rows
    → let out = toy_row (visible mask rows) token position in
      (get_elem? (answers batch.input_ids batch.position_ids batch.attention_mask (keys_of past)) i
        ≡ some out.logits)
      × (get_elem?
            (answers batch.input_ids batch.position_ids batch.attention_mask (keys_of past))
            i
          ≡ some out.hidden)
      × IsRow i (grow past batch.input_ids) (append_columns rows out.columns)
decode_lem batch i token position mask [] [] e f g h =
    let a =
      answers_lem i token position mask [] batch.input_ids batch.position_ids batch.attention_mask
        [] e f g refl in
    let b =
      subst
        (λ seen.
          get_elem? (answers batch.input_ids batch.position_ids batch.attention_mask []) i
          ≡ some (answer seen token position))
        (shown_none mask) a in
    (b, b, tt)
decode_lem batch i token position mask [] (r ∷ rows) e f g h = absurd h
decode_lem batch i token position mask (l ∷ past) [] e f g h = absurd h
decode_lem batch i token position mask ((k, v) ∷ past) ((kr, vr) ∷ rows) e f g (hk, hv, h) =
    let a =
      answers_lem i token position mask kr batch.input_ids batch.position_ids batch.attention_mask k
        e f g (get-IsKeys i k kr hk) in
    (
      a,
      a,
      (
        extend_lem i token k batch.input_ids kr e hk,
        extend_lem i token v batch.input_ids vr e hv,
        rw (append_none rows) tt,
      ),
    )

abbrev pub toy-IsRowWise : IsRowWise toy
toy-IsRowWise = record {
  n_layers = 1;
  some_layer = omega arith;
  prompt_rows = λ prompt. (prompt, prompt) ∷ [];
  prompt_logits = λ prompt. answer prompt 0 0;
  row = toy_row;
  prefill_past = λ prompt some_token. refl;
  prefill_logits = λ prompt some_token. refl;
  prefill_layers = λ prompt some_token. refl;
  prefill_length = λ prompt some_token. ((refl, refl), tt);
  row_layers = λ rows token position e. refl;
  decode_row = λ batch m i token position mask rows shaped new e f g h.
      decode_lem batch i token position mask batch.past rows e f g h;
}
