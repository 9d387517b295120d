-- ===== src/Tests/Answers.antt =====
-- Answers that are found in responses.
use probe_guided_inference.Base.{◌≡◌, refl, some, none, List, [], ◌∷◌, arith}
use probe_guided_inference.Answers.Boxed.{render, extract_answer-render}
use probe_guided_inference.Answers.{
  Text, codes, extract_answer, findall, boxed, stated, number, after_last_mark, strip, lstrip,
  rstrip, is_space, after_literal, run_of, fraction,
}

abbrev shown : List (Text × Text)
shown = (codes "so ", codes "1") ∷ (codes " or ", codes " 12 ") ∷ []

last_box : extract_answer (codes "so \\boxed{ 12 } or \\boxed{ 1{3} ok 77") ≡ some (codes "1{3")
unfolding extract_answer findall boxed stated number after_last_mark strip lstrip rstrip is_space
    after_literal run_of fraction
last_box = refl

said : extract_answer (codes "The answer is  $1,204. <think> 5") ≡ some (codes "1,204.")
unfolding extract_answer findall boxed stated number after_last_mark strip lstrip rstrip is_space
    after_literal run_of fraction
said = refl

last_number : extract_answer (codes "<think> 5 and 7.25</think> x $3 y 4.5. z</think>") ≡ none
unfolding extract_answer findall boxed stated number after_last_mark strip lstrip rstrip is_space
    after_literal run_of fraction
last_number = refl

last_decimal :
    extract_answer (codes "<think> 5 and 7.25</think> x $3 y 4.5. z") ≡ some (codes "4.5")
unfolding extract_answer findall boxed stated number after_last_mark strip lstrip rstrip is_space
    after_literal run_of fraction
last_decimal = refl

extract_answer-render_example :
    (findall boxed 0 (render shown (codes " done")) ≡ codes "1" ∷ codes " 12 " ∷ [])
    × (extract_answer (render shown (codes " done")) ≡ some (strip (codes " 12 ")))
extract_answer-render_example =
    extract_answer-render ((codes "so ", codes "1") ∷ []) (codes " or ") (codes " 12 ")
      (codes " done") (omega arith) (omega arith)
