-- ===== src/Answers/Boxed.antt =====
-- The boxes that `extract_answer` of benchmark/aime_loader.py looks for.
use probe_guided_inference.Base.{
  ℕ, ◌-◌, true, not, ◌≤◌, ◌≡◌, ◌≢◌, refl, ap, ◌∙◌, none, some, List, [], ◌∷◌, ◌++◌, arith, ◌==◌,
  All, length, length-append, get_last?, map, append_assoc,
}
use probe_guided_inference.Answers.{
  Text, Match, codes, after_literal, run_of, findall, boxed, strip, last_stripped, extract_answer,
}

-- `\boxed{x}`, with `rest` behind it
abbrev pub box : Text → Text → Text
box x rest = codes "\\boxed{" ++ (x ++ b'}' ∷ rest)

-- A text with boxes in it: each with the text in front of it, and what is behind the last one.
abbrev pub render : List (Text × Text) → Text → Text
render [] post = post
render ((pre, x) ∷ boxes) post = pre ++ box x (render boxes post)

abbrev pub HasNoBrace : Text → Type 0
HasNoBrace text = All (λ c. c ≢ b'{') text

-- What a box can hold: something, and no closing brace.
abbrev pub IsContent : Text → Type 0
IsContent x = (1 ≤ length x) × All (λ c. c ≢ b'}') x

box_none : (text : Text) → HasNoBrace text → after_literal (codes "\\boxed{") text ≡ none
unfolding after_literal
box_none [] h = refl
box_none (a ∷ []) h = ground arith
box_none (a ∷ b ∷ []) h = ground arith
box_none (a ∷ b ∷ c ∷ []) h = ground arith
box_none (a ∷ b ∷ c ∷ d ∷ []) h = ground arith
box_none (a ∷ b ∷ c ∷ d ∷ e ∷ []) h = ground arith
box_none (a ∷ b ∷ c ∷ d ∷ e ∷ f ∷ []) h = ground arith
box_none (a ∷ b ∷ c ∷ d ∷ e ∷ f ∷ g ∷ text) h = ground arith

-- No box begins in a text without an opening brace, and in front of a box.
before_none :
    (a : ℕ) (text z : Text)
    → HasNoBrace (a ∷ text)
    → after_literal (codes "\\boxed{") ((a ∷ text) ++ (codes "\\boxed{" ++ z)) ≡ none
unfolding after_literal
before_none a [] z h = ground arith
before_none a (b ∷ []) z h = ground arith
before_none a (b ∷ c ∷ []) z h = ground arith
before_none a (b ∷ c ∷ d ∷ []) z h = ground arith
before_none a (b ∷ c ∷ d ∷ e ∷ []) z h = ground arith
before_none a (b ∷ c ∷ d ∷ e ∷ f ∷ []) z h = ground arith
before_none a (b ∷ c ∷ d ∷ e ∷ f ∷ g ∷ text) z h = ground arith

findall-skip :
    (pattern : Text → Match) (a b : Text)
    → findall pattern (length a) (a ++ b) ≡ findall pattern 0 b
unfolding findall
findall-skip pattern [] b = refl
findall-skip pattern (c ∷ a) b = findall-skip pattern a b

module _ (pattern : Text → Match) (c : ℕ) (cs : Text) where
  findall-miss : pattern (c ∷ cs) ≡ none → findall pattern 0 (c ∷ cs) ≡ findall pattern 0 cs
  unfolding findall
  findall-miss e = rw (e, findall) refl

  findall-hit :
      (group rest : Text)
      → pattern (c ∷ cs) ≡ some (group, rest)
      → findall pattern 0 (c ∷ cs) ≡ group ∷ findall pattern (length cs - length rest) cs
  unfolding findall
  findall-hit group rest e = rw (e, findall) refl

run_of-content :
    (x rest : Text)
    → All (λ c. c ≢ b'}') x
    → run_of (λ c. not (c == b'}')) (x ++ b'}' ∷ rest) ≡ (x, b'}' ∷ rest)
unfolding run_of
run_of-content [] rest h = refl
run_of-content (c ∷ x) rest h =
    let later = run_of-content x rest h.1 in
    let kept : not (c == b'}') ≡ true = ground arith in rw (kept, later) refl

boxed-some :
    (text inner rest : Text) (c d : ℕ) (x : Text)
    → after_literal (codes "\\boxed{") text ≡ some inner
    → run_of (λ c. not (c == b'}')) inner ≡ (c ∷ x, d ∷ rest)
    → boxed text ≡ some (c ∷ x, rest)
unfolding boxed
boxed-some text inner rest c d x e f = rw e (rw f refl)

boxed-box : (x rest : Text) → IsContent x → boxed (box x rest) ≡ some (x, rest)
unfolding after_literal
boxed-box [] rest h = absurd (omega (arith, h.0))
boxed-box (c ∷ x) rest h =
    boxed-some (box (c ∷ x) rest) ((c ∷ x) ++ b'}' ∷ rest) rest c b'}' x refl
      (run_of-content (c ∷ x) rest h.1)

boxed-none : (text : Text) → after_literal (codes "\\boxed{") text ≡ none → boxed text ≡ none
unfolding boxed
boxed-none text e = rw e refl

-- A text without an opening brace holds no box.
findall-none : (text : Text) → HasNoBrace text → findall boxed 0 text ≡ []
unfolding findall
findall-none [] h = refl
findall-none (c ∷ text) h =
    findall-miss boxed c text (boxed-none (c ∷ text) (box_none (c ∷ text) h))
    ∙ findall-none text h.1

findall-box :
    (x rest : Text) → IsContent x → findall boxed 0 (box x rest) ≡ x ∷ findall boxed 0 rest
findall-box x rest h =
    let inside = codes "boxed{" ++ (x ++ b'}' ∷ []) in
    let whole : codes "boxed{" ++ (x ++ b'}' ∷ rest) ≡ inside ++ rest =
      rw (append_assoc x (b'}' ∷ []) rest) refl in
    let skipped : length (codes "boxed{" ++ (x ++ b'}' ∷ rest)) - length rest ≡ length inside =
      omega (arith, length-append {0} x (b'}' ∷ rest), length-append {0} x (b'}' ∷ [])) in
    findall-hit boxed b'\\' (codes "boxed{" ++ (x ++ b'}' ∷ rest)) x rest (boxed-box x rest h)
    ∙ ap (◌∷◌ x) (
        ap (λ n. findall boxed n (codes "boxed{" ++ (x ++ b'}' ∷ rest))) skipped
        ∙ ap (findall boxed (length inside)) whole
        ∙ findall-skip boxed inside rest)

findall-before :
    (pre x rest : Text)
    → HasNoBrace pre
    → findall boxed 0 (pre ++ box x rest) ≡ findall boxed 0 (box x rest)
findall-before [] x rest h = refl
findall-before (c ∷ pre) x rest h =
    findall-miss boxed c (pre ++ box x rest)
      (boxed-none ((c ∷ pre) ++ box x rest) (before_none c pre (x ++ b'}' ∷ rest) h))
    ∙ findall-before pre x rest h.1

abbrev pub AreBoxes : List (Text × Text) → Type 0
AreBoxes boxes = All (λ (p : Text × Text). HasNoBrace p.0 × IsContent p.1) boxes

-- The contents that are found in a rendered text.
findall-render :
    (boxes : List (Text × Text)) (post : Text)
    → AreBoxes boxes
    → HasNoBrace post
    → findall boxed 0 (render boxes post) ≡ map (λ p. p.1) boxes
findall-render [] post h n = findall-none post n
findall-render ((pre, x) ∷ boxes) post (h, hs) n =
    findall-before pre x (render boxes post) h.0
    ∙ findall-box x (render boxes post) h.1
    ∙ ap (◌∷◌ x) (findall-render boxes post hs n)

extract_boxed :
    (text x : Text) (matches : List Text)
    → findall boxed 0 text ≡ matches
    → get_last? matches ≡ some x
    → extract_answer text ≡ some (strip x)
unfolding extract_answer
extract_boxed text x matches e f = rw e (rw (f, last_stripped) refl)

-- Of a text that is written with boxes, one or more, each non-empty and without a closing brace
-- inside, and with no opening brace before, between and behind them, the pattern for boxes
-- finds exactly the contents in order, and the extracted answer is the content of the last box
-- without outer spaces, whatever else the text states.
pub extract_answer-render :
    (boxes : List (Text × Text)) (pre x post : Text)
    → AreBoxes (boxes ++ (pre, x) ∷ [])
    → HasNoBrace post
    → (findall boxed 0 (render (boxes ++ (pre, x) ∷ []) post)
        ≡ map (λ p. p.1) (boxes ++ (pre, x) ∷ []))
      × (extract_answer (render (boxes ++ (pre, x) ∷ []) post) ≡ some (strip x))
extract_answer-render boxes pre x post h n =
    let found = findall-render (boxes ++ (pre, x) ∷ []) post h n in
    (found, extract_boxed (render (boxes ++ (pre, x) ∷ []) post) x _ found (last boxes))
  where
    last :
        (bs : List (Text × Text))
        → get_last? (map (λ (p : Text × Text). p.1) (bs ++ (pre, x) ∷ [])) ≡ some x
    last [] = refl
    last (p ∷ []) = refl
    last (p ∷ q ∷ bs) = last (q ∷ bs)
