-- ===== src/Answers.antt =====
-- benchmark/aime_loader.py: the answer in a response, and its normal form. A text is the list of its code
-- points. The dataset is what a library loads.
pub mod Boxed
use Prim.Native.Char.{code}
use Prim.Native.String
use probe_guided_inference.Base.{
  ℕ, zero, suc, ◌+◌, ◌-◌, Bool, true, false, ◌&&◌, ◌||◌, not, String, Option, none, some, List, [],
  ◌∷◌, ◌++◌, ◌==◌, ltb, leb, length, get_last?, select, if◌then◌else◌,
}

abbrev pub Text : Type 0
Text = List ℕ

abbrev pub codes : String → Text
codes String.[] = []
codes (String.◌∷◌ c s) = code c ∷ codes s

abbrev pub between : ℕ → ℕ → ℕ → Bool
between low high c = leb low c && leb c high

-- `str.isspace`, and `\s`
unfoldable pub is_space : ℕ → Bool
is_space c =
    between 9 13 c
    || between 28 32 c
    || (c == 133)
    || (c == 160)
    || (c == 5760)
    || between 8192 8202 c
    || between 8232 8233 c
    || (c == 8239)
    || (c == 8287)
    || (c == 12288)

abbrev pub is_digit : ℕ → Bool
is_digit c = between b'0' b'9' c

-- `[0-9\-\/\.\,]`
abbrev pub is_answer_char : ℕ → Bool
is_answer_char c = is_digit c || (c == b'-') || (c == b'/') || (c == b'.') || (c == b',')

unfoldable pub lstrip : Text → Text
unfolding is_space
lstrip [] = []
lstrip (c ∷ cs) = if is_space c then lstrip cs else c ∷ cs

unfoldable pub rstrip : Text → Text
unfolding is_space
rstrip [] = []
rstrip (c ∷ cs) = elim (rstrip cs) [ [] ↦ if is_space c then [] else c ∷ [] | d ∷ ds ↦ c ∷ d ∷ ds ]

-- `text.strip()`
unfoldable pub strip : Text → Text
unfolding lstrip rstrip
strip text = rstrip (lstrip text)

-- What is left of the text behind the literal, if the text begins with it.
unfoldable pub after_literal : Text → Text → Option Text
after_literal [] text = some text
after_literal (p ∷ ps) [] = none
after_literal (p ∷ ps) (c ∷ cs) = if p == c then after_literal ps cs else none

-- The longest run of characters of a class, and what is behind it.
unfoldable pub run_of : (ℕ → Bool) → Text → Text × Text
run_of keep [] = ([], [])
run_of keep (c ∷ cs) =
    let rest = run_of keep cs in if keep c then (c ∷ rest.0, rest.1) else ([], c ∷ cs)

-- The group of a match that begins here, and what is left behind the match.
abbrev pub Match : Type 0
Match = Option (Text × Text)

-- `re.findall`: `skip` characters belong to the last match.
unfoldable pub findall : (Text → Match) → ℕ → Text → List Text
findall pattern skip [] = []
findall pattern (suc skip) (c ∷ cs) = findall pattern skip cs
findall pattern zero (c ∷ cs) = elim (pattern (c ∷ cs)) [
  | none ↦ findall pattern zero cs
  | some (group, rest) ↦ group ∷ findall pattern (length cs - length rest) cs
]

abbrev pub not_empty : Text × Text → Match
not_empty ([], rest) = none
not_empty (c ∷ cs, rest) = some (c ∷ cs, rest)

-- `\\boxed\{([^}]+)\}`
unfoldable pub boxed : Text → Match
unfolding after_literal run_of
boxed text = elim (after_literal (codes "\\boxed{") text) [
  | none ↦ none
  | some inner ↦ elim (not_empty (run_of (λ c. not (c == b'}')) inner)) [
    | none ↦ none
    | some (group, rest) ↦ elim rest [ [] ↦ none | c ∷ cs ↦ some (group, cs) ]
  ]
]

-- `\$?`
abbrev pub optional_dollar : Text → Text
optional_dollar [] = []
optional_dollar (c ∷ cs) = if c == b'$' then cs else c ∷ cs

-- `[Tt]he answer is\s*\$?([0-9\-\/\.\,]+)`
unfoldable pub stated : Text → Match
unfolding after_literal run_of lstrip
stated [] = none
stated (c ∷ cs) =
    if (c == b'T') || (c == b't')
    then elim (after_literal (codes "he answer is") cs) [
      | none ↦ none
      | some rest ↦ not_empty (run_of is_answer_char (optional_dollar (lstrip rest)))
    ]
    else none

-- `(?:\.[0-9]+)?`
unfoldable pub fraction : Text → Text × Text
unfolding run_of
fraction [] = ([], [])
fraction (c ∷ cs) =
    if c == b'.'
    then elim (not_empty (run_of is_digit cs)) [
      | none ↦ ([], c ∷ cs)
      | some (digits, rest) ↦ (c ∷ digits, rest)
    ]
    else ([], c ∷ cs)

-- `\$?([0-9]+(?:\.[0-9]+)?)`
unfoldable pub number : Text → Match
unfolding run_of fraction
number text = elim (not_empty (run_of is_digit (optional_dollar text))) [
  | none ↦ none
  | some (digits, rest) ↦ some (digits ++ (fraction rest).0, (fraction rest).1)
]

-- `response.split("</think>")[-1]`, which is the response where the mark is not in it: what stands
-- behind the last mark. `rest` is what stands behind the last one so far.
unfoldable pub after_last_mark : Text → Text → Text
unfolding after_literal
after_last_mark rest [] = rest
after_last_mark rest (c ∷ cs) =
    after_last_mark
      (elim (after_literal (codes "</think>") (c ∷ cs)) [ none ↦ rest | some behind ↦ behind ]) cs

abbrev pub last_stripped : List Text → Option Text
last_stripped matches = elim (get_last? matches) [ none ↦ none | some m ↦ some (strip m) ]

abbrev pub or_else : Option Text → Option Text → Option Text
or_else none other = other
or_else (some text) other = some text

unfoldable pub extract_answer : Text → Option Text
unfolding findall boxed stated number after_last_mark strip
extract_answer response = or_else (last_stripped (findall boxed 0 response)) (
    or_else (last_stripped (findall stated 0 response))
      (last_stripped (findall number 0 (after_last_mark response response))))

-- Python's `str(float(text))`, `none` where `float` raises ValueError, and `str.lower`.
pub record Strings : Type 0 where
  pub float_text : Text → Option Text
  pub lower : Text → Text

unfoldable pub normalize : Strings → Text → Text
unfolding strip
normalize strings ans =
    let bare = strip (select (λ c. not ((c == b',') || (c == b'$'))) ans) in
    elim (strings.float_text bare) [ none ↦ strip (strings.lower bare) | some text ↦ text ]

unfoldable pub normalize_answer : Strings → Option Text → Option Text
unfolding normalize
normalize_answer strings none = none
normalize_answer strings (some ans) = some (normalize strings ans)
