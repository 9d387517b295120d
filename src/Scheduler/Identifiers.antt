-- ===== src/Scheduler/Identifiers.antt =====
-- The lists of identifiers that decoding and routing return: membership and multiplicity, in the
-- union that the loop in src/scheduler.py goes through.
use probe_guided_inference.Base.{
  ℕ, ◌+◌, ◌≤◌, Bool, true, false, ◌||◌, not, ◌≡◌, ◌≢◌, refl, ap, List, [], ◌∷◌, ◌++◌, arith, ◌==◌,
  ==_iff, Bool-cases, select, if◌then◌else◌,
}
use probe_guided_inference.Scheduler.Loop.{contains, union}
use probe_guided_inference.Scheduler.Places.{one_if}

abbrev pub count : ℕ → List ℕ → ℕ
count k [] = 0
count k (n ∷ ns) = one_if (n == k) + count k ns

contains-append :
    (k : ℕ) (xs ys : List ℕ) → contains k (xs ++ ys) ≡ (contains k xs || contains k ys)
contains-append k [] ys = refl
contains-append k (x ∷ xs) ys = ground (arith, contains-append k xs ys)

contains-select :
    (k : ℕ) (keep : ℕ → Bool) (ys : List ℕ)
    → keep k ≡ true
    → contains k (select keep ys) ≡ contains k ys
contains-select k keep [] h = refl
contains-select k keep (y ∷ ys) h =
    let rest = contains-select k keep ys h in
    let same = λ (e : y ≡ k). ap keep e in ground (arith, (==_iff y k).0, same)

pub contains-union :
    (k : ℕ) (xs ys : List ℕ) → contains k (union xs ys) ≡ (contains k xs || contains k ys)
contains-union k xs ys = ground (
  arith,
  contains-append k xs (select (λ y. not (contains y xs)) ys),
  contains-select k (λ y. not (contains y xs)) ys,
)

count-append : (k : ℕ) (xs ys : List ℕ) → count k (xs ++ ys) ≡ count k xs + count k ys
count-append k [] ys = omega arith
count-append k (x ∷ xs) ys = omega (arith, count-append k xs ys)

count-select-le : (k : ℕ) (keep : ℕ → Bool) (ys : List ℕ) → count k (select keep ys) ≤ count k ys
count-select-le k keep [] = omega arith
count-select-le k keep (y ∷ ys) = ground (arith, count-select-le k keep ys)

count-select-dropped :
    (k : ℕ) (keep : ℕ → Bool) (ys : List ℕ) → keep k ≡ false → count k (select keep ys) ≡ 0
count-select-dropped k keep [] h = refl
count-select-dropped k keep (y ∷ ys) h =
    let same = λ (e : y ≡ k). ap keep e in
    ground (arith, count-select-dropped k keep ys h, (==_iff y k).0, same)

count_absent : (k : ℕ) (xs : List ℕ) → contains k xs ≡ false → count k xs ≡ 0
count_absent k [] h = refl
count_absent k (x ∷ xs) h = ground (arith, count_absent k xs)

-- What both lists hold at most `n` times is in the union at most `n` times.
pub count-union-le :
    (k n : ℕ) (xs ys : List ℕ) → count k xs ≤ n → count k ys ≤ n → count k (union xs ys) ≤ n
count-union-le k n xs ys hx hy = ground (
  arith,
  count-append k xs (select (λ y. not (contains y xs)) ys),
  count-select-le k (λ y. not (contains y xs)) ys,
  count-select-dropped k (λ y. not (contains y xs)) ys,
  count_absent k xs,
  Bool-cases (contains k xs),
)

pub contains-if_self :
    (d : Bool) (k j : ℕ) (rest : List ℕ)
    → j ≡ k
    → contains k rest ≡ false
    → contains k (if d then j ∷ rest else rest) ≡ d
contains-if_self d k j rest e absent = ground arith

pub contains-if_ne :
    (d : Bool) (k j : ℕ) (rest : List ℕ)
    → j ≢ k
    → contains k (if d then j ∷ rest else rest) ≡ contains k rest
contains-if_ne d k j rest e = ground arith
