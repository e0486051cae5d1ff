-- ===== src/Surface/Counting.antt =====
-- How often a sequence number occurs in a list of them.
use agent_runtime_notes.Base.{
  List, [], ap, arith, count, drop, if◌then◌else◌, spliced, take, take-append-drop, ℕ, drop-drop,
  ◌++◌, ◌+◌, ◌==◌, ◌∷◌, ◌≡◌,
}

abbrev pub occurrences : ℕ → List ℕ → ℕ
occurrences n [] = 0
occurrences n (x ∷ xs) = (if x == n then 1 else 0) + occurrences n xs

pub occurrences-append :
    (n : ℕ) (xs ys : List ℕ) → occurrences n (xs ++ ys) ≡ occurrences n xs + occurrences n ys
occurrences-append n [] ys = omega arith
occurrences-append n (x ∷ xs) ys = omega (arith, occurrences-append n xs ys)

pub occurrences-take-drop :
    (n k : ℕ) (xs : List ℕ)
    → occurrences n (take k xs) + occurrences n (drop k xs) ≡ occurrences n xs
occurrences-take-drop n k xs = omega (
  arith,
  occurrences-append n (take k xs) (drop k xs),
  ap (occurrences n) (take-append-drop k xs),
)

-- What a splice takes out and what it leaves are what was there and what it puts in.
pub occurrences-spliced :
    (n : ℕ) (xs : List ℕ) (start count : ℕ) (ys : List ℕ)
    → occurrences n (spliced xs start count ys) + occurrences n (take count (drop start xs))
      ≡ occurrences n xs + occurrences n ys
occurrences-spliced n xs start count ys =
    let whole = occurrences-take-drop n start xs in
    let tail = occurrences-take-drop n count (drop start xs) in
    let rest = ap (occurrences n) (drop-drop start count xs) in
    let outer = occurrences-append n (take start xs) (ys ++ drop (start + count) xs) in
    let inner = occurrences-append n ys (drop (start + count) xs) in omega arith
