-- ===== src/History/Reading/Tail.antt =====
-- The bounded deque keeps exactly the last lines, and never more than the limit between rounds.
use memory_atlas_server.Prelude.{
  ℕ, suc, ◌+◌, ◌-◌, ◌≤◌, ◌<◌, ◌≡◌, ◌∙◌, sym, ap, List, [], ◌∷◌, ◌++◌, arith, length, drop,
  length-append, length-drop, append_assoc, append-nil, drop-append_left, ltb, Text, Bool-cases,
  inl, inr,
}
use memory_atlas_server.History.Reading.{tail_lines}

-- The last `n` entries of a list, all of them where there are fewer.
abbrev pub last {ℓ} : {A : Type ℓ} → ℕ → List A → List A
last n xs = drop (length xs - n) xs

last-cons {ℓ} :
    {A : Type ℓ} (n : ℕ) (x : A) (xs : List A) → n ≤ length xs → last n (x ∷ xs) ≡ last n xs
last-cons n x xs h =
    let e : suc (length xs) - n ≡ suc (length xs - n) = omega arith in ap (λ k. drop k (x ∷ xs)) e

last-drop_one {ℓ} :
    {A : Type ℓ} (n : ℕ) (xs : List A) → n < length xs → last n (drop 1 xs) ≡ last n xs
last-drop_one n [] h = elim h [ ]
last-drop_one n (x ∷ xs) h = sym (last-cons n x xs (omega arith))

last-whole {ℓ} : {A : Type ℓ} (n : ℕ) (xs : List A) → length xs ≤ n → last n xs ≡ xs
last-whole n xs h = let e : length xs - n ≡ 0 = omega arith in ap (λ k. drop k xs) e

-- The loop over the bounded deque, from a deque within the limit, gives exactly the last `limit`
-- lines of the deque followed by the file.
pub tail_lines-last :
    (limit : ℕ) (tail lines : List Text)
    → length tail ≤ limit
    → tail_lines limit tail lines ≡ last limit (tail ++ lines)
unfolding tail_lines
tail_lines-last limit tail [] h = rw append-nil (sym (last-whole limit tail h))
tail_lines-last limit tail (line ∷ lines) h = elim (Bool-cases (ltb limit (length pushed))) [
  | inl over ↦ rw over (
      tail_lines-last limit (drop 1 pushed) lines (omega (arith, size, length-drop 1 pushed))
      ∙ (ap (last limit) (sym (drop-append_left 1 pushed lines (omega (arith, size))))
          ∙ (last-drop_one limit (pushed ++ lines) (ground (arith, length-append pushed lines))
              ∙ ap (last limit) (append_assoc tail (line ∷ []) lines))))
  | inr fits ↦ rw fits (
      tail_lines-last limit pushed lines (ground arith)
      ∙ ap (last limit) (append_assoc tail (line ∷ []) lines))
]
  where
    pushed : List Text
    pushed = tail ++ line ∷ []

    size : length pushed ≡ length tail + 1
    size = length-append tail (line ∷ [])
