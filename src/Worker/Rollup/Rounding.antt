-- ===== src/Worker/Rollup/Rounding.antt =====
-- Which percentages are computed, and how they are rounded.
use research_crafters.Prelude.{
  Bool, Bool-cases, arith, inl, inr, some, suc, zero, ℕ, ◌%◌, ◌&&◌, ◌*◌, ◌+◌, ◌-◌, ◌/◌, ◌<◌, ◌∙◌,
  ◌≡◌, ◌≢◌, ◌≤◌,
}
use research_crafters.Worker.Rollup.{compute_percent, is_half_way, round_to_five}
use native.Mathlib.Nat.{div-add-mod', div-mul-le_self, lt-div-mul-add}

-- A percentage is within two and a half of `100 * b / n`.
abbrev pub Nearest : ℕ → ℕ → ℕ → Type 0
Nearest p b n = (2 * (p * n) ≤ 200 * b + 5 * n) × (200 * b ≤ 2 * (p * n) + 5 * n)

fives-bounds : (a m : ℕ) → m ≢ 0 → (a / m * m ≤ a) × (a < a / m * m + m)
fives-bounds a m some_m = (div-mul-le_self a m, lt-div-mul-add (omega (arith, some_m)))

-- With `q` fives of `n` around `40 b + n`, `5 q` is nearest.
Nearest-fives :
    (b n q : ℕ) → q * (2 * n) ≤ 40 * b + n → 40 * b + n ≤ q * (2 * n) + 2 * n → Nearest (q * 5) b n
Nearest-fives b n q low high = grind arith

rounded-bound : (b n q : ℕ) → b ≤ n → n ≢ 0 → q * (2 * n) ≤ 40 * b + n → q ≤ 20
rounded-bound b n q le some_n low = grind arith

-- Around what is rounded stand so many fives.
abbrev Around : ℕ → ℕ → ℕ → Type 0
Around b n q = (q * (2 * n) ≤ 40 * b + n) × (40 * b + n ≤ q * (2 * n) + 2 * n)

one_less : (b n q : ℕ) → n ≢ 0 → q * (2 * n) ≡ 40 * b + n → Around b n (q - 1)
one_less b n zero some_n exact = absurd (omega (arith, some_n, exact))
one_less b n (suc q) some_n exact = (grind arith, grind arith)

round_to_five-Around :
    (falls_below : ℕ → ℕ → Bool) (b n : ℕ)
    → n ≢ 0
    → (q : ℕ) × (round_to_five falls_below b n ≡ q * 5) × Around b n q
round_to_five-Around falls_below b n some_n =
    let fives = (40 * b + n) / (2 * n) in
    let (low, high) = fives-bounds (40 * b + n) (2 * n) (omega (arith, some_n)) in
    let split = div-add-mod' (40 * b + n) (2 * n) in
    elim (Bool-cases (is_half_way b n && falls_below b n)) [
      | inl below ↦ (
        fives - 1,
        ground (arith, below),
        one_less b n fives some_n (ground (arith, below, split)),
      )
      | inr up ↦ (fives, ground (arith, up), (low, omega (arith, high)))
    ]

compute_percent-rounded :
    (falls_below : ℕ → ℕ → Bool) (b n p : ℕ)
    → compute_percent falls_below b n ≡ some p
    → (20 ≤ n) × (5 ≤ b) × (n ≢ 0) × (p ≡ round_to_five falls_below b n)
unfolding compute_percent
compute_percent-rounded falls_below b n p h =
    (ground (arith, h), ground (arith, h), λ e. ground (arith, h, e), ground (arith, h))

-- A percentage is published only of a node with at least 20 traversals and a branch with at least 5 of
-- them; it is the nearest multiple of 5, and at most 100 if the branch has no more traversals than its
-- node.
pub compute_percent-published :
    (falls_below : ℕ → ℕ → Bool) (b n p : ℕ)
    → compute_percent falls_below b n ≡ some p
    → (20 ≤ n) × (5 ≤ b) × (p % 5 ≡ 0) × (b ≤ n → p ≤ 100) × Nearest p b n
compute_percent-published falls_below b n p h =
    let (nodes, branches, some_n, rounded) = compute_percent-rounded falls_below b n p h in
    let (q, five, (low, high)) = round_to_five-Around falls_below b n some_n in
    let same : p ≡ q * 5 = rounded ∙ five in
    (
      nodes,
      branches,
      rw same (omega arith),
      λ le. rw same (omega (arith, rounded-bound b n q le some_n low)),
      rw same (Nearest-fives b n q low high),
    )
