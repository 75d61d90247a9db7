-- ===== src/Base/Search.antt =====
-- Go's `sort.Search`: the smallest index at which a monotone test holds, by bisection.
use chrome.Base.{
  ℕ, zero, suc, ◌+◌, ◌/◌, ◌≤◌, ◌<◌, ◌≡◌, Bool, true, false, Bool-cases, inl, inr, arith, ltb,
  if◌then◌else◌,
}

-- The loop over `i` and `j`, with fuel.
pub search_loop : ℕ → (ℕ → Bool) → ℕ → ℕ → ℕ
search_loop zero f i j = i
search_loop (suc k) f i j =
    let h = (i + j) / 2 in
    let right = search_loop k f (h + 1) j in
    let left = search_loop k f i h in if ltb i j then (if f h then left else right) else i

unfoldable pub search : ℕ → (ℕ → Bool) → ℕ
unfolding search_loop
search n f = search_loop n f 0 n

-- Everything below `r` fails the test and everything from `r` on passes it.
pub record Splits (n : ℕ) (f : ℕ → Bool) (r : ℕ) : Type 0 where
  pub inside : r ≤ n
  pub before : (i : ℕ) → i < r → f i ≡ false
  pub after : (i : ℕ) → r ≤ i → i < n → f i ≡ true

abbrev pub IsMonotone : ℕ → (ℕ → Bool) → Type 0
IsMonotone n f = (i j : ℕ) → i ≤ j → j < n → f i ≡ true → f j ≡ true

module _ (n : ℕ) (f : ℕ → Bool) (mono : IsMonotone n f) where
  contra : (i j : ℕ) → i ≤ j → j < n → f j ≡ false → f i ≡ false
  contra i j p q h = elim (Bool-cases (f i)) [ inl t ↦ ground (arith, mono i j p q t) | inr e ↦ e ]

  loop_lem :
      (k i j : ℕ)
      → j < k + i + 1
      → i ≤ j
      → j ≤ n
      → ((m : ℕ) → m < i → f m ≡ false)
      → ((m : ℕ) → j ≤ m → m < n → f m ≡ true)
      → Splits n f (search_loop k f i j)
  unfolding search_loop
  loop_lem zero i j fuel p q lo hi = record {
    inside = omega arith;
    before = lo;
    after = λ m a b. hi m (omega arith) b;
  }
  loop_lem (suc k) i j fuel p q lo hi = elim (Bool-cases (ltb i j)) [
    | inl more ↦ elim (Bool-cases (f ((i + j) / 2))) [
      | inl passes ↦
          rw (more, passes)
            (loop_lem k i ((i + j) / 2) (ground arith) (ground arith) (ground arith) lo
              (λ m a b. mono ((i + j) / 2) m a b passes))
      | inr fails ↦
          rw (more, fails)
            (loop_lem k ((i + j) / 2 + 1) j (ground arith) (ground arith) q
              (λ m a. contra m ((i + j) / 2) (omega arith) (ground arith) fails) hi)
    ]
    | inr done ↦
        rw done
          (record { inside = ground arith; before = lo; after = λ m a b. hi m (ground arith) b })
  ]

  pub search-Splits : Splits n f (search n f)
  unfolding search
  search-Splits =
      loop_lem n 0 n (omega arith) (omega arith) (omega arith) (λ m h. absurd (omega arith))
        (λ m a b. absurd (omega arith))
