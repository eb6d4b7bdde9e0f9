-- ===== src/Utils/Fibonacci.antt =====
-- internal/utils/fibonacci.go. `int` has 64 bits, so the sums wrap.
use native.Mathlib.Decide.{dec_le}
use paota.Common.{ℕ, zero, suc, ◌+◌, ◌^◌, ◌≤◌, ◌<◌, ◌≡◌, refl, sym, ap, arith}
use paota.Common.Int.{ℤ, pos, negsuc, ◌+ℤ◌, wrap64}

fibonacci_ℕ : ℕ → ℤ
fibonacci_ℕ zero = pos 0
fibonacci_ℕ (suc zero) = pos 1
fibonacci_ℕ (suc (suc n)) = wrap64 (fibonacci_ℕ (suc n) +ℤ fibonacci_ℕ n)

-- `if n <= 1 { return n }`: a negative argument is its own result.
unfoldable pub fibonacci : ℤ → ℤ
unfolding fibonacci_ℕ
fibonacci (pos n) = fibonacci_ℕ n
fibonacci (negsuc n) = negsuc n

-- The Fibonacci numbers, and the pair of neighbours by which they are computed in one pass.
unfoldable pub fib : ℕ → ℕ
fib zero = 0
fib (suc zero) = 1
fib (suc (suc n)) = fib (suc n) + fib n

abbrev next_pair : ℕ × ℕ → ℕ × ℕ
next_pair (a, b) = (b, b + a)

abbrev fib_pair : ℕ → ℕ × ℕ
fib_pair zero = (0, 1)
fib_pair (suc n) = next_pair (fib_pair n)

fib_pair_lem : (n : ℕ) → fib_pair n ≡ (fib n, fib (suc n))
unfolding fib
fib_pair_lem zero = refl
fib_pair_lem (suc n) = ap next_pair (fib_pair_lem n)

pub fib-suc_mono : (n : ℕ) → fib n ≤ fib (suc n)
unfolding fib
fib-suc_mono zero = omega arith
fib-suc_mono (suc zero) = omega arith
fib-suc_mono (suc (suc n)) = omega (arith, fib-suc_mono (suc n), fib-suc_mono n)

-- The Fibonacci numbers grow with their index.
pub fib_mono : (m n : ℕ) → n ≤ m → fib n ≤ fib m
fib_mono zero zero h = omega arith
fib_mono zero (suc n) h = absurd (omega arith)
fib_mono (suc m) n h = elim (dec_le n m) [
  | yes below ↦ omega (arith, fib_mono m n below, fib-suc_mono m)
  | no above ↦ let e : n ≡ suc m = omega arith in rw e (omega arith)
]

pub fib_one : fib 1 ≡ 1
unfolding fib
fib_one = refl

fib_value : (n : ℕ) → fib n ≡ (fib_pair n).0
fib_value n = ap (λ (p : ℕ × ℕ). p.0) (sym (fib_pair_lem n))

pub fib_49 : fib 49 ≡ 7778742049
fib_49 = fib_value 49

pub fib_50 : fib 50 ≡ 12586269025
fib_50 = fib_value 50

fib_92 : fib 92 < 2 ^ 63
fib_92 = rw fib_value (omega arith)

wrap64-pos_add : (a b : ℕ) → a + b < 2 ^ 63 → wrap64 (pos a +ℤ pos b) ≡ pos (a + b)
unfolding wrap64 ◌+ℤ◌
wrap64-pos_add a b h = ground arith

fibonacci_ℕ-fib : (n : ℕ) → n ≤ 92 → fibonacci_ℕ n ≡ pos (fib n)
unfolding fibonacci_ℕ fib
fibonacci_ℕ-fib zero h = refl
fibonacci_ℕ-fib (suc zero) h = refl
fibonacci_ℕ-fib (suc (suc n)) h =
    rw (fibonacci_ℕ-fib (suc n) (omega arith), fibonacci_ℕ-fib n (omega arith))
      (wrap64-pos_add (fib (suc n)) (fib n) (omega (arith, fib_mono 92 (suc (suc n)) h, fib_92)))

-- Up to the 92nd the program's result is the Fibonacci number, with no overflow.
pub fibonacci-fib : (n : ℕ) → n ≤ 92 → fibonacci (pos n) ≡ pos (fib n)
unfolding fibonacci
fibonacci-fib n h = fibonacci_ℕ-fib n h
