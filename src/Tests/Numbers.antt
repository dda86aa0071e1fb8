-- ===== src/Tests/Numbers.antt =====
-- Integers in the place of float64, for runs: a literal keeps its whole part and division rounds.
use mechmind.Base.Int.{sub_ℕ, negsuc, pos, ℤ}
use mechmind.Base.{
  ◌^◌, ◌^◌, ℕ, zero, suc, ◌+◌, ◌*◌, ◌/◌, ◌≡◌, refl, Bool, true, false, ltb, if◌then◌else◌,
}
use mechmind.Base.Float.{Floats}

pub lt_ℤ : ℤ → ℤ → Bool
lt_ℤ (pos a) (pos b) = ltb a b
lt_ℤ (pos a) (negsuc b) = false
lt_ℤ (negsuc a) (pos b) = true
lt_ℤ (negsuc a) (negsuc b) = ltb b a

pub neg_ℤ : ℤ → ℤ
neg_ℤ (pos zero) = pos 0
neg_ℤ (pos (suc n)) = negsuc n
neg_ℤ (negsuc n) = pos (suc n)

pub abs_ℤ : ℤ → ℤ
abs_ℤ (pos n) = pos n
abs_ℤ (negsuc n) = pos (suc n)

pub add_ℤ : ℤ → ℤ → ℤ
add_ℤ (pos a) (pos b) = pos (a + b)
add_ℤ (pos a) (negsuc b) = sub_ℕ a (suc b)
add_ℤ (negsuc a) (pos b) = sub_ℕ b (suc a)
add_ℤ (negsuc a) (negsuc b) = negsuc (suc (a + b))

pub mul_ℤ : ℤ → ℤ → ℤ
mul_ℤ (pos a) (pos b) = pos (a * b)
mul_ℤ (pos a) (negsuc b) = neg_ℤ (pos (a * suc b))
mul_ℤ (negsuc a) (pos b) = neg_ℤ (pos (suc a * b))
mul_ℤ (negsuc a) (negsuc b) = pos (suc a * suc b)

pub div_ℤ : ℤ → ℤ → ℤ
div_ℤ (pos a) (pos b) = pos (a / b)
div_ℤ (pos a) (negsuc b) = neg_ℤ (pos (a / suc b))
div_ℤ (negsuc a) (pos b) = neg_ℤ (pos (suc a / b))
div_ℤ (negsuc a) (negsuc b) = pos (suc a / suc b)

pub dec_ℤ : ℕ → ℕ → ℤ
dec_ℤ m zero = pos m
dec_ℤ m (suc k) = pos (m / 10 ^ suc k)

pub lt_ℤ-dec_ℤ : (m n : ℕ) → lt_ℤ (dec_ℤ m 0) (dec_ℤ n 0) ≡ ltb m n
unfolding lt_ℤ dec_ℤ
lt_ℤ-dec_ℤ m n = refl

abbrev pub whole : Floats
whole = record {
  F = ℤ;
  dec = dec_ℤ;
  of_int = λ n. n;
  neg = neg_ℤ;
  add = add_ℤ;
  sub = λ a b. add_ℤ a (neg_ℤ b);
  mul = mul_ℤ;
  div = div_ℤ;
  abs = abs_ℤ;
  max = λ a b. if lt_ℤ a b then b else a;
  lt = lt_ℤ;
  trunc = λ a. a;
  lt-dec = lt_ℤ-dec_ℤ;
}
