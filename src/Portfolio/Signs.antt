-- ===== src/Portfolio/Signs.antt =====
-- Signs of products, by which the book tells adds, closes and flips apart.
use intelligent_trading_syst.Base.{
  suc, zero, ◌≡◌, ◌&&◌, ◌||◌, ℤ, pos, negsuc, ◌*ℤ◌, *ℤ_parts, is_pos, is_neg, arith,
}

-- A product is negative exactly when the signs differ.
pub is_neg-* : (a b : ℤ) → is_neg (a *ℤ b) ≡ (is_pos a && is_neg b || is_neg a && is_pos b)
is_neg-* (pos zero) b = ground (arith, *ℤ_parts (pos zero) b)
is_neg-* (pos (suc m)) (pos n) = grind (arith, *ℤ_parts (pos (suc m)) (pos n))
is_neg-* (pos (suc m)) (negsuc n) = grind (arith, *ℤ_parts (pos (suc m)) (negsuc n))
is_neg-* (negsuc m) (pos n) = grind (arith, *ℤ_parts (negsuc m) (pos n))
is_neg-* (negsuc m) (negsuc n) = grind (arith, *ℤ_parts (negsuc m) (negsuc n))

-- A product is positive exactly when the signs agree.
pub is_pos-* : (a b : ℤ) → is_pos (a *ℤ b) ≡ (is_pos a && is_pos b || is_neg a && is_neg b)
is_pos-* (pos zero) b = ground (arith, *ℤ_parts (pos zero) b)
is_pos-* (pos (suc m)) (pos n) = grind (arith, *ℤ_parts (pos (suc m)) (pos n))
is_pos-* (pos (suc m)) (negsuc n) = grind (arith, *ℤ_parts (pos (suc m)) (negsuc n))
is_pos-* (negsuc m) (pos n) = grind (arith, *ℤ_parts (negsuc m) (pos n))
is_pos-* (negsuc m) (negsuc n) = grind (arith, *ℤ_parts (negsuc m) (negsuc n))
