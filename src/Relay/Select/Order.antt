-- ===== src/Relay/Select/Order.antt =====
-- relay.go: the order that the fallback of SelectNodeExcluding sorts by is one: it is transitive.
use native.Mathlib.Nat.{mul-lt-mul_of_pos_right, lt_of_mul-lt-mul_right}
use xtunnel.Base.{ℕ, zero, suc, ◌*◌, ◌<◌, ◌≡◌, true, arith, ltb→lt, lt→ltb}
use xtunnel.Relay.Fraction.{Frac, lt_frac}
use xtunnel.Relay.Nodes.{RelayNode}
use xtunnel.Relay.Select.{before}

factors_pos : (x y z : ℕ) → z < x * y → (0 < x) × (0 < y)
factors_pos zero y z h = absurd (omega arith)
factors_pos (suc x) zero z h = absurd (omega arith)
factors_pos (suc x) (suc y) z h = (omega arith, omega arith)

cross : (a b c d e f : ℕ) → a * d < c * b → c * f < e * d → a * f < e * b
cross a b c d e zero first second =
    let p = factors_pos c b (a * d) first in
    let q = factors_pos e d (c * zero) second in omega (arith, mul-lt-mul_of_pos_right q.0 p.1)
cross a b c d e (suc f) first second =
    let p = factors_pos c b (a * d) first in
    lt_of_mul-lt-mul_right d
      (omega (arith, mul-lt-mul_of_pos_right first (suc_pos f), mul-lt-mul_of_pos_right second p.1))
  where
    suc_pos : (n : ℕ) → 0 < suc n
    suc_pos n = omega arith

lt_frac_trans : (a b c : Frac) → lt_frac a b ≡ true → lt_frac b c ≡ true → lt_frac a c ≡ true
lt_frac_trans a b c first second = lt→ltb (a.num * c.den) (c.num * a.den) (
    cross a.num a.den b.num b.den c.num c.den (ltb→lt (a.num * b.den) (b.num * a.den) first)
      (ltb→lt (b.num * c.den) (c.num * b.den) second))

-- A node that comes before one that comes before a third comes before the third.
pub before_trans : (a b c : RelayNode) → before a b ≡ true → before b c ≡ true → before a c ≡ true
before_trans a b c first second = ground (arith, lt_frac_trans c.score b.score a.score)
