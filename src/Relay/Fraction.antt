-- ===== src/Relay/Fraction.antt =====
-- Non-negative fractions, for the scores and weights that relay.go keeps as float64.
use xtunnel.Base.{ℕ, ◌+◌, ◌-◌, ◌*◌, Bool, ltb}

-- The denominator is positive wherever the code makes one.
pub record Frac : Type 0 where
  pub num : ℕ
  pub den : ℕ

abbrev pub whole : ℕ → Frac
whole n = record { num = n; den = 1 }

abbrev pub add_frac : Frac → Frac → Frac
add_frac a b = record { num = a.num * b.den + b.num * a.den; den = a.den * b.den }

abbrev pub mul_frac : Frac → Frac → Frac
mul_frac a b = record { num = a.num * b.num; den = a.den * b.den }

abbrev pub lt_frac : Frac → Frac → Bool
lt_frac a b = ltb (a.num * b.den) (b.num * a.den)

-- For a at most b below.
abbrev pub sub_frac : Frac → Frac → Frac
sub_frac a b = record { num = a.num * b.den - b.num * a.den; den = a.den * b.den }
