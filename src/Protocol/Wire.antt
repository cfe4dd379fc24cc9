-- ===== src/Protocol/Wire.antt =====
-- What protocol/protocol.go takes from encoding/binary: unsigned numbers in big-endian order.
-- `slice b i j` is Go's `b[i:j]` for i <= j <= len(b).
use mathlib.Core.List.{append_assoc}
use xtunnel.Base.{
  ◌++◌, length, length-append, take-append, drop-append, ap, ◌∙◌, ℕ, ◌+◌, ◌-◌, ◌*◌, ◌/◌, ◌%◌, ◌^◌,
  ◌<◌, ◌≡◌, [], ◌∷◌, arith, take, drop, get_or, Bytes, AreBytes,
}

abbrev pub slice : Bytes → ℕ → ℕ → Bytes
slice b i j = take (j - i) (drop i b)

-- `binary.BigEndian.PutUint16` and `PutUint32` of a number that was converted to the width.
unfoldable pub put_u16 : ℕ → Bytes
put_u16 n = let v = n % 2 ^ 16 in (v / 256) ∷ (v % 256) ∷ []

unfoldable pub put_u32 : ℕ → Bytes
put_u32 n =
    let v = n % 2 ^ 32 in (v / 2 ^ 24) ∷ (v / 2 ^ 16 % 256) ∷ (v / 2 ^ 8 % 256) ∷ (v % 256) ∷ []

unfoldable pub u16 : Bytes → ℕ
u16 b = get_or b 0 0 * 256 + get_or b 1 0

unfoldable pub u32 : Bytes → ℕ
u32 b = ((get_or b 0 0 * 256 + get_or b 1 0) * 256 + get_or b 2 0) * 256 + get_or b 3 0

pub u16-put_u16 : (n : ℕ) → u16 (put_u16 n) ≡ n % 2 ^ 16
unfolding u16 put_u16
u16-put_u16 n = omega arith

pub u32-put_u32 : (n : ℕ) → u32 (put_u32 n) ≡ n % 2 ^ 32
unfolding u32 put_u32
u32-put_u32 n = omega arith

pub put_u16-u16 : (a b : ℕ) → a < 256 → b < 256 → put_u16 (u16 (a ∷ b ∷ [])) ≡ a ∷ b ∷ []
unfolding u16 put_u16
put_u16-u16 a b ha hb = ground arith

pub put_u32-u32 :
    (a b c d : ℕ)
    → a < 256
    → b < 256
    → c < 256
    → d < 256
    → put_u32 (u32 (a ∷ b ∷ c ∷ d ∷ [])) ≡ a ∷ b ∷ c ∷ d ∷ []
unfolding u32 put_u32
put_u32-u32 a b c d ha hb hc hd = ground arith

pub AreBytes-put_u32 : (n : ℕ) → AreBytes (put_u32 n)
unfolding put_u32
AreBytes-put_u32 n = omega arith

pub u16_lt : (a b : ℕ) → a < 256 → b < 256 → u16 (a ∷ b ∷ []) < 2 ^ 16
unfolding u16
u16_lt a b ha hb = omega arith

pub u32_lt :
    (a b c d : ℕ) → a < 256 → b < 256 → c < 256 → d < 256 → u32 (a ∷ b ∷ c ∷ d ∷ []) < 2 ^ 32
unfolding u32
u32_lt a b c d ha hb hc hd = omega arith

-- `b[i:j]` of three parts laid end to end.
pub slice-append :
    (xs ys zs : Bytes) (i j : ℕ)
    → i ≡ length xs
    → j ≡ length xs + length ys
    → slice (xs ++ (ys ++ zs)) i j ≡ ys
slice-append xs ys zs i j hi hj =
    rw (hi, hj, drop-append xs (ys ++ zs))
      (ap (λ n. take n (ys ++ zs)) (omega arith) ∙ take-append ys zs)

-- The second and the third of the parts behind a prefix.
pub slice-second :
    (h xs ys zs : Bytes) (i j : ℕ)
    → i ≡ length h + length xs
    → j ≡ length h + length xs + length ys
    → slice (h ++ (xs ++ (ys ++ zs))) i j ≡ ys
slice-second h xs ys zs i j hi hj = rw (← append_assoc h xs (ys ++ zs)) (
    slice-append (h ++ xs) ys zs i j (omega (arith, length-append h xs))
      (omega (arith, length-append h xs)))

pub slice-third :
    (h ws xs ys zs : Bytes) (i j : ℕ)
    → i ≡ length h + length ws + length xs
    → j ≡ length h + length ws + length xs + length ys
    → slice (h ++ (ws ++ (xs ++ (ys ++ zs)))) i j ≡ ys
slice-third h ws xs ys zs i j hi hj = rw (← append_assoc h ws (xs ++ (ys ++ zs))) (
    slice-second (h ++ ws) xs ys zs i j (omega (arith, length-append h ws))
      (omega (arith, length-append h ws)))
