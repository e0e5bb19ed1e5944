-- ===== src/Base/Double.antt =====
-- Positive double-precision numbers, as a numerator over a power of two, rounded to 53 bits as
-- Python's `float` does (to nearest, ties to even). Overflow and subnormal numbers are left out.
use Prim.Native.Nat.{ℕ, zero, suc, ◌+◌, ◌-◌, ◌*◌, ◌/◌, ◌%◌, ◌^◌}
use mathlib.Core.Bool.{Bool, ◌&&◌, ◌||◌}
use ipa_diagnose.Base.Tests.{if◌then◌else◌, eqb, ltb}

pub record Double : Type 0 where
  pub numerator : ℕ
  -- the exponent of the denominator
  pub scale : ℕ

-- The bits of `n`, of which there are at most `fuel`.
unfoldable pub bits : ℕ → ℕ → ℕ
bits zero n = 0
bits (suc fuel) n = let rest = bits fuel (n / 2) in if eqb n 0 then 0 else suc rest

-- A product of two numerators has at most 106 bits.
abbrev most_bits : ℕ
most_bits = 110

-- `n` without its last `d` bits, rounded.
abbrev shorten : ℕ → ℕ → ℕ
shorten n d =
    let q = n / 2 ^ d in
    let r = n % 2 ^ d in
    let half = 2 ^ (d - 1) in if ltb half r || (eqb r half && eqb (q % 2) 1) then q + 1 else q

unfoldable pub rounded : ℕ → ℕ → Double
unfolding bits
rounded n s =
    let d = bits most_bits n - 53 in
    if eqb d 0
    then record { numerator = n; scale = s }
    else record { numerator = shorten n d; scale = s - d }

unfoldable pub times : Double → Double → Double
unfolding rounded
times a b = rounded (a.numerator * b.numerator) (a.scale + b.scale)

unfoldable pub plus : Double → Double → Double
unfolding rounded
plus a b = rounded (a.numerator * 2 ^ b.scale + b.numerator * 2 ^ a.scale) (a.scale + b.scale)

unfoldable pub double_lt : Double → Double → Bool
double_lt a b = ltb (a.numerator * 2 ^ b.scale) (b.numerator * 2 ^ a.scale)

abbrev pub whole : ℕ → Double
whole n = record { numerator = n; scale = 0 }
