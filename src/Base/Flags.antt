-- ===== src/Base/Flags.antt =====
-- Flags of a C word: `x & m`, `x |= m` and `x &= ~m` for a mask `m` of a single bit.
use Prim.Native.Nat.{ℕ, zero, suc, ◌+◌, ◌-◌, ◌/◌, ◌%◌, ◌<◌, bit_and, bit_or}
use mathlib.Core.Path.{◌≡◌, refl, ap}
use mathlib.Core.Bool.{Bool, true, false, ◌&&◌}
use native.Mathlib.Omega.{arith}
use afl_snapshot_lkm.Base.Tests.{◌==◌, ==_iff, if◌then◌else◌}

-- `(x & m) != 0`
abbrev pub has_flag : ℕ → ℕ → Bool
has_flag m x = x / m % 2 == 1

-- `x | m`
abbrev pub set_flag : ℕ → ℕ → ℕ
set_flag m x = if has_flag m x then x else x + m

-- `x & ~m`
abbrev pub clear_flag : ℕ → ℕ → ℕ
clear_flag m x = if has_flag m x then x - m else x

-- The masks that the module keeps in `page_prot` and `status`, checked against the bitwise
-- operations.
agrees : ℕ → ℕ → Bool
agrees x m =
    (if has_flag m x then bit_and x m == m else bit_and x m == 0) && (bit_or x m == set_flag m x)

masks_agree : ℕ → Bool
masks_agree x = agrees x 1 && agrees x 2 && agrees x 16

-- The words below a bound.
words_agree : ℕ → Bool
words_agree zero = true
words_agree (suc x) = if masks_agree x then words_agree x else false

words_agree_lem :
    (bound : ℕ) → words_agree bound ≡ true → (x : ℕ) → x < bound → masks_agree x ≡ true
unfolding words_agree
words_agree_lem zero e x h = absurd (omega arith)
words_agree_lem (suc y) e x h =
    ground (arith, words_agree_lem y (ground arith) x, ==_iff x y, ap masks_agree)

five_bits : words_agree 32 ≡ true
unfolding words_agree masks_agree agrees
five_bits = refl

-- Below 32 the arithmetic form of the three flags is the bitwise one.
flags_bitwise : (x : ℕ) → x < 32 → masks_agree x ≡ true
flags_bitwise = words_agree_lem 32 five_bits
