-- ===== src/Base/Word.antt =====
-- Unsigned words as native numbers, and the compiler's builtins on their bits.
use Prim.Native.Nat.{ℕ, zero, suc, ◌+◌, ◌-◌, ◌/◌, ◌%◌, ◌^◌}
use choose_cut.Base.Tests.{ltb, ◌==◌, if◌then◌else◌}

-- `uint32_t` and `uint64_t` arithmetic wraps; `-` on ℕ stops at 0, so the modulus is added first.
abbrev pub u8 : ℕ → ℕ
u8 a = a % 2 ^ 8

abbrev pub u32 : ℕ → ℕ
u32 a = a % 2 ^ 32

abbrev pub add32 : ℕ → ℕ → ℕ
add32 a b = (a + b) % 2 ^ 32

abbrev pub sub32 : ℕ → ℕ → ℕ
sub32 a b = (a + 2 ^ 32 - b) % 2 ^ 32

abbrev pub add64 : ℕ → ℕ → ℕ
add64 a b = (a + b) % 2 ^ 64

abbrev pub sub64 : ℕ → ℕ → ℕ
sub64 a b = (a + 2 ^ 64 - b) % 2 ^ 64

-- The number of zeros at the low end of a word of the given width; all of them for 0, which is
-- what the `tzcnt` instruction gives.
unfoldable pub ctz : ℕ → ℕ → ℕ
ctz zero n = 0
ctz (suc width) n = let rest = ctz width (n / 2) in if n % 2 == 1 then 0 else suc rest

-- The number of zeros at the high end of a word of the given width.
unfoldable pub clz : ℕ → ℕ → ℕ
clz zero n = 0
clz (suc width) n = let rest = clz width n in if ltb n (2 ^ width) then suc rest else 0

-- The number of ones in a word of the given width.
unfoldable pub popcount : ℕ → ℕ → ℕ
popcount zero n = 0
popcount (suc width) n = n % 2 + popcount width (n / 2)
