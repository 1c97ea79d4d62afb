-- ===== src/Word/Int32.antt =====
-- The operators of C on the 32-bit pattern of an `int`. Signed sums wrap, and a negative number is
-- shifted right with copies of its sign, as on the machines that the programs are built for.
use csapp_code.Prelude.{ℕ, ◌+◌, ◌-◌, ◌*◌, ◌/◌, ◌%◌, ◌^◌, ltb, ◌==◌, if◌then◌else◌}

-- `~x`
abbrev pub not32 : ℕ → ℕ
not32 x = 2 ^ 32 - 1 - x

-- `x + y`
abbrev pub add32 : ℕ → ℕ → ℕ
add32 x y = (x + y) % 2 ^ 32

-- `x << n`
abbrev pub shl32 : ℕ → ℕ → ℕ
shl32 x n = x * 2 ^ n % 2 ^ 32

-- `x >> n`
abbrev pub sar32 : ℕ → ℕ → ℕ
sar32 x n = if ltb x (2 ^ 31) then x / 2 ^ n else not32 (not32 x / 2 ^ n)

-- `!x`
abbrev pub bang32 : ℕ → ℕ
bang32 x = if x == 0 then 1 else 0
