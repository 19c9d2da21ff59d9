-- ===== src/Prelude/Words.antt =====
-- Machine-width arithmetic as Rust writes it: saturating, checked and plain operations.
use Prim.Native.Nat.{ℕ, ◌+◌, ◌-◌, ◌*◌, ◌%◌, min}

-- `u64::MAX`; `usize` has the same width on the supported target.
abbrev pub u64_max : ℕ
u64_max = 18446744073709551615

-- `saturating_add` on `u64` and `usize`
abbrev pub sat_add : ℕ → ℕ → ℕ
sat_add a b = min (a + b) u64_max

-- `a - b` on `u64` and `usize`: it wraps
abbrev pub sub64 : ℕ → ℕ → ℕ
sub64 a b = (18446744073709551616 + a - b) % 18446744073709551616

-- `a * b` on `u64` and `usize`: it wraps
abbrev pub mul64 : ℕ → ℕ → ℕ
mul64 a b = (a * b) % 18446744073709551616
