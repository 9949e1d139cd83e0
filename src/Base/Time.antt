-- ===== src/Base/Time.antt =====
-- Go's time arithmetic. An instant is a ℤ of nanoseconds since Go's zero time, a duration an int64
-- of nanoseconds; `sub_time` saturates as Time.Sub does.
use Prim.Native.Nat.{ℕ, ◌-◌, ◌%◌}
use webguard_instance.Base.Int.{ℤ, pos, negsuc, ◌-ℤ◌, ◌*ℤ◌, wrap64, min_ℤ, max_ℤ}

abbrev pub second : ℤ
second = pos 1000000000

abbrev pub minute : ℤ
minute = pos 60000000000

-- time.Duration(n) * time.Second
unfoldable pub seconds : ℤ → ℤ
seconds n = wrap64 (n *ℤ second)

abbrev max_duration : ℤ
max_duration = pos 9223372036854775807

abbrev min_duration : ℤ
min_duration = negsuc 9223372036854775807

unfoldable pub sub_time : ℤ → ℤ → ℤ
unfolding min_ℤ max_ℤ
sub_time a b = max_ℤ min_duration (min_ℤ max_duration (a -ℤ b))

-- The remainder of a floor division by a positive number.
abbrev pub remainder : ℤ → ℕ → ℕ
remainder (pos n) d = n % d
remainder (negsuc n) d = d - 1 - n % d

-- t.Truncate(d)
unfoldable pub truncate_time : ℤ → ℕ → ℤ
truncate_time t d = t -ℤ pos (remainder t d)
