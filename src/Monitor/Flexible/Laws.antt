-- ===== src/Monitor/Flexible/Laws.antt =====
-- What the lenient readers guarantee.
use webguard_instance.Base.{ℤ, String, false, str_eq, trim_space, ◌≡◌, arith, InInt64, ne_false}
use webguard_instance.Base.Result.{ok, ◌>>=◌}
use webguard_instance.Monitor.Types.{
  Float64, AnyValue, int64_value, string_value, float_value, number_value, int_value,
}
use webguard_instance.Monitor.Numbers.{format_int, parse_int}
use webguard_instance.Monitor.Numbers.RoundTrip.{
  parse_int-format_int, parse_int-InInt64, trim_space-format_int,
}
use webguard_instance.Monitor.Flexible.{parse_string_flexible, parse_int_flexible, to_int64}

format_int_nonempty : (n : ℤ) → InInt64 n → str_eq (format_int n) "" ≡ false
unfolding parse_int
format_int_nonempty n h = ne_false _ _ λ e. cc (parse_int-format_int n h)

-- An int64 that is read as a text, such as an ID that Core sends as a number, is read back from that
-- text as the same integer.
pub text_of_int_roundtrip :
    (conv : Float64 → ℤ) (n : ℤ) (name other : String)
    → InInt64 n
    → (do
      s ← parse_string_flexible conv (int64_value n) name
      parse_int_flexible conv (string_value s) other)
      ≡ ok n
unfolding parse_string_flexible parse_int_flexible
text_of_int_roundtrip conv n name other h =
    rw (trim_space-format_int n, format_int_nonempty n h, parse_int-format_int n h)

-- A value whose integers are in the range of int64.
abbrev pub HoldsInt64 : AnyValue → Type 0
HoldsInt64 (int64_value n) = InInt64 n
HoldsInt64 (int_value n) = InInt64 n
HoldsInt64 _ = Unit

to_int64-InInt64 : (conv : Float64 → ℤ) (f : Float64) → InInt64 (conv f) → InInt64 (to_int64 conv f)
unfolding to_int64
to_int64-InInt64 conv f h = ground arith

-- Whatever is read as an integer, from any kind of value, is an int64, given that the processor's
-- answer for a float out of range is one.
pub parse_int_flexible-InInt64 :
    (conv : Float64 → ℤ) (value : AnyValue) (name : String) (n : ℤ)
    → ((f : Float64) → InInt64 (conv f))
    → HoldsInt64 value
    → parse_int_flexible conv value name ≡ ok n
    → InInt64 n
unfolding parse_int_flexible
parse_int_flexible-InInt64 conv (float_value f) name n c v h =
    ground (arith, to_int64-InInt64 conv f (c f))
parse_int_flexible-InInt64 conv (number_value s) name n c v h =
    ground (arith, parse_int-InInt64 s n)
parse_int_flexible-InInt64 conv (string_value s) name n c v h =
    ground (arith, parse_int-InInt64 (trim_space s) n)
parse_int_flexible-InInt64 conv _ name n c v h = ground arith
