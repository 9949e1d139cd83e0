-- ===== src/Monitor/Flexible.antt =====
-- The lenient readers of internal/domain/monitor/types.go: parseStringFlexible to parseBoolFlexible.
-- Two things are parameters: what `int64(f)` gives where the float `f` is out of range, which Go
-- leaves to the processor, and time.Parse with the layout RFC3339Nano. Of an error the model keeps
-- the field that it names and whether a value or its type was refused.
pub mod Laws
use webguard_instance.Base.{
  ℕ, ◌*◌, ◌/◌, ◌^◌, suc, ℤ, pos, negsuc, sub_ℕ, String, Bool, true, false, not, Option, none, some,
  List, ◌||◌, ◌&&◌, ltb, leb, ◌==◌, if◌then◌else◌, pos_part, neg_part, eqb_ℤ, str_eq, trim_space,
  codes, codes_eq, lower,
}
use webguard_instance.Base.Result.{Result, ok, err, ◌>>=◌}
use webguard_instance.Monitor.Types.{
  Float64, Instant, AnyValue, nil_value, bool_value, float_value, int64_value, int_value,
  number_value, string_value, time_value, array_value, object_value,
}
use webguard_instance.Monitor.Numbers.{format_int, parse_int}

pub data DecodeError : Type 0 where
  invalid_json negative_interval : DecodeError
  invalid_value invalid_type : String → DecodeError

-- Truncation towards zero.
magnitude : ℕ → ℤ → ℕ
magnitude mantissa (pos k) = mantissa * 2 ^ k
magnitude mantissa (negsuc k) = mantissa / 2 ^ suc k

truncate : Float64 → ℤ
unfolding magnitude
truncate f =
    if f.negative
    then sub_ℕ 0 (magnitude f.mantissa f.exponent)
    else pos (magnitude f.mantissa f.exponent)

fits_int64 : ℤ → Bool
fits_int64 z = ltb (pos_part z) 9223372036854775808 && leb (neg_part z) 9223372036854775808

-- Go's conversion of a float64 to int64.
unfoldable pub to_int64 : (Float64 → ℤ) → Float64 → ℤ
unfolding truncate fits_int64
to_int64 out_of_range f = if fits_int64 (truncate f) then truncate f else out_of_range f

or_invalid {ℓ} : {A : Type ℓ} → String → Option A → Result DecodeError A
or_invalid name none = err (invalid_value name)
or_invalid name (some a) = ok a

unfoldable pub parse_string_flexible : (Float64 → ℤ) → AnyValue → String → Result DecodeError String
parse_string_flexible conv nil_value name = ok ""
parse_string_flexible conv (string_value s) name = ok (trim_space s)
parse_string_flexible conv (float_value f) name = ok (format_int (to_int64 conv f))
parse_string_flexible conv (int64_value n) name = ok (format_int n)
parse_string_flexible conv (int_value n) name = ok (format_int n)
parse_string_flexible conv (number_value s) name = ok s
parse_string_flexible conv _ name = err (invalid_type name)

unfoldable pub parse_int64_flexible : (Float64 → ℤ) → AnyValue → String → Result DecodeError ℤ
unfolding or_invalid
parse_int64_flexible conv nil_value name = ok (pos 0)
parse_int64_flexible conv (float_value f) name = ok (to_int64 conv f)
parse_int64_flexible conv (int64_value n) name = ok n
parse_int64_flexible conv (int_value n) name = ok n
parse_int64_flexible conv (number_value s) name = or_invalid name (parse_int s)
parse_int64_flexible conv (string_value s) name =
    if str_eq (trim_space s) "" then ok (pos 0) else or_invalid name (parse_int (trim_space s))
parse_int64_flexible conv _ name = err (invalid_type name)

-- Go's `int` has 64 bits here, so `int(parsed)` changes nothing.
unfoldable pub parse_int_flexible : (Float64 → ℤ) → AnyValue → String → Result DecodeError ℤ
unfolding parse_int64_flexible
parse_int_flexible conv value name = do parsed ← parse_int64_flexible conv value name; ok parsed

unfoldable pub parse_optional_int_flexible :
    (Float64 → ℤ) → AnyValue → String → Result DecodeError (Option ℤ)
unfolding parse_int_flexible
parse_optional_int_flexible conv nil_value name = ok none
parse_optional_int_flexible conv value name = do
  parsed ← parse_int_flexible conv value name
  ok (some parsed)

unfoldable pub parse_time_flexible :
    (String → Option Instant) → AnyValue → String → Result DecodeError (Option Instant)
unfolding or_invalid
parse_time_flexible rfc3339 nil_value name = ok none
parse_time_flexible rfc3339 (string_value s) name =
    if str_eq (trim_space s) ""
    then ok none
    else do parsed ← or_invalid name (rfc3339 (trim_space s)); ok (some parsed)
parse_time_flexible rfc3339 (time_value t) name = ok (some t)
parse_time_flexible rfc3339 _ name = err (invalid_type name)

is_true_token : List ℕ → Bool
is_true_token s =
    codes_eq s (codes "1")
    || codes_eq s (codes "true")
    || codes_eq s (codes "yes")
    || codes_eq s (codes "on")

is_false_token : List ℕ → Bool
is_false_token s =
    codes_eq s (codes "0")
    || codes_eq s (codes "false")
    || codes_eq s (codes "no")
    || codes_eq s (codes "off")

-- strings.TrimSpace(strings.ToLower(s)): a change of case turns no space into a letter, nor the
-- other way round, so the trim may come first.
unfoldable pub token_of : String → List ℕ
token_of s = lower (codes (trim_space s))

unfoldable pub parse_token : String → List ℕ → Result DecodeError Bool
unfolding is_true_token is_false_token
parse_token name token =
    if codes_eq token (codes "")
    then ok false
    else if is_true_token token
    then ok true
    else if is_false_token token
    then ok false
    else err (invalid_value name)

unfoldable pub parse_bool_flexible : AnyValue → String → Result DecodeError Bool
unfolding or_invalid parse_token token_of
parse_bool_flexible nil_value name = ok false
parse_bool_flexible (bool_value b) name = ok b
parse_bool_flexible (float_value f) name = ok (not (f.mantissa == 0))
parse_bool_flexible (number_value s) name = do
  parsed ← or_invalid name (parse_int s)
  ok (not (eqb_ℤ parsed (pos 0)))
parse_bool_flexible (string_value s) name = parse_token name (token_of s)
parse_bool_flexible _ name = err (invalid_type name)
