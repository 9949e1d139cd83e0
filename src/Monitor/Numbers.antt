-- ===== src/Monitor/Numbers.antt =====
-- strconv.FormatInt and strconv.ParseInt in base 10, as internal/domain/monitor/types.go uses them.
-- Formatting runs on fuel: `suc n` rounds are enough for `n`, which loses a digit in each round.
pub mod RoundTrip
use Prim.Native.Char.{Char}
use Prim.Native.String
use webguard_instance.Base.{
  ℕ, zero, suc, ◌+◌, ◌-◌, ◌*◌, ◌/◌, ◌%◌, ℤ, pos, negsuc, sub_ℕ, String, Bool, true, false, ◌&&◌,
  List, [], ◌∷◌, Option, none, some, ltb, leb, ◌==◌, if◌then◌else◌, ◌≡◌, refl, codes,
}

digit_char : ℕ → Char
digit_char zero = "0"
digit_char (suc zero) = "1"
digit_char (suc (suc zero)) = "2"
digit_char (suc (suc (suc zero))) = "3"
digit_char (suc (suc (suc (suc zero)))) = "4"
digit_char (suc (suc (suc (suc (suc zero))))) = "5"
digit_char (suc (suc (suc (suc (suc (suc zero)))))) = "6"
digit_char (suc (suc (suc (suc (suc (suc (suc zero))))))) = "7"
digit_char (suc (suc (suc (suc (suc (suc (suc (suc zero)))))))) = "8"
digit_char (suc (suc (suc (suc (suc (suc (suc (suc (suc n))))))))) = "9"

digits_from : ℕ → ℕ → String → String
digits_from zero n acc = acc
digits_from (suc fuel) n acc =
    let rest = digits_from fuel (n / 10) (String.◌∷◌ (digit_char (n % 10)) acc) in
    if ltb n 10 then String.◌∷◌ (digit_char n) acc else rest

unfoldable pub format_int : ℤ → String
unfolding digits_from digit_char
format_int (pos n) = digits_from (suc n) n ""
format_int (negsuc n) = String.◌∷◌ "-" (digits_from (suc (suc n)) (suc n) "")

is_digit : ℕ → Bool
is_digit c = leb b'0' c && leb c b'9'

unfoldable pub parse_digits : ℕ → List ℕ → Option ℕ
unfolding is_digit
parse_digits acc [] = some acc
parse_digits acc (c ∷ cs) = if is_digit c then parse_digits (acc * 10 + (c - 48)) cs else none

parse_uint : List ℕ → Option ℕ
parse_uint [] = none
parse_uint (c ∷ cs) = parse_digits 0 (c ∷ cs)

-- The range check of ParseInt at bit size 64.
signed : Bool → Option ℕ → Option ℤ
signed negative none = none
signed false (some n) = if ltb n 9223372036854775808 then some (pos n) else none
signed true (some n) = if leb n 9223372036854775808 then some (sub_ℕ 0 n) else none

parse_codes : List ℕ → Option ℤ
unfolding parse_uint parse_digits signed
parse_codes [] = none
parse_codes (c ∷ cs) =
    if c == b'-'
    then signed true (parse_uint cs)
    else if c == b'+'
    then signed false (parse_uint cs)
    else signed false (parse_uint (c ∷ cs))

unfoldable pub parse_int : String → Option ℤ
unfolding parse_codes
parse_int s = parse_codes (codes s)
