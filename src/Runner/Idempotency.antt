-- ===== src/Runner/Idempotency.antt =====
-- internal/adapters/runner/idempotency.go. The sixteen random bytes are an argument; a failure of
-- crypto/rand is `none`. `isUUIDVersion` works on the code points of its text: Go's bytes differ
-- from them only in texts that both refuse, since all but hexadecimal digits and dashes are refused.
pub mod Laws
use Prim.Native.Char.{Char}
use Prim.Native.String
use Prim.Native.Nat.{bit_and, bit_or}
use webguard_instance.Base.{
  ℕ, zero, suc, ◌+◌, ◌/◌, ◌%◌, String, Bool, true, false, not, ◌&&◌, ◌||◌, List, [], ◌∷◌, ◌++◌,
  Option, none, some, leb, ◌==◌, if◌then◌else◌, codes, codes_eq, length, ◌+s◌,
}

-- encoding/hex writes lower case digits.
hex_char : ℕ → Char
hex_char zero = "0"
hex_char (suc zero) = "1"
hex_char (suc (suc zero)) = "2"
hex_char (suc (suc (suc zero))) = "3"
hex_char (suc (suc (suc (suc zero)))) = "4"
hex_char (suc (suc (suc (suc (suc zero))))) = "5"
hex_char (suc (suc (suc (suc (suc (suc zero)))))) = "6"
hex_char (suc (suc (suc (suc (suc (suc (suc zero))))))) = "7"
hex_char (suc (suc (suc (suc (suc (suc (suc (suc zero)))))))) = "8"
hex_char (suc (suc (suc (suc (suc (suc (suc (suc (suc zero))))))))) = "9"
hex_char (suc (suc (suc (suc (suc (suc (suc (suc (suc (suc zero)))))))))) = "a"
hex_char (suc (suc (suc (suc (suc (suc (suc (suc (suc (suc (suc zero))))))))))) = "b"
hex_char (suc (suc (suc (suc (suc (suc (suc (suc (suc (suc (suc (suc zero)))))))))))) = "c"
hex_char (suc (suc (suc (suc (suc (suc (suc (suc (suc (suc (suc (suc (suc zero))))))))))))) = "d"
hex_char (suc (suc (suc (suc (suc (suc (suc (suc (suc (suc (suc (suc (suc (suc zero)))))))))))))) =
    "e"
hex_char
      (suc (suc (suc (suc (suc (suc (suc (suc (suc (suc (suc (suc (suc (suc (suc n))))))))))))))) =
    "f"

-- hex.EncodeToString, in front of the text that follows it
hex : List ℕ → String → String
unfolding hex_char
hex [] rest = rest
hex (b ∷ bs) rest = String.◌∷◌ (hex_char (b / 16)) (String.◌∷◌ (hex_char (b % 16)) (hex bs rest))

dash : String → String
dash rest = String.◌∷◌ "-" rest

-- The bytes of `value` that follow b0 to b5 are set as version 4, variant 10 ask.
stamp_version : ℕ → ℕ
stamp_version b = bit_or (bit_and b 0x0f) 0x40

stamp_variant : ℕ → ℕ
stamp_variant b = bit_or (bit_and b 0x3f) 0x80

pub record Bytes16 : Type 0 where
  pub b0 : ℕ
  pub b1 : ℕ
  pub b2 : ℕ
  pub b3 : ℕ
  pub b4 : ℕ
  pub b5 : ℕ
  pub b6 : ℕ
  pub b7 : ℕ
  pub b8 : ℕ
  pub b9 : ℕ
  pub b10 : ℕ
  pub b11 : ℕ
  pub b12 : ℕ
  pub b13 : ℕ
  pub b14 : ℕ
  pub b15 : ℕ

format_key : Bytes16 → String
unfolding hex dash stamp_version stamp_variant
format_key v = hex (v.b0 ∷ v.b1 ∷ v.b2 ∷ v.b3 ∷ []) (
    dash (
      hex (v.b4 ∷ v.b5 ∷ []) (
        dash (
          hex (stamp_version v.b6 ∷ v.b7 ∷ []) (
            dash (
              hex (stamp_variant v.b8 ∷ v.b9 ∷ [])
                (dash (hex (v.b10 ∷ v.b11 ∷ v.b12 ∷ v.b13 ∷ v.b14 ∷ v.b15 ∷ []) ""))))))))

unfoldable pub new_idempotency_key : Option Bytes16 → Option String
unfolding format_key
new_idempotency_key none = none
new_idempotency_key (some v) = some (format_key v)

-- value[i], read only below the length
at : List ℕ → ℕ → ℕ
at [] i = 0
at (c ∷ cs) zero = c
at (c ∷ cs) (suc i) = at cs i

is_hex : ℕ → Bool
is_hex c = (leb b'0' c && leb c b'9') || (leb b'a' c && leb c b'f') || (leb b'A' c && leb c b'F')

-- strings.ReplaceAll(value, "-", "")
without_dashes : List ℕ → List ℕ
without_dashes [] = []
without_dashes (c ∷ cs) = let rest = without_dashes cs in if c == b'-' then rest else c ∷ rest

-- hex.DecodeString gives no error: digits only, two to a byte.
decodes : List ℕ → Bool
unfolding is_hex
decodes [] = true
decodes (a ∷ []) = false
decodes (a ∷ b ∷ cs) = is_hex a && is_hex b && decodes cs

is_variant : ℕ → Bool
is_variant c = c == b'8' || c == b'9' || c == b'a' || c == b'b' || c == b'A' || c == b'B'

is_uuid_codes : List ℕ → ℕ → Bool
unfolding at without_dashes decodes is_variant
is_uuid_codes cs version =
    if not (length cs == 36)
      || not (at cs 8 == b'-')
      || not (at cs 13 == b'-')
      || not (at cs 18 == b'-')
      || not (at cs 23 == b'-')
    then false
    else if not (at cs 14 == version) || not (is_variant (at cs 19))
    then false
    else decodes (without_dashes cs)

unfoldable pub is_uuid_version : String → ℕ → Bool
unfolding is_uuid_codes
is_uuid_version value version = is_uuid_codes (codes value) version

unfoldable pub is_uuid_v4 : String → Bool
unfolding is_uuid_version
is_uuid_v4 value = is_uuid_version value b'4'
