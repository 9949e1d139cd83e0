-- ===== src/Runner/Idempotency/Laws.antt =====
-- Generated keys are accepted.
use Prim.Native.Char.{code}
use mathlib.Core.Option.{some-injective}
use webguard_instance.Base.{
  subst, ℕ, zero, suc, ◌/◌, ◌%◌, ◌<◌, String, Bool, true, false, List, [], ◌∷◌, some, ◌==◌,
  if◌then◌else◌, codes, length, ◌≡◌, refl, arith, ◌∙◌,
}
use webguard_instance.Runner.Idempotency.{
  hex_char, hex, dash, stamp_version, stamp_variant, Bytes16, format_key, new_idempotency_key, at,
  is_hex, without_dashes, decodes, is_variant, is_uuid_codes, is_uuid_v4,
}

hex_char-hex : (n : ℕ) → is_hex (code (hex_char n)) ≡ true
unfolding is_hex hex_char
hex_char-hex zero = refl
hex_char-hex (suc zero) = refl
hex_char-hex (suc (suc zero)) = refl
hex_char-hex (suc (suc (suc zero))) = refl
hex_char-hex (suc (suc (suc (suc zero)))) = refl
hex_char-hex (suc (suc (suc (suc (suc zero))))) = refl
hex_char-hex (suc (suc (suc (suc (suc (suc zero)))))) = refl
hex_char-hex (suc (suc (suc (suc (suc (suc (suc zero))))))) = refl
hex_char-hex (suc (suc (suc (suc (suc (suc (suc (suc zero)))))))) = refl
hex_char-hex (suc (suc (suc (suc (suc (suc (suc (suc (suc zero))))))))) = refl
hex_char-hex (suc (suc (suc (suc (suc (suc (suc (suc (suc (suc zero)))))))))) = refl
hex_char-hex (suc (suc (suc (suc (suc (suc (suc (suc (suc (suc (suc zero))))))))))) = refl
hex_char-hex (suc (suc (suc (suc (suc (suc (suc (suc (suc (suc (suc (suc zero)))))))))))) = refl
hex_char-hex (suc (suc (suc (suc (suc (suc (suc (suc (suc (suc (suc (suc (suc zero))))))))))))) =
    refl
hex_char-hex
      (suc (suc (suc (suc (suc (suc (suc (suc (suc (suc (suc (suc (suc (suc zero)))))))))))))) =
    refl
hex_char-hex
      (suc (suc (suc (suc (suc (suc (suc (suc (suc (suc (suc (suc (suc (suc (suc n))))))))))))))) =
    refl

is_hex-not_dash : (c : ℕ) → is_hex c ≡ true → (c == 45) ≡ false
unfolding is_hex
is_hex-not_dash c h = ground arith

decodes-pair :
    (a b : ℕ) (cs : List ℕ)
    → is_hex a ≡ true
    → is_hex b ≡ true
    → decodes (without_dashes (a ∷ b ∷ cs)) ≡ decodes (without_dashes cs)
unfolding decodes without_dashes
decodes-pair a b cs ha hb = rw (is_hex-not_dash a ha, is_hex-not_dash b hb, ha, hb)

-- Hexadecimal digits in front change nothing in whether a text decodes.
decodes-hex :
    (bs : List ℕ) (rest : String)
    → decodes (without_dashes (codes (hex bs rest))) ≡ decodes (without_dashes (codes rest))
unfolding hex
decodes-hex [] rest = refl
decodes-hex (b ∷ bs) rest =
    decodes-pair _ _ _ (hex_char-hex (b / 16)) (hex_char-hex (b % 16)) ∙ decodes-hex bs rest

decodes-dash :
    (rest : String)
    → decodes (without_dashes (codes (dash rest))) ≡ decodes (without_dashes (codes rest))
unfolding dash without_dashes
decodes-dash rest = refl

decodes-format_key : (v : Bytes16) → decodes (without_dashes (codes (format_key v))) ≡ true
unfolding format_key decodes without_dashes
decodes-format_key v = rw (
  decodes-hex, decodes-dash, decodes-hex, decodes-dash, decodes-hex, decodes-dash, decodes-hex,
  decodes-dash, decodes-hex,
)

-- The test passes every byte value that is less than the bound.
passes : (ℕ → Bool) → ℕ → Bool
passes test zero = true
passes test (suc bound) = let below = passes test bound in if test bound then below else false

passes_lem : (test : ℕ → Bool) (bound b : ℕ) → b < bound → passes test bound ≡ true → test b ≡ true
unfolding passes
passes_lem test zero b less e = absurd (omega arith)
passes_lem test (suc bound) b less e = ground (arith, passes_lem test bound b)

version_table : passes (λ b. code (hex_char (stamp_version b / 16)) == 52) 256 ≡ true
unfolding passes hex_char stamp_version
version_table = refl

variant_table : passes (λ b. is_variant (code (hex_char (stamp_variant b / 16)))) 256 ≡ true
unfolding passes hex_char stamp_variant is_variant
variant_table = refl

is_uuid_codes-true :
    (cs : List ℕ) (version : ℕ)
    → length cs ≡ 36
    → at cs 8 ≡ 45
    → at cs 13 ≡ 45
    → at cs 18 ≡ 45
    → at cs 23 ≡ 45
    → (at cs 14 == version) ≡ true
    → is_variant (at cs 19) ≡ true
    → decodes (without_dashes cs) ≡ true
    → is_uuid_codes cs version ≡ true
unfolding is_uuid_codes
is_uuid_codes-true cs version l a b c d v x h = rw (l, a, b, c, d, v, x, h)

format_key-is_uuid : (v : Bytes16) → v.b6 < 256 → v.b8 < 256 → is_uuid_v4 (format_key v) ≡ true
unfolding is_uuid_v4 format_key at is_variant
format_key-is_uuid v h6 h8 =
    is_uuid_codes-true (codes (format_key v)) 52 refl refl refl refl refl
      (passes_lem (λ b. code (hex_char (stamp_version b / 16)) == 52) 256 v.b6 h6 version_table)
      (passes_lem (λ b. is_variant (code (hex_char (stamp_variant b / 16)))) 256 v.b8 h8
        variant_table)
      (decodes-format_key v)

-- Whatever random bytes are drawn, the key that is made of them passes the check that claimed jobs and
-- callbacks apply to keys. (A byte is below 256.)
pub is_uuid_v4-new_idempotency_key :
    (v : Bytes16) (key : String)
    → v.b6 < 256
    → v.b8 < 256
    → new_idempotency_key (some v) ≡ some key
    → is_uuid_v4 key ≡ true
unfolding new_idempotency_key
is_uuid_v4-new_idempotency_key v key h6 h8 e =
    subst (λ k. is_uuid_v4 k ≡ true) (some-injective _ _ e) (format_key-is_uuid v h6 h8)
