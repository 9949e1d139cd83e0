-- ===== src/Monitor/Numbers/RoundTrip.antt =====
-- A formatted int64 is read back, and has no space that a trim could take.
use Prim.Native.Char.{code}
use webguard_instance.Base.{
  ℕ, zero, suc, ◌+◌, ◌*◌, ◌/◌, ◌%◌, ◌≤◌, ◌<◌, ℤ, pos, negsuc, String, true, false, List, [], ◌∷◌,
  some, ltb, ◌≡◌, refl, codes, arith, InInt64, ◌∙◌, ap, Bool-cases, inl, inr, trim_space, NoSpaces,
  trim_space-NoSpaces, is_space,
}
use webguard_instance.Monitor.Numbers.{
  digit_char, digits_from, parse_digits, is_digit, signed, parse_codes, parse_int, format_int,
}

code-digit_char : (n : ℕ) → n < 10 → code (digit_char n) ≡ 48 + n
unfolding digit_char
code-digit_char zero h = refl
code-digit_char (suc zero) h = refl
code-digit_char (suc (suc zero)) h = refl
code-digit_char (suc (suc (suc zero))) h = refl
code-digit_char (suc (suc (suc (suc zero)))) h = refl
code-digit_char (suc (suc (suc (suc (suc zero))))) h = refl
code-digit_char (suc (suc (suc (suc (suc (suc zero)))))) h = refl
code-digit_char (suc (suc (suc (suc (suc (suc (suc zero))))))) h = refl
code-digit_char (suc (suc (suc (suc (suc (suc (suc (suc zero)))))))) h = refl
code-digit_char (suc (suc (suc (suc (suc (suc (suc (suc (suc zero))))))))) h = refl
code-digit_char (suc (suc (suc (suc (suc (suc (suc (suc (suc (suc n)))))))))) h =
    absurd (omega arith)

parse_digits-digit :
    (acc n : ℕ) (s : String)
    → n < 10
    → parse_digits acc (codes (String.◌∷◌ (digit_char n) s)) ≡ parse_digits (acc * 10 + n) (codes s)
unfolding parse_digits is_digit
parse_digits-digit acc n s h = ground (arith, code-digit_char n)

parse_digits-digits_from :
    (fuel n : ℕ) (s : String)
    → n < fuel
    → parse_digits 0 (codes (digits_from fuel n s)) ≡ parse_digits n (codes s)
unfolding digits_from
parse_digits-digits_from zero n s h = elim h [ ]
parse_digits-digits_from (suc fuel) n s h = elim (Bool-cases (ltb n 10)) [
  | inl small ↦
      rw small
        (parse_digits-digit 0 n s (ground arith) ∙ ap (λ k. parse_digits k (codes s)) (omega arith))
  | inr large ↦ rw large (
      parse_digits-digits_from fuel (n / 10) _ (ground arith)
      ∙ parse_digits-digit (n / 10) (n % 10) s (omega arith)
      ∙ ap (λ k. parse_digits k (codes s)) (omega arith))
]

-- Numbers begin with a digit, so no sign is read.
abbrev DigitHead : List ℕ → Type 0
DigitHead [] = ⊥
DigitHead (c ∷ cs) = (48 ≤ c) × (c ≤ 57)

digits_from-DigitHead :
    (fuel n : ℕ) (s : String) → n < fuel → DigitHead (codes (digits_from fuel n s))
unfolding digits_from
digits_from-DigitHead zero n s h = elim h [ ]
digits_from-DigitHead (suc fuel) n s h = elim (Bool-cases (ltb n 10)) [
  | inl small ↦ rw small (ground (arith, code-digit_char n))
  | inr large ↦ rw large (digits_from-DigitHead fuel (n / 10) _ (ground arith))
]

parse_codes-DigitHead :
    (cs : List ℕ) → DigitHead cs → parse_codes cs ≡ signed false (parse_digits 0 cs)
unfolding parse_codes
parse_codes-DigitHead [] h = absurd h
parse_codes-DigitHead (c ∷ cs) h = ground arith

parse_codes-minus :
    (cs : List ℕ) → DigitHead cs → parse_codes (45 ∷ cs) ≡ signed true (parse_digits 0 cs)
unfolding parse_codes
parse_codes-minus [] h = absurd h
parse_codes-minus (c ∷ cs) h = refl

digits_lem : (n : ℕ) → parse_digits 0 (codes (digits_from (suc n) n "")) ≡ some n
unfolding parse_digits
digits_lem n = parse_digits-digits_from (suc n) n "" (omega arith)

-- Every int64 is read back from its decimal form.
pub parse_int-format_int : (z : ℤ) → InInt64 z → parse_int (format_int z) ≡ some z
unfolding parse_int format_int signed
parse_int-format_int (pos n) h =
    parse_codes-DigitHead _ (digits_from-DigitHead (suc n) n "" (omega arith))
    ∙ (rw digits_lem (ground arith))
parse_int-format_int (negsuc n) h =
    parse_codes-minus _ (digits_from-DigitHead (suc (suc n)) (suc n) "" (omega arith))
    ∙ (rw digits_lem (ground arith))

digit_char-visible : (n : ℕ) → n < 10 → is_space (code (digit_char n)) ≡ false
unfolding is_space
digit_char-visible n h = rw (code-digit_char n h) (ground arith)

digits_from-NoSpaces :
    (fuel n : ℕ) (s : String) → n < fuel → NoSpaces s → NoSpaces (digits_from fuel n s)
unfolding digits_from
digits_from-NoSpaces zero n s h v = v
digits_from-NoSpaces (suc fuel) n s h v = elim (Bool-cases (ltb n 10)) [
  | inl small ↦ rw small (digit_char-visible n (ground arith), v)
  | inr large ↦ rw large (
      digits_from-NoSpaces fuel (n / 10) _ (ground arith)
        (digit_char-visible (n % 10) (omega arith), v))
]

pub trim_space-format_int : (z : ℤ) → trim_space (format_int z) ≡ format_int z
unfolding format_int is_space
trim_space-format_int (pos n) =
    trim_space-NoSpaces _ (digits_from-NoSpaces (suc n) n "" (omega arith) tt)
trim_space-format_int (negsuc n) =
    trim_space-NoSpaces _ (refl, digits_from-NoSpaces (suc (suc n)) (suc n) "" (omega arith) tt)

parse_codes-InInt64 : (cs : List ℕ) (n : ℤ) → parse_codes cs ≡ some n → InInt64 n
unfolding parse_codes signed
parse_codes-InInt64 [] n h = cc
parse_codes-InInt64 (c ∷ cs) n h = ground arith

-- What is parsed is an int64.
pub parse_int-InInt64 : (s : String) (n : ℤ) → parse_int s ≡ some n → InInt64 n
unfolding parse_int
parse_int-InInt64 s n h = parse_codes-InInt64 (codes s) n h
