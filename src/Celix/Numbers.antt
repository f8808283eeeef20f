-- ===== src/Celix/Numbers.antt =====
-- The C library's readers of numbers, as the code uses them for service ids, ports and times. A `long`
-- is the number of its 64 bits.
use node_wiring_secure.Base.{
  ℕ, ◌+◌, ◌-◌, ◌*◌, ◌%◌, ◌^◌, Bool, true, false, CString, [], ◌∷◌, Option, none, some, leb, ltb,
  ◌==◌, ◌&&◌, ◌||◌, if◌then◌else◌,
}

abbrev pub between : ℕ → ℕ → ℕ → Bool
between a b c = leb a c && leb c b

-- The value of a digit: 0-9, a-z, A-Z.
unfoldable pub digit : ℕ → Option ℕ
digit c =
    if between 48 57 c
    then some (c - 48)
    else if between 97 122 c
    then some (c - 87)
    else if between 65 90 c
    then some (c - 55)
    else none

-- isspace
unfoldable pub is_space : ℕ → Bool
is_space c = c == 32 || between 9 13 c

unfoldable pub skip_spaces : CString → CString
skip_spaces [] = []
skip_spaces (c ∷ s) = let rest = skip_spaces s in if is_space c then rest else c ∷ s

-- The digits of the base up to the first other character, read onto `acc`.
unfoldable pub read_digits : ℕ → ℕ → CString → ℕ
read_digits base acc [] = acc
read_digits base acc (c ∷ s) = elim (digit c) [
  | none ↦ acc
  | some d ↦ if ltb d base then read_digits base (acc * base + d) s else acc
]

unfoldable pub is_hex : ℕ → Bool
is_hex c = elim (digit c) [ none ↦ false | some d ↦ ltb d 16 ]

-- Base 0: "0x" before a hexadecimal digit, "0" for octal, and decimal else.
unfoldable pub read_any : CString → ℕ
read_any [] = 0
read_any (a ∷ []) = read_digits 10 0 (a ∷ [])
read_any (a ∷ b ∷ []) = read_digits (if a == 48 then 8 else 10) 0 (a ∷ b ∷ [])
read_any (a ∷ b ∷ c ∷ s) =
    if a == 48
    then if (b == 120 || b == 88) && is_hex c
      then read_digits 16 0 (c ∷ s)
      else read_digits 8 0 (b ∷ c ∷ s)
    else read_digits 10 0 (a ∷ b ∷ c ∷ s)

-- The optional sign: whether there is a minus, and the rest.
unfoldable pub sign : CString → Bool × CString
sign [] = (false, [])
sign (c ∷ s) = if c == 45 then (true, s) else if c == 43 then (false, s) else (false, c ∷ s)

-- A value out of range is ULLONG_MAX, with either sign.
abbrev pub unsigned_value : Bool → ℕ → ℕ
unsigned_value negative v =
    if ltb v (2 ^ 64) then if negative then (2 ^ 64 - v) % 2 ^ 64 else v else 2 ^ 64 - 1

-- strtoull(s, NULL, 0)
unfoldable pub strtoull : CString → ℕ
strtoull s = let (negative, rest) = sign (skip_spaces s) in unsigned_value negative (read_any rest)

-- A value out of range is LONG_MAX or LONG_MIN.
abbrev pub signed_value : Bool → ℕ → ℕ
signed_value true v = if leb v (2 ^ 63) then (2 ^ 64 - v) % 2 ^ 64 else 2 ^ 63
signed_value false v = if ltb v (2 ^ 63) then v else 2 ^ 63 - 1

-- atol(s), as strtol(s, NULL, 10)
unfoldable pub atol : CString → ℕ
atol s =
    let (negative, rest) = sign (skip_spaces s) in signed_value negative (read_digits 10 0 rest)

abbrev pub ends : CString → Bool
ends [] = true
ends (c ∷ s) = false

unfoldable pub starts_in_digit : CString → Bool
starts_in_digit [] = false
starts_in_digit (c ∷ s) = between 48 57 c

unfoldable pub after_digits : CString → CString
after_digits [] = []
after_digits (c ∷ s) = let rest = after_digits s in if between 48 57 c then rest else c ∷ s

abbrev pub in_range : Bool → ℕ → Bool
in_range true v = leb v (2 ^ 63)
in_range false v = ltb v (2 ^ 63)

-- strtol(s, &end, 10), for a caller that takes another value, `none`, where end is not the end of the
-- text or errno is set. Without a digit, end is the beginning of the text.
unfoldable pub whole_long : CString → Option ℕ
whole_long s =
    let (negative, rest) = sign (skip_spaces s) in
    let v = read_digits 10 0 rest in
    if starts_in_digit rest
    then if ends (after_digits rest) && in_range negative v
      then some (signed_value negative v)
      else none
    else if ends s
    then some 0
    else none

-- An `int`, by its 32 bits, as a `long`.
unfoldable pub sign_extend : ℕ → ℕ
sign_extend n = if ltb n (2 ^ 31) then n else n + (2 ^ 64 - 2 ^ 32)
