-- ===== src/Auth/Text.antt =====
-- What rust/realm/auth/src/lib.rs and rust/realm/auth/src/validation.rs use of Rust's texts: trimming,
-- splitting at a character, and numbers in decimal.
use juicebox_sdk.Prelude.{
  ℕ, zero, suc, ◌+◌, ◌-◌, ◌*◌, ◌/◌, ◌%◌, Bool, ◌&&◌, ◌||◌, [], ◌∷◌, ◌++◌, Bytes, Option, none, some,
  ltb, leb, ◌==◌, if◌then◌else◌, u64_mod,
}

-- The characters with the property White_Space.
abbrev pub is_whitespace : ℕ → Bool
is_whitespace c =
    (leb 9 c && leb c 13)
    || c == 32
    || c == 133
    || c == 160
    || c == 5760
    || (leb 8192 c && leb c 8202)
    || c == 8232
    || c == 8233
    || c == 8239
    || c == 8287
    || c == 12288

abbrev trim_start : Bytes → Bytes
trim_start [] = []
trim_start (c ∷ cs) = let rest = trim_start cs in if is_whitespace c then rest else c ∷ cs

-- A character of the end stays if one after it does, or if it is no whitespace.
abbrev keep_end : ℕ → Bytes → Bytes
keep_end c [] = if is_whitespace c then [] else c ∷ []
keep_end c (d ∷ ds) = c ∷ d ∷ ds

abbrev trim_end : Bytes → Bytes
trim_end [] = []
trim_end (c ∷ cs) = keep_end c (trim_end cs)

-- `str::trim`
abbrev pub trim : Bytes → Bytes
trim text = trim_end (trim_start text)

abbrev pub with_first : ℕ → Option (Bytes × Bytes) → Option (Bytes × Bytes)
with_first c none = none
with_first c (some (before, after)) = some (c ∷ before, after)

-- `str::split_once`, at the first such character.
abbrev pub split_once : ℕ → Bytes → Option (Bytes × Bytes)
split_once d [] = none
split_once d (c ∷ cs) =
    let rest = with_first c (split_once d cs) in if c == d then some ([], cs) else rest

-- `str::replace` of a character by nothing.
abbrev pub without : ℕ → Bytes → Bytes
without d [] = []
without d (c ∷ cs) = let rest = without d cs in if c == d then rest else c ∷ rest

-- `str::parse` to a `u64`: digits, after a plus sign if there is one, for a number that fits.
abbrev pub parse_digits : ℕ → Bytes → Option ℕ
parse_digits acc [] = some acc
parse_digits acc (c ∷ cs) =
    let next = acc * 10 + (c - 48) in
    let rest = parse_digits next cs in
    if leb 48 c && leb c 57 && ltb next u64_mod then rest else none

abbrev unsigned : Bytes → Option ℕ
unsigned [] = none
unsigned (c ∷ cs) = parse_digits 0 (c ∷ cs)

abbrev pub parse_u64 : Bytes → Option ℕ
parse_u64 [] = none
parse_u64 (c ∷ cs) = if c == 43 then unsigned cs else parse_digits 0 (c ∷ cs)

-- `Display` of a `u64`, which has at most twenty digits.
abbrev pub digits : ℕ → ℕ → Bytes
digits zero n = []
digits (suc k) n =
    let high = digits k (n / 10) in if ltb n 10 then (48 + n) ∷ [] else high ++ ((48 + n % 10) ∷ [])

abbrev pub display_u64 : ℕ → Bytes
display_u64 n = digits 20 n
