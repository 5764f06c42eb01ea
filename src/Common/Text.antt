-- ===== src/Common/Text.antt =====
-- Texts walked character by character: the patterns and `trim` of the program.
use Prim.Native.Nat.{ℕ, zero, suc}
use Prim.Native.Char.{code}
use Prim.Native.String.{String}
use mathlib.Core.Bool.{Bool, true, false, ◌&&◌, ◌||◌}
use mathlib.Core.List.{List, [], ◌∷◌}
use documents_backend.Common.Tests.{leb, nat_eq}
use documents_backend.Common.Lists.{all}

-- The code points of a text.
abbrev pub codes : String → List ℕ
codes String.[] = []
codes (String.◌∷◌ c s) = code c ∷ codes s

-- A pattern of one character class for each place, anchored at both ends.
unfoldable pub fits : List (ℕ → Bool) → List ℕ → Bool
fits [] [] = true
fits (p ∷ ps) (c ∷ cs) = p c && fits ps cs
fits _ _ = false

pub repeat {ℓ} : {A : Type ℓ} → ℕ → A → List A → List A
repeat zero a rest = rest
repeat (suc n) a rest = a ∷ repeat n a rest

unfoldable pub is_digit : ℕ → Bool
is_digit c = leb b'0' c && leb c b'9'

is_hex : ℕ → Bool
unfolding is_digit
is_hex c = is_digit c || leb b'a' c && leb c b'f'

-- `[0-9a-f]` under the flag `i`.
is_hex_any_case : ℕ → Bool
unfolding is_hex
is_hex_any_case c = is_hex c || leb b'A' c && leb c b'F'

unfoldable pub is_colon : ℕ → Bool
is_colon c = nat_eq c b':'

is_dash : ℕ → Bool
is_dash c = nat_eq c b'-'

-- `[1-8]` and `[89ab]`.
is_version : ℕ → Bool
is_version c = leb b'1' c && leb c b'8'

is_variant : ℕ → Bool
is_variant c =
    nat_eq c b'8'
    || nat_eq c b'9'
    || nat_eq c b'a'
    || nat_eq c b'b'
    || nat_eq c b'A'
    || nat_eq c b'B'

uuid_pattern : List (ℕ → Bool)
unfolding repeat is_hex_any_case is_dash is_version is_variant
uuid_pattern = repeat 8 is_hex_any_case (
    is_dash
    ∷ repeat 4 is_hex_any_case (
        is_dash
        ∷ is_version
        ∷ repeat 3 is_hex_any_case (
            is_dash
            ∷ is_variant
            ∷ repeat 3 is_hex_any_case (is_dash ∷ repeat 12 is_hex_any_case []))))

-- `EXECUTION_UUID_PATTERN.test(s)`.
unfoldable pub is_uuid : String → Bool
unfolding uuid_pattern fits
is_uuid s = fits uuid_pattern (codes s)

hash_pattern : List (ℕ → Bool)
unfolding repeat is_hex
hash_pattern =
    nat_eq b's'
    ∷ nat_eq b'h'
    ∷ nat_eq b'a'
    ∷ nat_eq b'2'
    ∷ nat_eq b'5'
    ∷ nat_eq b'6'
    ∷ nat_eq b':'
    ∷ repeat 64 is_hex []

-- `EXECUTION_CONTENT_HASH_PATTERN.test(s)`.
unfoldable pub is_content_hash : String → Bool
unfolding hash_pattern fits
is_content_hash s = fits hash_pattern (codes s)

-- The white space that `String.prototype.trim` removes.
unfoldable pub is_space : ℕ → Bool
is_space c =
    leb 9 c && leb c 13
    || nat_eq c 32
    || nat_eq c 160
    || nat_eq c 0x1680
    || leb 0x2000 c && leb c 0x200a
    || nat_eq c 0x2028
    || nat_eq c 0x2029
    || nat_eq c 0x202f
    || nat_eq c 0x205f
    || nat_eq c 0x3000
    || nat_eq c 0xfeff

-- `!s.trim()`.
unfoldable pub is_blank : String → Bool
unfolding is_space
is_blank s = all is_space (codes s)
