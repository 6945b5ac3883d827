-- ===== src/Prelude/Format.antt =====
-- How Python prints what the texts of the program hold: integers, zero-padded and grouped numbers,
-- percent-encoding, and the splitting and stripping of settings and headers.
use Prim.Native.Nat.{ℕ, zero, suc, ◌+◌, ◌/◌, ◌%◌, ◌^◌}
use mathlib.Core.Bool.{Bool, true, false, ◌||◌, ◌&&◌}
use mathlib.Core.List.{List, [], ◌∷◌, ◌++◌, reverse}
use accountant_backend.Prelude.Tests.{ltb, leb, ◌==◌, if◌then◌else◌}
use accountant_backend.Prelude.Strings.{Text, strip}

-- a digit of base ten or sixteen, in upper case
unfoldable pub digit : ℕ → ℕ
digit d = if ltb d 10 then d + 48 else d + 55

-- the decimal digits, the last first; a number has fewer digits than itself and one
unfoldable pub digits_rev : ℕ → ℕ → Text
unfolding digit
digits_rev zero n = []
digits_rev (suc fuel) n =
    let rest = digits_rev fuel (n / 10) in if ltb n 10 then digit n ∷ [] else digit (n % 10) ∷ rest

-- `str(n)`
unfoldable pub decimal : ℕ → Text
unfolding digits_rev
decimal n = reverse (digits_rev (suc n) n)

-- `f"{n:02d}"` of a number below a hundred
unfoldable pub two_digits : ℕ → Text
unfolding digit
two_digits n = digit (n / 10 % 10) ∷ digit (n % 10) ∷ []

-- `f"{n:04d}"` of a number below ten thousand
unfoldable pub four_digits : ℕ → Text
unfolding two_digits
four_digits n = two_digits (n / 100) ++ two_digits (n % 100)

-- a dot after each three digits, counted from the end that stands first here
unfoldable pub group_rev : Text → Text
group_rev (a ∷ b ∷ c ∷ d ∷ rest) = a ∷ b ∷ c ∷ b'.' ∷ group_rev (d ∷ rest)
group_rev s = s

-- `f"{n:,}".replace(",", ".")`
unfoldable pub grouped : ℕ → Text
unfolding digits_rev group_rev
grouped n = reverse (group_rev (digits_rev (suc n) n))

-- the letters, digits and marks that `quote` leaves alone
unfoldable pub is_unreserved : ℕ → Bool
is_unreserved c =
    (leb b'a' c && leb c b'z')
    || (leb b'A' c && leb c b'Z')
    || (leb b'0' c && leb c b'9')
    || c == b'_'
    || c == b'.'
    || c == b'-'
    || c == b'~'

-- the bytes of a code point in UTF-8
unfoldable pub utf8 : ℕ → List ℕ
utf8 c =
    if ltb c 0x80
    then c ∷ []
    else if ltb c 0x800
    then (0xc0 + c / 64) ∷ (0x80 + c % 64) ∷ []
    else if ltb c 0x10000
    then (0xe0 + c / 4096) ∷ (0x80 + c / 64 % 64) ∷ (0x80 + c % 64) ∷ []
    else (0xf0 + c / 262144) ∷ (0x80 + c / 4096 % 64) ∷ (0x80 + c / 64 % 64) ∷ (0x80 + c % 64) ∷ []

unfoldable pub percent : List ℕ → Text
unfolding digit
percent [] = []
percent (b ∷ bytes) = b'%' ∷ digit (b / 16) ∷ digit (b % 16) ∷ percent bytes

-- `quote(s, safe="")`
unfoldable pub quote : Text → Text
unfolding is_unreserved utf8 percent
quote [] = []
quote (c ∷ s) = let rest = quote s in if is_unreserved c then c ∷ rest else percent (utf8 c) ++ rest

unfoldable pub lstrip_char : ℕ → Text → Text
lstrip_char c [] = []
lstrip_char c (a ∷ s) = let rest = lstrip_char c s in if a == c then rest else a ∷ s

-- `s.rstrip(c)`
unfoldable pub rstrip_char : ℕ → Text → Text
unfolding lstrip_char
rstrip_char c s = reverse (lstrip_char c (reverse s))

unfoldable pub starts_with : Text → Text → Bool
starts_with [] s = true
starts_with (a ∷ p) [] = false
starts_with (a ∷ p) (b ∷ s) = a == b && starts_with p s

-- the first part and the others, the parts of `s.split(c)`
unfoldable pub split_first : ℕ → Text → Text × List Text
split_first c [] = ([], [])
split_first c (a ∷ s) =
    let (part, parts) = split_first c s in if a == c then ([], part ∷ parts) else (a ∷ part, parts)

-- `s.split(c)`
unfoldable pub split : ℕ → Text → List Text
unfolding split_first
split c s = let (part, parts) = split_first c s in part ∷ parts

-- `[part.strip() for part in parts]`
unfoldable pub strip_all : List Text → List Text
unfolding strip
strip_all [] = []
strip_all (s ∷ parts) = strip s ∷ strip_all parts

-- the last digits in base sixteen, in lower case, the last first
unfoldable pub hex_rev : ℕ → ℕ → Text
hex_rev zero n = []
hex_rev (suc count) n =
    let d = n % 16 in (if ltb d 10 then d + 48 else d + 87) ∷ hex_rev count (n / 16)

unfoldable pub hex : ℕ → ℕ → Text
unfolding hex_rev
hex count n = reverse (hex_rev count n)

-- `str(id)` of a `UUID`
unfoldable pub uuid_text : ℕ → Text
unfolding hex
uuid_text id =
    hex 8 (id / 2 ^ 96)
    ++ b'-' ∷ hex 4 (id / 2 ^ 80)
    ++ b'-' ∷ hex 4 (id / 2 ^ 64)
    ++ b'-' ∷ hex 4 (id / 2 ^ 48)
    ++ b'-' ∷ hex 12 id
