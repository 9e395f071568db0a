-- ===== src/Utils/Strings.antt =====
-- utils/strings.go, and the functions of Go's strconv and strings packages that the queue calls.
pub mod Decimal
pub mod Parts
pub mod Digits
use uq.Prelude.{
  ℕ, zero, suc, ◌+◌, ◌-◌, ◌*◌, ◌/◌, ◌%◌, Bytes, List, [], ◌∷◌, ◌++◌, Bool, true, false, ◌||◌, ◌&&◌,
  Option, none, some, ltb, ◌==◌, if◌then◌else◌, u64_mod, codes, ℤ, pos, negsuc, ◌^◌,
}

-- strconv.FormatUint(n, 10): each round prints the last digit; a uint64 has at most 20.
unfoldable pub digits : ℕ → ℕ → Bytes → Bytes
digits zero n out = out
digits (suc fuel) n out =
    let rest = digits fuel (n / 10) ((b'0' + n % 10) ∷ out) in if n == 0 then out else rest

unfoldable pub format_uint : ℕ → Bytes
format_uint n = if n == 0 then b'0' ∷ [] else digits 20 n []

-- strconv.ParseUint(s, 10, 64): digits only, and no value above the largest uint64.
unfoldable pub scan : Bytes → ℕ → Option ℕ
scan [] n = some n
scan (c ∷ s) n =
    if ltb c b'0' || ltb b'9' c
    then none
    else if ltb (u64_mod - 1) (n * 10 + (c - b'0'))
    then none
    else scan s (n * 10 + (c - b'0'))

unfoldable pub parse_uint : Bytes → Option ℕ
parse_uint [] = none
parse_uint (c ∷ s) = scan (c ∷ s) 0

-- itoaNums: the prints of `n` numbers from `i` on.
unfoldable pub itoa_table : ℕ → ℕ → List Bytes
itoa_table zero i = []
itoa_table (suc n) i = format_uint i ∷ itoa_table n (i + 1)

abbrev pub itoa_count : ℕ
itoa_count = 1000

-- A read of the table, which is never out of range.
unfoldable pub table_at : List Bytes → ℕ → Bytes
table_at [] i = []
table_at (s ∷ table) zero = s
table_at (s ∷ table) (suc i) = table_at table i

-- ItoaQuick, on the ints that are not negative.
unfoldable pub itoa_quick : ℕ → Bytes
itoa_quick i =
    if ltb 0 i && ltb i itoa_count then table_at (itoa_table itoa_count 0) i else format_uint i

-- Acatui
unfoldable pub acatui : Bytes → Bytes → ℕ → Bytes
acatui str b n = str ++ (b ++ format_uint n)

-- strings.TrimPrefix(key, "/")
unfoldable pub trim_slash_prefix : Bytes → Bytes
trim_slash_prefix [] = []
trim_slash_prefix (c ∷ s) = if c == b'/' then s else c ∷ s

-- strings.TrimSuffix(key, "/")
unfoldable pub trim_slash_suffix : Bytes → Bytes
trim_slash_suffix [] = []
trim_slash_suffix (c ∷ []) = if c == b'/' then [] else c ∷ []
trim_slash_suffix (c ∷ d ∷ s) = c ∷ trim_slash_suffix (d ∷ s)

-- Puts a byte in front of the first part, or opens a part in front of it.
pub extend : Bool → ℕ → List Bytes → List Bytes
extend true c parts = [] ∷ parts
extend false c [] = (c ∷ []) ∷ []
extend false c (p ∷ parts) = (c ∷ p) ∷ parts

-- strings.Split(key, "/"): one more part than there are slashes.
unfoldable pub split_slash : Bytes → List Bytes
unfolding extend
split_slash [] = [] ∷ []
split_slash (c ∷ s) = extend (c == b'/') c (split_slash s)

-- Acati, on the ints that are not negative.
unfoldable pub acati : Bytes → Bytes → ℕ → Bytes
unfolding acatui
acati str b n = acatui str b n

-- Addrcat
unfoldable pub addrcat : Bytes → ℕ → Bytes
unfolding acati
addrcat host port = acati host (codes ":") port

-- strings.Trim(str, " "): the spaces in front, and those behind.
unfoldable pub trim_left : Bytes → Bytes
trim_left [] = []
trim_left (c ∷ s) = let rest = trim_left s in if c == b' ' then rest else c ∷ s

-- Puts a byte in front, unless it is a space and nothing is left behind it.
keep_unless_last : ℕ → Bytes → Bytes
keep_unless_last c [] = if c == b' ' then [] else c ∷ []
keep_unless_last c (d ∷ s) = c ∷ d ∷ s

unfoldable pub trim_right : Bytes → Bytes
unfolding keep_unless_last
trim_right [] = []
trim_right (c ∷ s) = keep_unless_last c (trim_right s)

-- Atoi of the package: a text that is no uint64 reads as 0.
unfoldable pub atoi_or_zero : Bytes → ℕ
unfolding trim_left trim_right
atoi_or_zero str = elim (parse_uint (trim_right (trim_left str))) [ none ↦ 0 | some n ↦ n ]

-- strconv.Atoi: a sign and digits, of a number that fits in an int64.
unfoldable pub within_int : Bool → Option ℕ → Option ℤ
within_int negative none = none
within_int false (some n) = if ltb n (2 ^ 63) then some (pos n) else none
within_int true (some zero) = some (pos 0)
within_int true (some (suc n)) = if ltb n (2 ^ 63) then some (negsuc n) else none

unfoldable pub atoi : Bytes → Option ℤ
unfolding within_int
atoi [] = none
atoi (c ∷ s) =
    if c == b'-'
    then within_int true (parse_uint s)
    else if c == b'+'
    then within_int false (parse_uint s)
    else within_int false (parse_uint (c ∷ s))

-- strconv.Itoa, and ItoaQuick, on any int.
unfoldable pub itoa : ℤ → Bytes
itoa (pos n) = format_uint n
itoa (negsuc n) = b'-' ∷ format_uint (suc n)

unfoldable pub itoa_quick_int : ℤ → Bytes
unfolding itoa_quick itoa
itoa_quick_int (pos n) = itoa_quick n
itoa_quick_int (negsuc n) = itoa (negsuc n)

-- strings.Join(parts, sep)
unfoldable pub join : Bytes → List Bytes → Bytes
join sep [] = []
join sep (p ∷ []) = p
join sep (p ∷ q ∷ ps) = p ++ (sep ++ join sep (q ∷ ps))

-- strings.HasPrefix(s, prefix)
unfoldable pub has_prefix : Bytes → Bytes → Bool
has_prefix s [] = true
has_prefix [] (p ∷ ps) = false
has_prefix (c ∷ s) (p ∷ ps) = (c == p) && has_prefix s ps

-- strings.Contains(s, text)
unfoldable pub contains : Bytes → Bytes → Bool
unfolding has_prefix
contains [] text = has_prefix [] text
contains (c ∷ s) text = has_prefix (c ∷ s) text || contains s text

byte_in : ℕ → Bytes → Bool
byte_in c [] = false
byte_in c (d ∷ ds) = (c == d) || byte_in c ds

-- strings.ContainsAny(s, chars), for ASCII `chars`.
unfoldable pub contains_any : Bytes → Bytes → Bool
unfolding byte_in
contains_any [] chars = false
contains_any (c ∷ s) chars = byte_in c chars || contains_any s chars
