-- ===== src/Text.antt =====
-- The text operations of the program: str.split, slices, f-strings and the test for hex digits.
use Prim.Native.Char.{Char, code}
use Prim.Native.Nat.{◌/◌, ◌%◌}
use simple_evolution.Prelude.{
  ℕ, zero, suc, String, ◌<>◌, Bool, true, false, ◌&&◌, ◌||◌, List, [], ◌∷◌, ltb, leb, nat_beq,
  length, take, all, if◌then◌else◌,
}

abbrev pub chars : String → List Char
chars String.[] = []
chars (String.◌∷◌ c s) = c ∷ chars s

abbrev pub of_chars : List Char → String
of_chars [] = String.[]
of_chars (c ∷ cs) = String.◌∷◌ c (of_chars cs)

unfoldable pub between : ℕ → ℕ → ℕ → Bool
between lo hi c = leb lo c && leb c hi

-- str.isspace, the separators of str.split()
unfoldable pub is_space : ℕ → Bool
unfolding between
is_space c =
    between 9 13 c
    || between 28 32 c
    || nat_beq c 0x85
    || nat_beq c 0xa0
    || nat_beq c 0x1680
    || between 0x2000 0x200a c
    || between 0x2028 0x2029 c
    || nat_beq c 0x202f
    || nat_beq c 0x205f
    || nat_beq c 0x3000

-- `word` is the word that is being read, last character first.
unfoldable pub flush : List Char → List String → List String
flush [] ws = ws
flush (c ∷ cs) ws = of_chars (backwards (c ∷ cs) []) ∷ ws
  where
    backwards : List Char → List Char → List Char
    backwards [] acc = acc
    backwards (d ∷ ds) acc = backwards ds (d ∷ acc)

unfoldable pub split_chars : List Char → List Char → List String
unfolding flush is_space
split_chars [] word = flush word []
split_chars (c ∷ cs) word =
    let space = flush word (split_chars cs []) in
    let letter = split_chars cs (c ∷ word) in if is_space (code c) then space else letter

-- s.split()
unfoldable pub split : String → List String
unfolding split_chars
split s = split_chars (chars s) []

-- " ".join(ws)
abbrev pub join : List String → String
join [] = ""
join (w ∷ []) = w
join (w ∷ v ∷ ws) = w <> (" " <> join (v ∷ ws))

-- s[:n]
abbrev pub prefix : ℕ → String → String
prefix n s = of_chars (take n (chars s))

-- c in "0123456789abcdef"
unfoldable pub is_hex : Char → Bool
unfolding between
is_hex c = between b'0' b'9' (code c) || between b'a' b'f' (code c)

-- A git object name: 40 lower-case hex digits.
unfoldable pub is_sha : String → Bool
unfolding is_hex
is_sha s = nat_beq (length (chars s)) 40 && all is_hex (chars s)

unfoldable pub digit : ℕ → String
digit zero = "0"
digit (suc zero) = "1"
digit (suc (suc zero)) = "2"
digit (suc (suc (suc zero))) = "3"
digit (suc (suc (suc (suc zero)))) = "4"
digit (suc (suc (suc (suc (suc zero))))) = "5"
digit (suc (suc (suc (suc (suc (suc zero)))))) = "6"
digit (suc (suc (suc (suc (suc (suc (suc zero))))))) = "7"
digit (suc (suc (suc (suc (suc (suc (suc (suc zero)))))))) = "8"
digit _ = "9"

-- A number below 10 ^ fuel in decimal.
unfoldable pub show_digits : ℕ → ℕ → String → String
unfolding digit
show_digits zero n rest = rest
show_digits (suc fuel) n rest =
    let more = show_digits fuel (n / 10) (digit (n % 10) <> rest) in
    if ltb n 10 then digit n <> rest else more

-- str(n)
unfoldable pub show : ℕ → String
unfolding show_digits
show n = show_digits (suc n) n ""

backwards : List Char → List Char → List Char
backwards [] acc = acc
backwards (c ∷ cs) acc = backwards cs (c ∷ acc)

skip_spaces : List Char → List Char
unfolding is_space
skip_spaces [] = []
skip_spaces (c ∷ cs) = let rest = skip_spaces cs in if is_space (code c) then rest else c ∷ cs

-- s.strip()
unfoldable pub strip : String → String
unfolding backwards skip_spaces
strip s = of_chars (backwards (skip_spaces (backwards (skip_spaces (chars s)) [])) [])

unfoldable pub chars_before : List Char → List Char → Bool
chars_before _ [] = false
chars_before [] (d ∷ ds) = true
chars_before (c ∷ cs) (d ∷ ds) =
    let rest = chars_before cs ds in ltb (code c) (code d) || (nat_beq (code c) (code d) && rest)

-- s < t, by code points; the order of UTF-8 bytes is the same one.
unfoldable pub text_before : String → String → Bool
unfolding chars_before
text_before s t = chars_before (chars s) (chars t)

-- s.startswith(prefix), on code points.
unfoldable pub starts_with : List Char → List Char → Bool
starts_with [] s = true
starts_with (c ∷ cs) [] = false
starts_with (c ∷ cs) (d ∷ ds) = let rest = starts_with cs ds in nat_beq (code c) (code d) && rest
