-- ===== src/Prelude/Text.antt =====
-- Go's `strings.TrimSpace`, `utf8.RuneCountInString`, `strings.Contains` and `strings.ToLower` on
-- valid texts. The lower case of a character is a parameter, a table of Unicode.
use Prim.Native.Nat.{ℕ, zero, suc, ◌+◌, ◌/◌, ◌%◌}
use Prim.Native.Char.{Char, code}
use Prim.Native.String.{String}
use mathlib.Core.Path.{◌≡◌}
use mathlib.Core.Bool.{Bool, true, false, ◌&&◌, ◌||◌}
use guangyue_panel.Prelude.Tests.{ltb, leb, append, ◌==◌, nat_eq, string_eq, if◌then◌else◌}

abbrev pub between : ℕ → ℕ → ℕ → Bool
between low high c = leb low c && leb c high

-- `unicode.IsSpace`.
abbrev pub is_space : Char → Bool
is_space c =
    between 9 13 (code c)
    || code c == 32
    || code c == 133
    || code c == 160
    || code c == 5760
    || between 8192 8202 (code c)
    || between 8232 8233 (code c)
    || code c == 8239
    || code c == 8287
    || code c == 12288

unfoldable pub trim_left : String → String
trim_left String.[] = ""
trim_left (String.◌∷◌ c s) = if is_space c then trim_left s else String.◌∷◌ c s

unfoldable pub trim_right : String → String
trim_right String.[] = ""
trim_right (String.◌∷◌ c s) =
    let rest = trim_right s in if rest == "" && is_space c then "" else String.◌∷◌ c rest

unfoldable pub trim_space : String → String
unfolding trim_left trim_right
trim_space s = trim_right (trim_left s)

unfoldable pub rune_count : String → ℕ
rune_count String.[] = 0
rune_count (String.◌∷◌ c s) = suc (rune_count s)

-- Go's `len` of a text: the bytes of its UTF-8 form.
abbrev pub rune_bytes : Char → ℕ
rune_bytes c =
    if ltb (code c) 128
    then 1
    else if ltb (code c) 2048
    then 2
    else if ltb (code c) 65536
    then 3
    else 4

unfoldable pub byte_length : String → ℕ
byte_length String.[] = 0
byte_length (String.◌∷◌ c s) = rune_bytes c + byte_length s

-- The lower case of a character.
abbrev pub Lower : Type 0
Lower = Char → Char

unfoldable pub to_lower : Lower → String → String
to_lower lower String.[] = ""
to_lower lower (String.◌∷◌ c s) = String.◌∷◌ (lower c) (to_lower lower s)

unfoldable pub has_prefix : String → String → Bool
has_prefix String.[] s = true
has_prefix (String.◌∷◌ c p) String.[] = false
has_prefix (String.◌∷◌ c p) (String.◌∷◌ d s) = code c == code d && has_prefix p s

unfoldable pub contains : String → String → Bool
unfolding has_prefix
contains part String.[] = has_prefix part ""
contains part (String.◌∷◌ c s) = has_prefix part (String.◌∷◌ c s) || contains part s

digit : ℕ → String
digit d =
    if d == 0
    then "0"
    else if d == 1
    then "1"
    else if d == 2
    then "2"
    else if d == 3
    then "3"
    else if d == 4
    then "4"
    else if d == 5
    then "5"
    else if d == 6
    then "6"
    else if d == 7
    then "7"
    else if d == 8
    then "8"
    else "9"

digits : ℕ → ℕ → String → String
unfolding digit
digits zero n rest = rest
digits (suc fuel) n rest =
    let text = append (digit (n % 10)) rest in
    let more = digits fuel (n / 10) text in if ltb n 10 then text else more

-- `strconv.FormatInt` of a number that is not negative, in base ten.
unfoldable pub decimal : ℕ → String
unfolding digits
decimal n = digits (suc n) n ""

-- The order of the database on texts.
pub record TextOrder : Type 0 where
  pub less : String → String → Bool
  pub irreflexive : (a : String) → less a a ≡ false
  pub transitive : (a b c : String) → less a b ≡ true → less b c ≡ true → less a c ≡ true
