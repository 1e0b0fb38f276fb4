-- ===== src/Prelude/Utf8.antt =====
-- UTF-8 as `String::from_utf8` checks it, the characters of a text, its lines and its words.
use Prim.Native.Nat.{ℕ, zero, suc, ◌+◌, ◌-◌, ◌*◌}
use mathlib.Core.Path.{◌≡◌, refl}
use mathlib.Core.Logic.{◌≢◌}
use mathlib.Core.List.{List, [], ◌∷◌, ◌++◌}
use codex_autoapprover.Prelude.Lists.{all}
use mathlib.Core.Bool.{Bool, true, false, ◌&&◌, ◌||◌}
use mathlib.Core.Option.{Option, none, some}
use native.Mathlib.Omega.{arith}
use codex_autoapprover.Prelude.Tests.{if◌then◌else◌, leb, ltb, nat_eqb}
use codex_autoapprover.Prelude.Text.{Bytes}

-- The ranges of the bytes that must follow a leading byte (the table of well-formed sequences).
abbrev tail_range : ℕ × ℕ
tail_range = (0x80, 0xbf)

after_lead : ℕ → Option (List (ℕ × ℕ))
after_lead b =
    if ltb b 0x80
    then some []
    else if ltb b 0xc2
    then none
    else if ltb b 0xe0
    then some (tail_range ∷ [])
    else if nat_eqb b 0xe0
    then some ((0xa0, 0xbf) ∷ tail_range ∷ [])
    else if nat_eqb b 0xed
    then some ((0x80, 0x9f) ∷ tail_range ∷ [])
    else if ltb b 0xf0
    then some (tail_range ∷ tail_range ∷ [])
    else if nat_eqb b 0xf0
    then some ((0x90, 0xbf) ∷ tail_range ∷ tail_range ∷ [])
    else if ltb b 0xf4
    then some (tail_range ∷ tail_range ∷ tail_range ∷ [])
    else if nat_eqb b 0xf4
    then some ((0x80, 0x8f) ∷ tail_range ∷ tail_range ∷ [])
    else none

next_pending : List (ℕ × ℕ) → ℕ → Option (List (ℕ × ℕ))
unfolding after_lead
next_pending [] b = after_lead b
next_pending ((lo, hi) ∷ rest) b = if leb lo b && leb b hi then some rest else none

utf8_from : Option (List (ℕ × ℕ)) → Bytes → Bool
unfolding next_pending
utf8_from none s = false
utf8_from (some []) [] = true
utf8_from (some (r ∷ rs)) [] = false
utf8_from (some pending) (b ∷ s) = utf8_from (next_pending pending b) s

unfoldable pub is_utf8 : Bytes → Bool
unfolding utf8_from
is_utf8 s = utf8_from (some []) s

-- U+FFFD
abbrev replacement : Bytes
replacement = 0xef ∷ 0xbf ∷ 0xbd ∷ []

-- What is printed at a byte, the bytes of an unfinished character, and what must follow them.
abbrev Lossy : Type 0
Lossy = Bytes × Bytes × List (ℕ × ℕ)

lossy_begin : ℕ → Lossy
unfolding after_lead
lossy_begin b = elim (after_lead b) [
  | none ↦ (replacement, [], [])
  | some ranges ↦ if is_empty ranges then (b ∷ [], [], []) else ([], b ∷ [], ranges)
]
  where
    is_empty : List (ℕ × ℕ) → Bool
    is_empty [] = true
    is_empty (r ∷ rs) = false

-- A byte that does not fit closes the unfinished character and is looked at by itself.
lossy_step : Bytes → List (ℕ × ℕ) → ℕ → Lossy
unfolding lossy_begin
lossy_step part [] b = lossy_begin b
lossy_step part ((lo, hi) ∷ []) b =
    let (out, begun, ranges) = lossy_begin b in
    if leb lo b && leb b hi then (part ++ b ∷ [], [], []) else (replacement ++ out, begun, ranges)
lossy_step part ((lo, hi) ∷ r ∷ rs) b =
    let (out, begun, ranges) = lossy_begin b in
    if leb lo b && leb b hi
    then ([], part ++ b ∷ [], r ∷ rs)
    else (replacement ++ out, begun, ranges)

lossy_from : Bytes → List (ℕ × ℕ) → Bytes → Bytes
unfolding lossy_step
lossy_from part [] [] = []
lossy_from part (r ∷ rs) [] = replacement
lossy_from part ranges (b ∷ s) =
    let (out, part', ranges') = lossy_step part ranges b in out ++ lossy_from part' ranges' s

-- `to_string_lossy`: each longest beginning of a character that is not one becomes U+FFFD.
unfoldable pub to_string_lossy : Bytes → Bytes
unfolding lossy_from
to_string_lossy s = lossy_from [] [] s

-- `env::var(key).ok()`, of what `env::var_os(key)` answers: a value that is no text is as an unset
-- one.
unfoldable pub var_ok : Option Bytes → Option Bytes
unfolding is_utf8
var_ok none = none
var_ok (some value) = if is_utf8 value then some value else none

lossy_of_a_stray_byte :
    to_string_lossy (0x61 ∷ 0xff ∷ 0x62 ∷ 0xe2 ∷ 0x82 ∷ [])
    ≡ 0x61 ∷ 0xef ∷ 0xbf ∷ 0xbd ∷ 0x62 ∷ 0xef ∷ 0xbf ∷ 0xbd ∷ []
unfolding to_string_lossy
lossy_of_a_stray_byte = refl

lossy_of_characters :
    to_string_lossy (0xc3 ∷ 0xa9 ∷ 0xe2 ∷ 0x82 ∷ 0xac ∷ []) ≡ 0xc3 ∷ 0xa9 ∷ 0xe2 ∷ 0x82 ∷ 0xac ∷ []
unfolding to_string_lossy
lossy_of_characters = refl

-- ASCII is well formed.
ascii-utf8_from : (s : Bytes) → all (λ b. ltb b 0x80) s ≡ true → utf8_from (some []) s ≡ true
unfolding utf8_from next_pending after_lead
ascii-utf8_from [] h = refl
ascii-utf8_from (b ∷ s) h = ground (arith, ascii-utf8_from s)

pub ascii-is_utf8 : (s : Bytes) → all (λ b. ltb b 0x80) s ≡ true → is_utf8 s ≡ true
unfolding is_utf8
ascii-is_utf8 s h = ascii-utf8_from s h

-- The characters of a well-formed text: the bytes still missing, the value so far, the rest.
chars_from : ℕ → ℕ → Bytes → List ℕ
chars_from missing acc [] = []
chars_from zero acc (b ∷ s) =
    let ascii = chars_from 0 0 s in
    let two = chars_from 1 (b - 0xc0) s in
    let three = chars_from 2 (b - 0xe0) s in
    let four = chars_from 3 (b - 0xf0) s in
    if ltb b 0x80 then b ∷ ascii else if ltb b 0xe0 then two else if ltb b 0xf0 then three else four
chars_from (suc zero) acc (b ∷ s) = (acc * 64 + (b - 0x80)) ∷ chars_from 0 0 s
chars_from (suc (suc n)) acc (b ∷ s) = chars_from (suc n) (acc * 64 + (b - 0x80)) s

unfoldable pub chars : Bytes → List ℕ
unfolding chars_from
chars s = chars_from 0 0 s

-- `char::is_control`
unfoldable pub is_control : ℕ → Bool
is_control c = ltb c 0x20 || (leb 0x7f c && ltb c 0xa0)

-- `char::is_whitespace`
unfoldable pub is_whitespace : ℕ → Bool
is_whitespace c =
    nat_eqb c 0x20
    || (leb 9 c && leb c 13)
    || nat_eqb c 0x85
    || nat_eqb c 0xa0
    || nat_eqb c 0x1680
    || (leb 0x2000 c && leb c 0x200a)
    || nat_eqb c 0x2028
    || nat_eqb c 0x2029
    || nat_eqb c 0x202f
    || nat_eqb c 0x205f
    || nat_eqb c 0x3000

-- A byte in front of the first line.
onto_line : ℕ → List Bytes → List Bytes
onto_line c [] = (c ∷ []) ∷ []
onto_line c (line ∷ rest) = (c ∷ line) ∷ rest

-- A carriage return that ends a line belongs to the line ending.
return_or_byte : ℕ → Bytes → List Bytes → List Bytes
return_or_byte c [] rest = onto_line c rest
return_or_byte c (d ∷ s) rest = if nat_eqb c 13 && nat_eqb d 10 then rest else onto_line c rest

-- `str::lines`
unfoldable pub lines : Bytes → List Bytes
unfolding onto_line return_or_byte
lines [] = []
lines (c ∷ s) = let rest = lines s in if nat_eqb c 10 then [] ∷ rest else return_or_byte c s rest

pub lines-ne-nil : (c : ℕ) (s : Bytes) → lines (c ∷ s) ≢ []
unfolding lines
lines-ne-nil c [] = ground arith
lines-ne-nil c (d ∷ s) = ground (arith, lines-ne-nil d s)

lines_of_codes : lines (97 ∷ 13 ∷ 10 ∷ 10 ∷ 98 ∷ 13 ∷ []) ≡ (97 ∷ []) ∷ [] ∷ (98 ∷ 13 ∷ []) ∷ []
unfolding lines
lines_of_codes = refl

two_bytes : chars (0xc3 ∷ 0xa9 ∷ 0xe2 ∷ 0x82 ∷ 0xac ∷ []) ≡ 233 ∷ 8364 ∷ []
unfolding chars
two_bytes = refl
