-- ===== src/Utf8.antt =====
-- Texts as bytes: C strings, and UTF-8 as `std::str` reads it.
use mathlib.Core.Option
use void_orchestrator.Base.{
  ℕ, zero, suc, Bool, true, false, ◌&&◌, Option, none, some, List, [], ◌∷◌, ◌++◌, leb, ltb, ◌==◌,
  nat_eq, contains, length, take, drop, if◌then◌else◌,
}

-- `CStr::from_bytes_with_nul(bytes)`: the one zero is the last byte. The result lacks it.
unfoldable pub from_bytes_with_nul : List ℕ → Option (List ℕ)
from_bytes_with_nul [] = none
from_bytes_with_nul (b ∷ []) = if b == 0 then some [] else none
from_bytes_with_nul (b ∷ c ∷ rest) =
    let more = Option.map (λ s. b ∷ s) (from_bytes_with_nul (c ∷ rest)) in
    if b == 0 then none else more

abbrev in_range : ℕ → ℕ → ℕ → Bool
in_range low high b = leb low b && leb b high

-- The byte at a place, and 0 past the end.
abbrev byte_at : ℕ → List ℕ → ℕ
byte_at i [] = 0
byte_at zero (b ∷ bytes) = b
byte_at (suc i) (b ∷ bytes) = byte_at i bytes

-- The bytes that one step of the decoder takes: a character, or what begins none.
pub data Chunk : Type 0 where
  valid : ℕ → Chunk
  invalid : ℕ → Chunk

abbrev is_continuation : ℕ → Bool
is_continuation = in_range 128 191

-- The second byte of a character of three bytes, and of one of four.
abbrev second_of_three : ℕ → ℕ → Bool
second_of_three first b =
    if first == 224
    then in_range 160 191 b
    else if first == 237
    then in_range 128 159 b
    else is_continuation b

abbrev second_of_four : ℕ → ℕ → Bool
second_of_four first b =
    if first == 240
    then in_range 144 191 b
    else if first == 244
    then in_range 128 143 b
    else is_continuation b

unfoldable pub next_chunk : ℕ → List ℕ → Chunk
next_chunk b rest =
    if ltb b 128
    then valid 1
    else if in_range 194 223 b
    then if is_continuation (byte_at 0 rest) then valid 2 else invalid 1
    else if in_range 224 239 b
    then if second_of_three b (byte_at 0 rest)
      then if is_continuation (byte_at 1 rest) then valid 3 else invalid 2
      else invalid 1
    else if in_range 240 244 b
    then if second_of_four b (byte_at 0 rest)
      then if is_continuation (byte_at 1 rest)
        then if is_continuation (byte_at 2 rest) then valid 4 else invalid 3
        else invalid 2
      else invalid 1
    else invalid 1

-- U+FFFD
abbrev replacement : List ℕ
replacement = 239 ∷ 191 ∷ 189 ∷ []

-- The fuel is the number of bytes: each step takes one or more.
unfoldable pub lossy_from : ℕ → List ℕ → List ℕ
unfolding next_chunk
lossy_from zero bytes = []
lossy_from (suc fuel) [] = []
lossy_from (suc fuel) (b ∷ rest) = elim (next_chunk b rest) [
  | valid n ↦ take n (b ∷ rest) ++ lossy_from fuel (drop n (b ∷ rest))
  | invalid n ↦ replacement ++ lossy_from fuel (drop n (b ∷ rest))
]

-- `String::from_utf8_lossy`
unfoldable pub to_string_lossy : List ℕ → List ℕ
unfolding lossy_from
to_string_lossy bytes = lossy_from (length bytes) bytes

unfoldable pub is_utf8_from : ℕ → List ℕ → Bool
unfolding next_chunk
is_utf8_from zero bytes = true
is_utf8_from (suc fuel) [] = true
is_utf8_from (suc fuel) (b ∷ rest) = elim (next_chunk b rest) [
  | valid n ↦ is_utf8_from fuel (drop n (b ∷ rest))
  | invalid n ↦ false
]

-- `str::from_utf8(bytes)`
unfoldable pub from_utf8 : List ℕ → Option (List ℕ)
unfolding is_utf8_from
from_utf8 bytes = if is_utf8_from (length bytes) bytes then some bytes else none

-- `CString::new(bytes)`, without the zero that it adds: it fails where there is a zero.
unfoldable pub c_string : List ℕ → Option (List ℕ)
c_string bytes = if contains bytes 0 then none else some bytes
