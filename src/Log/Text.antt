-- ===== src/Log/Text.antt =====
-- The texts of the log: numbers, and the cleaning of what the program gives.
use Prim.Native.Char.{code}
use Prim.Native.String.{String}
use codal_microbit_v.Base.{
  ℕ, zero, suc, ◌+◌, ◌-◌, ◌/◌, ◌%◌, ◌^◌, Bool, true, false, ◌&&◌, ◌||◌, List, [], ◌∷◌, ◌++◌, length,
  take, ltb, ◌==◌, if◌then◌else◌,
}

-- The bytes of a literal.
abbrev pub codes : String → List ℕ
codes String.[] = []
codes (String.◌∷◌ c s) = code c ∷ codes s

-- What a C string holds before its NUL.
unfoldable pub c_string : List ℕ → List ℕ
c_string [] = []
c_string (c ∷ s) = if c == 0 then [] else c ∷ c_string s

unfoldable pub text_eq : List ℕ → List ℕ → Bool
text_eq [] [] = true
text_eq [] (y ∷ ys) = false
text_eq (x ∷ xs) [] = false
text_eq (x ∷ xs) (y ∷ ys) = if x == y then text_eq xs ys else false

-- The text with zeros before it until it has as many digits; it has no more to begin with.
unfoldable pub pad_string : ℕ → List ℕ → ℕ → List ℕ
pad_string zero s digits = s
pad_string (suc fuel) s digits = elim (length s == digits) [
  | true ↦ s
  | false ↦ pad_string fuel (b'0' ∷ s) digits
]

abbrev pub hex_digit : ℕ → ℕ
hex_digit d = if ltb 9 d then b'A' + d - 10 else b'0' + d

-- The digits that writeNum writes, `k` of them; it writes eight and a NUL.
unfoldable pub hex_digits : ℕ → ℕ → List ℕ
hex_digits zero n = []
hex_digits (suc k) n = hex_digit (n / 16 ^ k % 16) ∷ hex_digits k n

-- Bytes 2 to 10 of a field: its number, behind the `0x`.
unfoldable pub write_num : List ℕ → ℕ → List ℕ
unfolding hex_digits
write_num field n = take 2 field ++ (hex_digits 8 n ++ 0 ∷ [])

-- What stands in for a symbol that is not allowed.
abbrev pub invalid_char : ℕ
invalid_char = b'_'

-- Whether a text begins with "-->".
unfoldable pub starts_arrow : List ℕ → Bool
starts_arrow [] = false
starts_arrow (a ∷ []) = false
starts_arrow (a ∷ b ∷ []) = false
starts_arrow (a ∷ b ∷ c ∷ s) = a == b'-' && (b == b'-' && c == b'>')

abbrev pub is_separator : Bool → ℕ → Bool
is_separator remove_separators c = c == 9 || (remove_separators && (c == b',' || c == 10))

-- The loop of cleanBuffer; the next `marked` symbols belong to an arrow that was found.
unfoldable pub clean_loop : ℕ → Bool → List ℕ → List ℕ
unfolding starts_arrow
clean_loop marked remove_separators [] = []
clean_loop marked remove_separators (c ∷ s) =
    let marks = if starts_arrow (c ∷ s) then 3 else marked in
    (if ltb 0 marks || is_separator remove_separators c then invalid_char else c)
    ∷ clean_loop (marks - 1) remove_separators s

-- Whether anything is to clean: else cleanBuffer returns an empty text.
unfoldable pub has_invalid : Bool → List ℕ → Bool
has_invalid remove_separators [] = false
has_invalid remove_separators (c ∷ s) =
    if starts_arrow (c ∷ s) || is_separator remove_separators c
    then true
    else has_invalid remove_separators s

unfoldable pub clean_buffer : Bool → List ℕ → List ℕ
unfolding clean_loop has_invalid
clean_buffer remove_separators s =
    if has_invalid remove_separators s then clean_loop 0 remove_separators s else []

-- The text itself where there is nothing to clean.
unfoldable pub cleaned : Bool → List ℕ → List ℕ
unfolding clean_buffer
cleaned remove_separators s =
    let out = clean_buffer remove_separators s in if length out == 0 then s else out
