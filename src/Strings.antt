-- ===== src/Strings.antt =====
-- Functions of Go's packages strings and unicode, as compiler/asm/parse.go uses them.
use wrela.Prelude.{
  not, ℕ, zero, suc, ◌-◌, Bool, true, false, ◌&&◌, ◌||◌, List, [], ◌∷◌, ◌++◌, Option, none, some,
  ◌==◌, leb, if◌then◌else◌, length,
}
use wrela.Bytes.{Bytes, has_prefix}
use wrela.Lex.Utf8.{decode_rune, encode_rune}

-- The tables of the package `unicode`: `IsLetter`, `IsDigit` and `ToLower`.
pub record CaseTables : Type 0 where
  pub is_letter : ℕ → Bool
  pub is_digit : ℕ → Bool
  pub lower_rune : ℕ → ℕ

-- `unicode.IsSpace`
abbrev pub is_space_rune : ℕ → Bool
is_space_rune r =
    leb 9 r && leb r 13
    || r == 32
    || r == 0x85
    || r == 0xA0
    || r == 0x1680
    || leb 0x2000 r && leb r 0x200A
    || r == 0x2028
    || r == 0x2029
    || r == 0x202F
    || r == 0x205F
    || r == 0x3000

abbrev rune_at : ℕ → Bytes → ℕ
rune_at b bs = (decode_rune (b ∷ bs)).0

-- How many bytes behind the first one belong to its rune.
abbrev rest_width : ℕ → Bytes → ℕ
rest_width b bs = (decode_rune (b ∷ bs)).1 - 1

unfoldable pub trim_start : ℕ → Bytes → Bytes
trim_start skip [] = []
trim_start (suc skip) (b ∷ bs) = trim_start skip bs
trim_start zero (b ∷ bs) =
    let rest = trim_start (rest_width b bs) bs in
    if is_space_rune (rune_at b bs) then rest else b ∷ bs

-- The bytes of the rune at hand stay, unless it is a space and nothing stays behind it.
unfoldable pub trim_end : ℕ → Bytes → Bytes
trim_end skip [] = []
trim_end (suc skip) (b ∷ bs) = b ∷ trim_end skip bs
trim_end zero (b ∷ bs) =
    let rest = trim_end (rest_width b bs) bs in
    if is_space_rune (rune_at b bs) && length rest == rest_width b bs then [] else b ∷ rest

-- `strings.TrimSpace`
unfoldable pub trim_space : Bytes → Bytes
unfolding trim_start trim_end
trim_space s = trim_end 0 (trim_start 0 s)

-- `strings.ToLower`, a rune at a time.
unfoldable pub lower_text_loop : CaseTables → ℕ → Bytes → Bytes
lower_text_loop u skip [] = []
lower_text_loop u (suc skip) (b ∷ bs) = lower_text_loop u skip bs
lower_text_loop u zero (b ∷ bs) =
    encode_rune (u.lower_rune (rune_at b bs)) ++ lower_text_loop u (rest_width b bs) bs

unfoldable pub lower_text : CaseTables → Bytes → Bytes
unfolding lower_text_loop
lower_text u s = lower_text_loop u 0 s

abbrev push_front : ℕ → List Bytes → List Bytes
push_front b [] = (b ∷ []) ∷ []
push_front b (piece ∷ pieces) = (b ∷ piece) ∷ pieces

-- `strings.Split` at one byte.
unfoldable pub split_on : ℕ → Bytes → List Bytes
split_on c [] = [] ∷ []
split_on c (b ∷ bs) = let rest = split_on c bs in if b == c then [] ∷ rest else push_front b rest

abbrev with_front : ℕ → Option (Bytes × Bytes) → Option (Bytes × Bytes)
with_front b none = none
with_front b (some (before, behind)) = some (b ∷ before, behind)

-- What stands before and behind the first byte that passes a test.
unfoldable pub split_first : (ℕ → Bool) → Bytes → Option (Bytes × Bytes)
split_first test [] = none
split_first test (b ∷ bs) =
    let rest = with_front b (split_first test bs) in if test b then some ([], bs) else rest

abbrev split_here : Bool → Bytes → Option (Bytes × Bytes)
split_here true bs = some ([], bs)
split_here false bs = none

abbrev or_here : Bool → ℕ → Bytes → Option (Bytes × Bytes) → Option (Bytes × Bytes)
or_here found b bs none = split_here found bs
or_here found b bs (some (before, behind)) = some (b ∷ before, behind)

-- What stands before and behind the last byte `c`.
unfoldable pub split_last : ℕ → Bytes → Option (Bytes × Bytes)
split_last c [] = none
split_last c (b ∷ bs) = or_here (b == c) b bs (split_last c bs)

-- The line up to `//`.
unfoldable pub cut_comment : Bytes → Bytes
cut_comment [] = []
cut_comment (b ∷ bs) =
    let rest = cut_comment bs in if has_prefix (b'/' ∷ b'/' ∷ []) (b ∷ bs) then [] else b ∷ rest

-- Without the blanks and tabs.
unfoldable pub remove_blanks : Bytes → Bytes
remove_blanks [] = []
remove_blanks (b ∷ bs) = let rest = remove_blanks bs in if b == 32 || b == 9 then rest else b ∷ rest

abbrev is_nil : Bytes → Bool
is_nil [] = true
is_nil (b ∷ bs) = false

-- `strings.Fields`: the words between spaces, with the word at hand. The bytes of the rune at hand
-- that are still to be passed belong to the word, or to a space.
unfoldable pub fields_loop : Bool → ℕ → Bytes → Bytes → List Bytes
fields_loop spaced skip [] [] = []
fields_loop spaced skip (w ∷ word) [] = (w ∷ word) ∷ []
fields_loop spaced (suc skip) word (b ∷ bs) =
    fields_loop spaced skip (if spaced then word else word ++ b ∷ []) bs
fields_loop before zero word (b ∷ bs) =
    let spaced = is_space_rune (rune_at b bs) in
    let rest = fields_loop spaced (rest_width b bs) (if spaced then [] else word ++ b ∷ []) bs in
    if spaced && not (is_nil word) then word ∷ rest else rest

unfoldable pub fields : Bytes → List Bytes
unfolding fields_loop
fields s = fields_loop false 0 [] s
