-- ===== src/Common/Split.antt =====
-- `strings.Fields` and `strings.SplitN(s, sep, 2)` on ASCII text, decimal numbers.
use files_downloader_golang.Common.{
  ℕ, zero, suc, ◌+◌, ◌-◌, ◌*◌, ◌/◌, ◌%◌, ◌^◌, ◌<◌, ◌≡◌, ◌∙◌, ap, sym, Bool, true, false, not, ◌&&◌,
  ◌||◌, Option, none, some, List, [], ◌∷◌, ◌++◌, append-nil, append_assoc, arith, ltb, leb, ◌==◌,
  if◌then◌else◌, Bool-cases, ◌≢◌, inl, inr,
}
use files_downloader_golang.Common.Int.{ℤ, pos, negsuc}
use files_downloader_golang.Common.Text.{Bytes}

-- The ASCII characters that `unicode.IsSpace` holds of.
abbrev pub is_space : ℕ → Bool
is_space c = leb 9 c && leb c 13 || c == 32

abbrev pub is_empty : Bytes → Bool
is_empty [] = true
is_empty (c ∷ s) = false

-- `word` is the field being read.
unfoldable pub fields_from : Bytes → Bytes → List Bytes
fields_from word [] = if is_empty word then [] else word ∷ []
fields_from word (c ∷ s) =
    let rest = fields_from (if is_space c then [] else word ++ c ∷ []) s in
    if is_space c && not (is_empty word) then word ∷ rest else rest

abbrev pub fields : Bytes → List Bytes
fields = fields_from []

abbrev cons_first : ℕ → Option (Bytes × Bytes) → Option (Bytes × Bytes)
cons_first c none = none
cons_first c (some (a, b)) = some (c ∷ a, b)

-- The text in front of the first separator and the text behind it, if there is one.
unfoldable pub split_at : ℕ → Bytes → Option (Bytes × Bytes)
split_at sep [] = none
split_at sep (c ∷ s) = if c == sep then some ([], s) else cons_first c (split_at sep s)

abbrev pub is_digit : ℕ → Bool
is_digit c = leb b'0' c && leb c b'9'

unfoldable pub parse_digits : Bytes → ℕ → Option ℕ
parse_digits [] n = some n
parse_digits (c ∷ s) n =
    let rest = parse_digits s (n * 10 + (c - b'0')) in if is_digit c then rest else none

abbrev parse_number : Bytes → Option ℕ
parse_number [] = none
parse_number (c ∷ s) = parse_digits (c ∷ s) 0

abbrev positive : Option ℕ → Option ℤ
positive none = none
positive (some n) = if ltb n (2 ^ 63) then some (pos n) else none

abbrev negative : Option ℕ → Option ℤ
negative none = none
negative (some zero) = some (pos 0)
negative (some (suc n)) = if ltb n (2 ^ 63) then some (negsuc n) else none

-- `strconv.ParseInt(s, 10, 64)`; `none` is its error.
unfoldable pub parse_int : Bytes → Option ℤ
unfolding parse_digits
parse_int [] = none
parse_int (c ∷ s) =
    if c == b'-'
    then negative (parse_number s)
    else if c == b'+'
    then positive (parse_number s)
    else positive (parse_number (c ∷ s))

-- `%d` of a natural number: its last digit goes in front of `out`.
unfoldable pub digits_onto : ℕ → ℕ → Bytes → Bytes
digits_onto zero n out = out
digits_onto (suc fuel) n out =
    let rest = digits_onto fuel (n / 10) ((b'0' + n % 10) ∷ out) in
    if ltb n 10 then (b'0' + n) ∷ out else rest

-- A number has at most as many digits as its value and one.
unfoldable pub decimal : ℕ → Bytes
unfolding digits_onto
decimal n = digits_onto (suc n) n []

parse_digits-digits_onto :
    (fuel n : ℕ) (out : Bytes)
    → n < fuel
    → parse_digits (digits_onto fuel n out) 0 ≡ parse_digits out n
unfolding parse_digits digits_onto
parse_digits-digits_onto zero n out h = absurd (omega arith)
parse_digits-digits_onto (suc fuel) n out h =
    ground (arith, parse_digits-digits_onto fuel (n / 10) ((b'0' + n % 10) ∷ out))

abbrev pub Digits : Bytes → Type 0
Digits [] = Unit
Digits (c ∷ s) = (is_digit c ≡ true) × Digits s

digits_onto-Digits : (fuel n : ℕ) (out : Bytes) → Digits out → Digits (digits_onto fuel n out)
unfolding digits_onto
digits_onto-Digits zero n out h = h
digits_onto-Digits (suc fuel) n out h = elim (Bool-cases (ltb n 10)) [
  | inl e ↦ rw e (ground arith, h)
  | inr e ↦ rw e (digits_onto-Digits fuel (n / 10) _ (ground arith, h))
]

digits_onto-ne-nil :
    (fuel n : ℕ) (out : Bytes) → n < fuel → (c : ℕ) × (s : Bytes) × (digits_onto fuel n out ≡ c ∷ s)
unfolding digits_onto
digits_onto-ne-nil zero n out h = absurd (omega arith)
digits_onto-ne-nil (suc fuel) n out h = elim (Bool-cases (ltb n 10)) [
  | inl e ↦ (b'0' + n, out, rw e)
  | inr e ↦ rw e (digits_onto-ne-nil fuel (n / 10) _ (ground arith))
]

pub decimal-Digits : (n : ℕ) → Digits (decimal n)
unfolding decimal
decimal-Digits n = digits_onto-Digits (suc n) n [] tt

pub decimal-ne-nil : (n : ℕ) → (c : ℕ) × (s : Bytes) × (decimal n ≡ c ∷ s)
unfolding decimal
decimal-ne-nil n = digits_onto-ne-nil (suc n) n [] (omega arith)

parse_digits-decimal : (n : ℕ) → parse_digits (decimal n) 0 ≡ some n
unfolding decimal parse_digits
parse_digits-decimal n = parse_digits-digits_onto (suc n) n [] (omega arith)

-- What is printed is read back, if an int64 can hold it.
pub parse_int-decimal : (n : ℕ) → n < 2 ^ 63 → parse_int (decimal n) ≡ some (pos n)
unfolding parse_int
parse_int-decimal n h =
    let (c, s, e) = decimal-ne-nil n in
    let digits : Digits (c ∷ s) = rw e at (decimal-Digits n) in
    let value : parse_digits (c ∷ s) 0 ≡ some n = rw e at (parse_digits-decimal n) in
    rw e (ground arith)

abbrev pub Lacks : ℕ → Bytes → Type 0
Lacks sep [] = Unit
Lacks sep (c ∷ s) = (c ≢ sep) × Lacks sep s

-- A word without spaces is one field.
abbrev pub Word : Bytes → Type 0
Word [] = Unit
Word (c ∷ s) = (is_space c ≡ false) × Word s

fields_from-Word :
    (word s rest : Bytes) → Word s → fields_from word (s ++ rest) ≡ fields_from (word ++ s) rest
unfolding fields_from
fields_from-Word word [] rest h = rw append-nil
fields_from-Word word (c ∷ s) rest (h, k) =
    rw h (fields_from-Word (word ++ c ∷ []) s rest k ∙ rw append_assoc)

abbrev pub Filled : Bytes → Type 0
Filled s = is_empty s ≡ false

fields_from_end : (a : Bytes) → Filled a → fields_from a [] ≡ a ∷ []
unfolding fields_from
fields_from_end a h = rw h

fields_from_space : (a b : Bytes) → Filled a → fields_from a (b' ' ∷ b) ≡ a ∷ fields_from [] b
unfolding fields_from
fields_from_space a b h = rw h

-- Two words with a space between them are two fields.
pub fields_pair :
    (a b : Bytes) → Word a → Word b → Filled a → Filled b → fields (a ++ b' ' ∷ b) ≡ a ∷ b ∷ []
fields_pair a b wa wb fa fb =
    fields_from-Word [] a (b' ' ∷ b) wa
    ∙ fields_from_space a b fa
    ∙ ap (◌∷◌ a) (
        ap (fields_from []) (sym (append-nil b))
        ∙ fields_from-Word [] b [] wb
        ∙ fields_from_end b fb)

pub split_at-append :
    (sep : ℕ) (a b : Bytes) → Lacks sep a → split_at sep (a ++ sep ∷ b) ≡ some (a, b)
unfolding split_at
split_at-append sep [] b h = ground arith
split_at-append sep (c ∷ a) b (h, k) = ground (arith, split_at-append sep a b k)
