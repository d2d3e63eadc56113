-- ===== src/Worker/Header.antt =====
-- The `Range` header of a request and the `Content-Range` header of an answer.
use files_downloader_golang.Common.{
  ℕ, ◌+◌, ◌^◌, ◌≤◌, ◌<◌, ◌≡◌, refl, ◌∙◌, ap, sym, append_assoc, Bool, false, ◌&&◌, ◌||◌, Option,
  none, some, List, [], ◌∷◌, ◌++◌, map, arith, leb, if◌then◌else◌,
}
use files_downloader_golang.Common.Int.{ℤ, pos, negsuc, ltb_ℤ}
use files_downloader_golang.Common.Text.{Bytes, codes, text_eq}
use files_downloader_golang.Common.Split.{
  fields, split_at, parse_int, decimal, parse_int-decimal, decimal-Digits, Digits, Word, Lacks,
  fields_pair, split_at-append, Filled, is_digit,
}

-- `%d` of an int64.
unfoldable pub show_int : ℤ → Bytes
show_int (pos n) = decimal n
show_int (negsuc n) = b'-' ∷ decimal (n + 1)

-- The value of `Range`, for `RangeHeader` of chunk.go and for the request of an attempt.
unfoldable pub range_value : ℤ → ℤ → Bytes
unfolding show_int
range_value start end = codes "bytes=" ++ (show_int start ++ (b'-' ∷ show_int end))

abbrev pub lower : ℕ → ℕ
lower c = if leb b'A' c && leb c b'Z' then c + 32 else c

-- `strings.EqualFold` on ASCII text.
unfoldable pub equal_fold : Bytes → Bytes → Bool
equal_fold a b = text_eq (map lower a) (map lower b)

abbrev checked_range : Option ℤ → Option ℤ → Option ℤ → Option (ℤ × ℤ × ℤ)
checked_range (some start) (some end) (some total) =
    if ltb_ℤ start (pos 0) || ltb_ℤ end start then none else some (start, end, total)
checked_range _ _ _ = none

abbrev bounds_of : Option (Bytes × Bytes) → Bytes → Option (ℤ × ℤ × ℤ)
bounds_of none total = none
bounds_of (some (start, end)) total =
    checked_range (parse_int start) (parse_int end) (parse_int total)

abbrev range_of : Option (Bytes × Bytes) → Option (ℤ × ℤ × ℤ)
range_of none = none
range_of (some (bounds, total)) = bounds_of (split_at b'-' bounds) total

-- The text behind the unit: `bounds/total`.
abbrev parse_range : Bytes → Option (ℤ × ℤ × ℤ)
parse_range s = range_of (split_at b'/' s)

abbrev parse_fields : List Bytes → Option (ℤ × ℤ × ℤ)
parse_fields (unit ∷ range ∷ []) =
    if equal_fold unit (codes "bytes") then parse_range range else none
parse_fields _ = none

-- `parseContentRange`; `none` is its `ok == false`.
unfoldable pub parse_content_range : Bytes → Option (ℤ × ℤ × ℤ)
parse_content_range value = parse_fields (fields value)

-- A `Content-Range` value as RFC 9110 writes it.
abbrev pub content_range : ℕ → ℕ → Bytes → Bytes
content_range start end total =
    codes "bytes" ++ b' ' ∷ (decimal start ++ (b'-' ∷ (decimal end ++ (b'/' ∷ total))))

Digits-Word : (s : Bytes) → Digits s → Word s
Digits-Word [] h = tt
Digits-Word (c ∷ s) (h, k) = (ground arith, Digits-Word s k)

Digits-Lacks : (sep : ℕ) (s : Bytes) → is_digit sep ≡ false → Digits s → Lacks sep s
Digits-Lacks sep [] n h = tt
Digits-Lacks sep (c ∷ s) n (h, k) = (λ e. ground arith, Digits-Lacks sep s n k)

Word-append : (a b : Bytes) → Word a → Word b → Word (a ++ b)
Word-append [] b h k = k
Word-append (c ∷ a) b (h, t) k = (h, Word-append a b t k)

Lacks-append : (sep : ℕ) (a b : Bytes) → Lacks sep a → Lacks sep b → Lacks sep (a ++ b)
Lacks-append sep [] b h k = k
Lacks-append sep (c ∷ a) b (h, t) k = (h, Lacks-append sep a b t k)

Filled-append : (a b : Bytes) (c : ℕ) → Filled (a ++ c ∷ b)
Filled-append [] b c = refl
Filled-append (x ∷ a) b c = refl

module _ (s e : ℕ) (total : Bytes) where
  abbrev bounds : Bytes
  bounds = decimal s ++ (b'-' ∷ decimal e)

  abbrev range_text : Bytes
  range_text = decimal s ++ (b'-' ∷ (decimal e ++ (b'/' ∷ total)))

  range_text-Word : Word total → Word range_text
  range_text-Word h =
      Word-append (decimal s) _ (Digits-Word _ (decimal-Digits s))
        (refl, Word-append (decimal e) _ (Digits-Word _ (decimal-Digits e)) (refl, h))

  bounds-Lacks : Lacks b'/' bounds
  bounds-Lacks =
      Lacks-append b'/' (decimal s) _ (Digits-Lacks b'/' _ refl (decimal-Digits s))
        ((λ e. omega arith), Digits-Lacks b'/' _ refl (decimal-Digits e))

  split_range_text : split_at b'/' range_text ≡ some (bounds, total)
  split_range_text =
      ap (split_at b'/') (sym (append_assoc (decimal s) (b'-' ∷ decimal e) (b'/' ∷ total)))
      ∙ split_at-append b'/' bounds total bounds-Lacks

  split_bounds : split_at b'-' bounds ≡ some (decimal s, decimal e)
  split_bounds =
      split_at-append b'-' (decimal s) (decimal e) (Digits-Lacks b'-' _ refl (decimal-Digits s))

  -- What the parser makes of a well-formed value depends on how its total reads.
  parse_content_range-content_range :
      Word total
      → s < 2 ^ 63
      → e < 2 ^ 63
      → parse_content_range (content_range s e total)
        ≡ checked_range (some (pos s)) (some (pos e)) (parse_int total)
  unfolding parse_content_range equal_fold text_eq
  parse_content_range-content_range w hs he =
      ap parse_fields (
        fields_pair (codes "bytes") range_text (refl, (refl, (refl, (refl, (refl, tt)))))
          (range_text-Word w) refl (Filled-append (decimal s) _ b'-'))
      ∙ ap range_of split_range_text
      ∙ ap (λ o. bounds_of o total) split_bounds
      ∙ rw (parse_int-decimal s hs, parse_int-decimal e he)

-- A `Content-Range` with the bounds `s` to `e` and a total is read back as these three numbers.
pub parse_content_range_roundtrip :
    (s e t : ℕ)
    → s ≤ e
    → e < 2 ^ 63
    → t < 2 ^ 63
    → parse_content_range (content_range s e (decimal t)) ≡ some (pos s, pos e, pos t)
parse_content_range_roundtrip s e t h he ht =
    parse_content_range-content_range s e (decimal t) (Digits-Word _ (decimal-Digits t))
      (omega arith) he
    ∙ rw (parse_int-decimal t ht) (ground arith)

-- A range of a resource whose length the server does not know, `bytes s-e/*`, is refused.
pub parse_content_range_unknown_total :
    (s e : ℕ) → s < 2 ^ 63 → e < 2 ^ 63 → parse_content_range (content_range s e (codes "*")) ≡ none
unfolding parse_int
parse_content_range_unknown_total s e hs he =
    parse_content_range-content_range s e (codes "*") (refl, tt) hs he
