-- ===== src/Probe/Requests.antt =====
-- The requests of a probe: `Probe`, `attemptProbe`, `probeWithGetRange`, `parseResponseInfo` and
-- `hasAcceptRanges` of pkg/engine/probe.go. What the server answers and when the context is done
-- are data of the model, and the lengths of the back-offs are left out. `extractFilename`
-- is a parameter, since no result here depends on the name.
use files_downloader_golang.Common.{
  ℕ, zero, suc, ◌≡◌, ◌⊎◌, inl, inr, subst, Bool, true, false, not, ◌&&◌, ◌||◌, Option, none, some,
  [], ◌∷◌, map, ap, ap₂, refl, ◌++◌, ◌+◌, ◌<◌, ◌==◌, leb, if◌then◌else◌, if_case, if_split,
  Bool-cases, arith,
}
use files_downloader_golang.Common.Int.{ℤ, pos, ltb_ℤ, leb_ℤ, pos_part, ◌≤ℤ◌}
use files_downloader_golang.Common.Text.{Bytes, codes, trim_by}
use files_downloader_golang.Common.Split.{is_space, parse_int}
use files_downloader_golang.Worker.Header.{lower}
use files_downloader_golang.Probe.{FileInfo}

-- An answer, its headers by what the program reads of them: `last_modified` is the time that
-- `http.ParseTime` finds, `final_url` the URL of the last request.
pub record ProbeResponse : Type 0 where
  pub status : ℕ
  pub content_length : ℤ
  pub accept_ranges : Bytes
  pub content_range : Bytes
  pub etag : Bytes
  pub last_modified : Option Bytes
  pub content_type : Bytes
  pub disposition : Bytes
  pub final_url : Option Bytes

-- `HTTPClient.Do`; an error can come with an answer, of which the program reads the status.
pub data ProbeReply : Type 0 where
  failed : Option ℕ → ProbeReply
  answered : ProbeResponse → ProbeReply

pub data ProbeError : Type 0 where
  probe_context_done request_failed transport_failed gone bad_status no_probe : ProbeError
  probe_failed : ProbeError → ProbeError

abbrev pub give_up : Option ProbeError → ProbeError
give_up none = no_probe
give_up (some e) = probe_failed e

pub data Probed : Type 0 where
  found : FileInfo → Probed
  lost : ProbeError → Probed

unfoldable pub is_prefix : Bytes → Bytes → Bool
is_prefix [] s = true
is_prefix (x ∷ xs) [] = false
is_prefix (x ∷ xs) (c ∷ s) = x == c && is_prefix xs s

-- `strings.Contains`
unfoldable pub contains : Bytes → Bytes → Bool
contains [] part = is_prefix part []
contains (c ∷ s) part = is_prefix part (c ∷ s) || contains s part

-- `hasAcceptRanges`
unfoldable pub has_accept_ranges : ProbeResponse → Bool
has_accept_ranges r = contains (map lower r.accept_ranges) (codes "bytes")

-- The text behind the last `sep`, where there is one.
unfoldable pub after_last : ℕ → Bytes → Option Bytes
after_last sep [] = none
after_last sep (c ∷ s) = elim (after_last sep s) [
  | none ↦ if c == sep then some s else none
  | some t ↦ some t
]

abbrev pub positive_or : ℤ → Option ℤ → ℤ
positive_or default none = default
positive_or default (some n) = if ltb_ℤ (pos 0) n then n else default

abbrev total_of : ℤ → Option Bytes → ℤ
total_of default none = default
total_of default (some text) = positive_or default (parse_int (trim_by is_space text))

-- 401, 403, 404 and 410
abbrev pub is_gone : ℕ → Bool
is_gone status = status == 401 || status == 403 || status == 404 || status == 410

abbrev pub gone_reply : Option ℕ → Bool
gone_reply none = false
gone_reply (some status) = is_gone status

-- A round of the loop of `Probe`: when the context is done, and what the requests meet.
pub record ProbeRound : Type 0 where
  pub done_before : Bool
  pub done_waiting : Bool
  pub makes_request : Bool
  pub head : ProbeReply
  pub get : ProbeReply

positive_or_nonneg : (n : ℤ) (m : Option ℤ) → pos 0 ≤ℤ n → pos 0 ≤ℤ positive_or n m
positive_or_nonneg n none h = h
positive_or_nonneg n (some m) h = ground arith

total_of_nonneg : (n : ℤ) (text : Option Bytes) → pos 0 ≤ℤ n → pos 0 ≤ℤ total_of n text
total_of_nonneg n none h = h
total_of_nonneg n (some text) h = positive_or_nonneg n (parse_int (trim_by is_space text)) h

abbrev is_quote : ℕ → Bool
is_quote c = c == b'"'

-- The header `Accept-Ranges` has the word `bytes` in it, in any case.
abbrev pub NamesBytes : Bytes → Type 0
NamesBytes value =
    (before : Bytes) × (after : Bytes) × (map lower value ≡ before ++ codes "bytes" ++ after)

-- The server has said that it knows ranges: by the header of one of its answers, or by a partial
-- one.
abbrev pub Says : ProbeReply → Type 0
Says (failed status) = ⊥
Says (answered r) = NamesBytes r.accept_ranges ⊎ (r.status ≡ 206)

is_prefix-append :
    (part s : Bytes) → is_prefix part s ≡ true → (after : Bytes) × (s ≡ part ++ after)
unfolding is_prefix
is_prefix-append [] s e = (s, refl)
is_prefix-append (x ∷ xs) [] e = cc
is_prefix-append (x ∷ xs) (c ∷ s) e =
    let (after, same) = is_prefix-append xs s (ground arith) in
    let head : c ≡ x = ground arith in (after, ap₂ ◌∷◌ head same)

contains-append :
    (s part : Bytes)
    → contains s part ≡ true
    → (before : Bytes) × (after : Bytes) × (s ≡ before ++ part ++ after)
unfolding contains
contains-append [] part e = let (after, same) = is_prefix-append part [] e in ([], after, same)
contains-append (c ∷ s) part e = elim (Bool-cases (is_prefix part (c ∷ s))) [
  | inl here ↦ let (after, same) = is_prefix-append part (c ∷ s) here in ([], after, same)
  | inr behind ↦
      let (before, after, same) = contains-append s part (ground arith) in
      (c ∷ before, after, ap (λ t. c ∷ t) same)
]

has_accept_ranges-NamesBytes :
    (r : ProbeResponse) → has_accept_ranges r ≡ true → NamesBytes r.accept_ranges
unfolding has_accept_ranges
has_accept_ranges-NamesBytes r e = contains-append (map lower r.accept_ranges) (codes "bytes") e

module _ (extract_filename : Bytes → Bytes → Bytes → Bytes → Bytes) (url : Bytes) where
  -- `parseResponseInfo`
  unfoldable pub parse_response_info : ProbeResponse → FileInfo
  parse_response_info r =
      let final : Bytes = elim (r.final_url) [ none ↦ url | some u ↦ u ] in
      record {
        url = url;
        final_url = final;
        filename = extract_filename url final r.disposition r.content_type;
        content_length = if ltb_ℤ r.content_length (pos 0) then pos 0 else r.content_length;
        accept_ranges = has_accept_ranges r;
        etag = trim_by is_quote r.etag;
        last_modified = r.last_modified;
        content_type = r.content_type;
        status_code = pos r.status;
      }

  -- The answer to `Range: bytes=0-0`: a 206 shows that the server knows ranges, and its
  -- `Content-Range` may give the size.
  unfoldable pub range_info : ProbeResponse → FileInfo
  range_info r =
      let info = parse_response_info r in
      if r.status == 206
      then record info {
        accept_ranges = true;
        content_length = total_of info.content_length (after_last b'/' r.content_range);
      }
      else if r.status == 200
      then record info { accept_ranges = has_accept_ranges r }
      else info

  -- `probeWithGetRange`
  unfoldable pub probe_with_get_range : Bool → ProbeReply → Probed
  probe_with_get_range makes_request (failed status) =
      if makes_request then lost transport_failed else lost request_failed
  probe_with_get_range makes_request (answered r) =
      if not makes_request
      then lost request_failed
      else if is_gone r.status
      then lost gone
      else if leb 400 r.status
      then lost bad_status
      else found (range_info r)

  -- The second request, where the first does not say that the server knows ranges.
  abbrev pub with_ranges : FileInfo → Probed → FileInfo
  with_ranges info (lost e) = info
  with_ranges info (found test) =
      if test.accept_ranges
      then record info {
        accept_ranges = true;
        content_length =
            if leb_ℤ info.content_length (pos 0) && ltb_ℤ (pos 0) test.content_length
            then test.content_length
            else info.content_length;
      }
      else info

  unfoldable pub probe_head : ProbeResponse → ProbeReply → Probed
  probe_head r get =
      let info = parse_response_info r in
      let unusable =
        leb 400 r.status || leb_ℤ r.content_length (pos 0) && not (has_accept_ranges r) in
      if unusable
      then (if is_gone r.status then lost gone else probe_with_get_range true get)
      else if not info.accept_ranges && ltb_ℤ (pos 0) info.content_length
      then found (with_ranges info (probe_with_get_range true get))
      else found info

  -- `attemptProbe`
  unfoldable pub attempt_probe : Bool → ProbeReply → ProbeReply → Probed
  attempt_probe false head get = lost request_failed
  attempt_probe true (failed status) get =
      if gone_reply status then lost gone else probe_with_get_range true get
  attempt_probe true (answered r) get = probe_head r get

  abbrev done_in_wait : ℕ → ProbeRound → Bool
  done_in_wait zero round = false
  done_in_wait (suc attempt) round = round.done_waiting

  abbrev go_on : (ProbeError → Probed) → Probed → Probed
  go_on k (found info) = found info
  go_on k (lost gone) = lost gone
  go_on k (lost e) = k e

  -- The loop of `Probe`, with `left` attempts to go.
  unfoldable pub probe_from : (ℕ → ProbeRound) → ℕ → ℕ → Option ProbeError → Probed
  probe_from env zero attempt last = lost (give_up last)
  probe_from env (suc left) attempt last =
      let round = env attempt in
      let rest =
        go_on (λ e. probe_from env left (suc attempt) (some e))
          (attempt_probe round.makes_request round.head round.get) in
      if round.done_before || done_in_wait attempt round then lost probe_context_done else rest

  -- `Probe`, behind its checks of the URL.
  unfoldable pub probe : ℤ → (ℕ → ProbeRound) → Probed
  unfolding probe_from
  probe max_retries env =
      probe_from env (if ltb_ℤ max_retries (pos 0) then 0 else suc (pos_part max_retries)) 0 none

  -- What the program may take from an answer: a size that is not negative, and ranges that the
  -- server has said to know.
  abbrev Backed : ProbeReply → ProbeReply → Probed → Type 0
  Backed head get (lost e) = Unit
  Backed head get (found info) =
      (pos 0 ≤ℤ info.content_length) × ((info.accept_ranges ≡ false) ⊎ Says head ⊎ Says get)

  info_length : (r : ProbeResponse) → pos 0 ≤ℤ (parse_response_info r).content_length
  unfolding parse_response_info
  info_length r = ground arith

  said :
      (head : ProbeReply) (r : ProbeResponse)
      → (has_accept_ranges r ≡ false) ⊎ Says head ⊎ Says (answered r)
  said head r = elim (Bool-cases (has_accept_ranges r)) [
    | inl says ↦ inr (inr (inl (has_accept_ranges-NamesBytes r says)))
    | inr silent ↦ inl silent
  ]

  accept_ranges-Says :
      (head : ProbeReply) (r : ProbeResponse)
      → ((parse_response_info r).accept_ranges ≡ false) ⊎ Says head ⊎ Says (answered r)
  unfolding parse_response_info
  accept_ranges-Says head r = said head r

  has_accept_ranges-Says :
      (r : ProbeResponse) (get : ProbeReply)
      → ((parse_response_info r).accept_ranges ≡ false) ⊎ Says (answered r) ⊎ Says get
  unfolding parse_response_info
  has_accept_ranges-Says r get = elim (Bool-cases (has_accept_ranges r)) [
    | inl says ↦ inr (inl (inl (has_accept_ranges-NamesBytes r says)))
    | inr silent ↦ inl silent
  ]

  range_info-Backed :
      (head : ProbeReply) (r : ProbeResponse) → Backed head (answered r) (found (range_info r))
  unfolding range_info
  range_info-Backed head r =
      let length_ok = info_length r in
      let total_ok =
        total_of_nonneg (parse_response_info r).content_length (after_last b'/' r.content_range)
          length_ok in
      if_split (λ i. Backed head (answered r) (found i)) (r.status == 206)
        (λ partial. (total_ok, inr (inr (inr (ground arith)))))
        (λ other.
          if_case (λ i. Backed head (answered r) (found i)) (r.status == 200)
            (length_ok, said head r) (length_ok, accept_ranges-Says head r))

  probe_with_get_range-Backed :
      (makes_request : Bool) (head get : ProbeReply)
      → Backed head get (probe_with_get_range makes_request get)
  unfolding probe_with_get_range
  probe_with_get_range-Backed makes_request head (failed status) =
      if_case (Backed head (failed status)) makes_request tt tt
  probe_with_get_range-Backed makes_request head (answered r) =
      if_case (Backed head (answered r)) (not makes_request) tt (
        if_case (Backed head (answered r)) (is_gone r.status) tt
          (if_case (Backed head (answered r)) (leb 400 r.status) tt (range_info-Backed head r)))

  with_ranges-Backed :
      (r : ProbeResponse) (get : ProbeReply) (info : FileInfo) (test : Probed)
      → Backed (answered r) get (found info)
      → Backed (answered r) get test
      → Backed (answered r) get (found (with_ranges info test))
  with_ranges-Backed r get info (lost e) h k = h
  with_ranges-Backed r get info (found test) (size, says) (size', says') =
      if_split (λ i. Backed (answered r) get (found i)) test.accept_ranges
        (λ ranges. (
          ground arith,
          elim says' [ inl silent ↦ absurd (ground arith) | inr said_so ↦ inr said_so ],
        ))
        (λ silent. (size, says))

  probe_head-Backed :
      (r : ProbeResponse) (get : ProbeReply) → Backed (answered r) get (probe_head r get)
  unfolding probe_head
  probe_head-Backed r get =
      let info : Backed (answered r) get (found (parse_response_info r)) =
        (info_length r, has_accept_ranges-Says r get) in
      if_case (Backed (answered r) get)
        (leb 400 r.status || leb_ℤ r.content_length (pos 0) && not (has_accept_ranges r))
        (if_case (Backed (answered r) get) (is_gone r.status) tt
          (probe_with_get_range-Backed true (answered r) get))
        (if_case (Backed (answered r) get)
          (not (parse_response_info r).accept_ranges
            && ltb_ℤ (pos 0) (parse_response_info r).content_length)
          (with_ranges-Backed r get (parse_response_info r) (probe_with_get_range true get) info
            (probe_with_get_range-Backed true (answered r) get))
          info)

  attempt_probe-Backed :
      (makes_request : Bool) (head get : ProbeReply)
      → Backed head get (attempt_probe makes_request head get)
  unfolding attempt_probe
  attempt_probe-Backed false head get = tt
  attempt_probe-Backed true (failed status) get =
      if_case (Backed (failed status) get) (gone_reply status) tt
        (probe_with_get_range-Backed true (failed status) get)
  attempt_probe-Backed true (answered r) get = probe_head-Backed r get

  -- What `probe` may return in `n` rounds: an error, or what the answers of a round that was begun
  -- back.
  abbrev Result : (ℕ → ProbeRound) → ℕ → Probed → Type 0
  Result env n (lost e) = Unit
  Result env n (found info) =
      (k : ℕ) × (k < n)
      × ((env k).done_before ≡ false)
      × Backed (env k).head (env k).get (found info)

  go_on-Result :
      (env : ℕ → ProbeRound) (n k : ℕ) (next : ProbeError → Probed) (p : Probed)
      → k < n
      → (env k).done_before ≡ false
      → Backed (env k).head (env k).get p
      → ((e : ProbeError) → Result env n (next e))
      → Result env n (go_on next p)
  go_on-Result env n k next (found info) lt begun h rest = (k, lt, begun, h)
  go_on-Result env n k next (lost gone) lt begun h rest = tt
  go_on-Result env n k next (lost probe_context_done) lt begun h rest = rest probe_context_done
  go_on-Result env n k next (lost request_failed) lt begun h rest = rest request_failed
  go_on-Result env n k next (lost transport_failed) lt begun h rest = rest transport_failed
  go_on-Result env n k next (lost bad_status) lt begun h rest = rest bad_status
  go_on-Result env n k next (lost no_probe) lt begun h rest = rest no_probe
  go_on-Result env n k next (lost (probe_failed e)) lt begun h rest = rest (probe_failed e)

  probe_from-Result :
      (env : ℕ → ProbeRound) (n left attempt : ℕ) (last : Option ProbeError)
      → attempt + left ≡ n
      → Result env n (probe_from env left attempt last)
  unfolding probe_from
  probe_from-Result env n zero attempt last rounds = tt
  probe_from-Result env n (suc left) attempt last rounds =
      if_split (Result env n) ((env attempt).done_before || done_in_wait attempt (env attempt))
        (λ done. tt)
        (λ begun.
          go_on-Result env n attempt _ _ (omega arith) (ground arith)
            (attempt_probe-Backed (env attempt).makes_request (env attempt).head (env attempt).get)
            (λ e. probe_from-Result env n left (suc attempt) (some e) (omega arith)))

  -- A probe that succeeds reports a size that is not negative. It reports ranges only if, in a round
  -- among the first and the `max_retries` retries that was begun before the context was done, an
  -- answer has said that the server knows them: its `Accept-Ranges` has the word `bytes` in it, or
  -- its status is 206.
  pub probe_backed :
      (max_retries : ℤ) (env : ℕ → ProbeRound) (info : FileInfo)
      → probe max_retries env ≡ found info
      → (k : ℕ) × (pos k ≤ℤ max_retries)
        × ((env k).done_before ≡ false)
        × (pos 0 ≤ℤ info.content_length)
        × ((info.accept_ranges ≡ false) ⊎ Says (env k).head ⊎ Says (env k).get)
  unfolding probe
  probe_backed max_retries env info e =
      let n = if ltb_ℤ max_retries (pos 0) then 0 else suc (pos_part max_retries) in
      let (k, lt, begun, backed) =
        subst (Result env n) e (probe_from-Result env n n 0 none (omega arith)) in
      (k, ground arith, begun, backed.0, backed.1)
