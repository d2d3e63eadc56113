-- ===== src/Worker/Content.antt =====
-- The remote file, and servers that answer with its bytes.
use files_downloader_golang.Common.{
  ℕ, zero, suc, ◌+◌, ◌-◌, false, ◌≤◌, ◌≡◌, [], ◌∷◌, take, length, some,
}
use files_downloader_golang.Common.Int.{ℤ, pos}
use files_downloader_golang.Worker.Header.{parse_content_range}
use files_downloader_golang.Common.Text.{Bytes}
use files_downloader_golang.Worker.{
  Body, more, last, Reply, transport_error, response, accepted, eof,
}

-- The bytes are those of the file from offset `p` on.
abbrev pub Matches : (ℕ → ℕ) → ℕ → Bytes → Type 0
Matches content p [] = Unit
Matches content p (b ∷ bs) = (b ≡ content p) × Matches content (p + 1) bs

-- A body that carries the file's bytes from offset `p` on, and none behind the file's end. It may
-- stop early, and it may carry more than was asked for.
abbrev pub HonestBody : (ℕ → ℕ) → ℕ → ℕ → Body → Type 0
HonestBody content total p (more done bytes end rest) =
    Matches content p bytes
    × (p + length bytes ≤ total)
    × HonestBody content total (p + length bytes) rest
HonestBody content total p (last done bytes end fired e) =
    Matches content p bytes × (p + length bytes ≤ total)

-- What an answer says of its body holds: a 200 carries the file from its start, a 206 the file from
-- the first byte that its `Content-Range` gives, whichever range was asked for. The body of any
-- other answer is arbitrary.
abbrev pub HonestReply : (ℕ → ℕ) → ℕ → Reply → Type 0
HonestReply content total transport_error = Unit
HonestReply content total (response r) =
    (r.status ≡ 200 → HonestBody content total 0 r.body)
    × ((p : ℕ) (last_byte size : ℤ)
        → r.status ≡ 206
        → parse_content_range r.content_range ≡ some (pos p, last_byte, size)
        → HonestBody content total p r.body)

pub Matches-take :
    (content : ℕ → ℕ) (n p : ℕ) (bs : Bytes) → Matches content p bs → Matches content p (take n bs)
Matches-take content zero p bs m = tt
Matches-take content (suc n) p [] m = tt
Matches-take content (suc n) p (b ∷ bs) (e, m) = (e, Matches-take content n (p + 1) bs m)

-- A body that carries all of the next `n` bytes and ends there: no read fails, no write is cut
-- short and the context is not done meanwhile.
abbrev pub Complete : ℕ → Body → Type 0
Complete n (more done bytes end rest) =
    (done ≡ false) × (end ≡ accepted) × (length bytes ≤ n) × Complete (n - length bytes) rest
Complete n (last done bytes end fired e) =
    (done ≡ false) × (end ≡ accepted) × (length bytes ≡ n) × (fired ≡ false) × (e ≡ eof)
