-- ===== src/Tunnel/Prefixed.antt =====
-- pkg/tunnel/dialer.go: `PrefixedConn`, a connection with bytes in front that were read too early.
-- The wrapped connection is the list of the segments that arrive on it; it ends behind them.
use files_downloader_golang.Common.{
  ℕ, ◌≤◌, ◌≡◌, refl, sym, ap, ◌∙◌, Option, none, some, List, [], ◌∷◌, ◌++◌, append_assoc, take,
  drop, length, take-append-drop, length-take, arith, leb, if◌then◌else◌, if_split,
}
use files_downloader_golang.Common.Text.{Bytes}

pub record PrefixedConn : Type 0 where
  pub prefix : Bytes
  pub conn : List Bytes

-- `Read` of the wrapped connection into a buffer of `n` bytes; `none` is its end.
abbrev pub read_conn : ℕ → List Bytes → Option Bytes × List Bytes
read_conn n [] = (none, [])
read_conn n (segment ∷ segments) =
    if leb (length segment) n
    then (some segment, segments)
    else (some (take n segment), drop n segment ∷ segments)

abbrev pub keep_prefix : Option Bytes × List Bytes → Option Bytes × PrefixedConn
keep_prefix (o, segments) = (o, record { prefix = []; conn = segments })

-- `PrefixedConn.Read`; `copy` moves as many bytes as both sides have.
unfoldable pub read_from : ℕ → Bytes → List Bytes → Option Bytes × PrefixedConn
read_from n [] segments = keep_prefix (read_conn n segments)
read_from n (b ∷ bs) segments =
    (some (take n (b ∷ bs)), record { prefix = drop n (b ∷ bs); conn = segments })

abbrev pub read_prefixed : ℕ → PrefixedConn → Option Bytes × PrefixedConn
read_prefixed n p = read_from n p.prefix p.conn

abbrev joined : List Bytes → Bytes
joined [] = []
joined (segment ∷ segments) = segment ++ joined segments

-- What a connection has still to give, as one stream: the view of its reader.
abbrev pub stream_of : PrefixedConn → Bytes
stream_of p = p.prefix ++ joined p.conn

-- What a read with a buffer of `n` bytes may do to a stream: it ends only where the stream is
-- empty, and otherwise takes at most `n` bytes off its front.
abbrev pub StreamRead : ℕ → Bytes → Option Bytes → Bytes → Type 0
StreamRead n before none after = (before ≡ []) × (after ≡ [])
StreamRead n before (some bytes) after = (before ≡ bytes ++ after) × (length bytes ≤ n)

take-bounded : (n : ℕ) (s : Bytes) → length (take n s) ≤ n
take-bounded n s = omega (arith, length-take n s)

-- The front of a segment is read, and the rest stays.
front-StreamRead :
    (n : ℕ) (s rest : Bytes) → StreamRead n (s ++ rest) (some (take n s)) (drop n s ++ rest)
front-StreamRead n s rest = (
  ap (λ z. z ++ rest) (sym (take-append-drop n s)) ∙ append_assoc (take n s) (drop n s) rest,
  take-bounded n s,
)

conn-StreamRead :
    (n : ℕ) (segments : List Bytes)
    → StreamRead n (joined segments) (read_conn n segments).0 (joined (read_conn n segments).1)
conn-StreamRead n [] = (refl, refl)
conn-StreamRead n (segment ∷ segments) =
    if_split
      (λ (r : Option Bytes × List Bytes).
        StreamRead n (segment ++ joined segments) r.0 (joined r.1))
      (leb (length segment) n) (λ t. (refl, ground arith))
      (λ f. front-StreamRead n segment (joined segments))

from_refines :
    (n : ℕ) (prefix : Bytes) (conn : List Bytes)
    → StreamRead n
        (prefix ++ joined conn)
        (read_from n prefix conn).0
        (stream_of (read_from n prefix conn).1)
unfolding read_from
from_refines n [] conn = conn-StreamRead n conn
from_refines n (b ∷ bs) conn = front-StreamRead n (b ∷ bs) (joined conn)

-- A read of a connection with bytes in front refines a read of one stream, that of these bytes and
-- behind them all that the wrapped connection gives, for any segments and any buffer size.
pub read_prefixed_refines :
    (n : ℕ) (p : PrefixedConn)
    → StreamRead n (stream_of p) (read_prefixed n p).0 (stream_of (read_prefixed n p).1)
read_prefixed_refines n p = from_refines n p.prefix p.conn
