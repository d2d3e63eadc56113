-- ===== src/Tunnel/Socks.antt =====
-- pkg/tunnel/socks5.go: the handshake of `handleConnection`, on what the client sends.
-- The client's bytes are a list, and it closes behind them. Whether an SSH client is there, which
-- targets it reaches and whether the replies can be written is data; the text of the target address
-- (`net.IP.String`, `net.JoinHostPort`) is not modelled. Deadlines are left out.
use files_downloader_golang.Common.{
  ℕ, ◌+◌, ◌*◌, ◌≡◌, Bool, true, not, ◌||◌, Option, none, some, List, [], ◌∷◌, ◌++◌, take, drop,
  length, ◌==◌, leb, if◌then◌else◌,
}
use files_downloader_golang.Common.Text.{Bytes}

pub data Host : Type 0 where
  ipv4 ipv6 domain : Bytes → Host

pub record Target : Type 0 where
  pub host : Host
  pub port : ℕ

pub record World : Type 0 where
  pub greeting_written : Bool
  pub client_ready : Bool
  pub dials : Target → Bool
  pub success_written : Bool

-- The replies written, and for a connection that is relayed the target and the bytes not yet read.
abbrev pub Session : Type 0
Session = List Bytes × Option (Target × Bytes)

abbrev pub accept_greeting : Bytes
accept_greeting = 5 ∷ 0 ∷ []

-- A reply to the request, with the address 0.0.0.0:0.
abbrev pub reply : ℕ → Bytes
reply code = 5 ∷ code ∷ 0 ∷ 1 ∷ 0 ∷ 0 ∷ 0 ∷ 0 ∷ 0 ∷ 0 ∷ []

abbrev pub refuse : ℕ → Session
refuse code = (accept_greeting ∷ reply code ∷ [], none)

-- The connection is closed behind the greeting's reply.
abbrev pub hang_up : Session
hang_up = (accept_greeting ∷ [], none)

-- `io.ReadFull`
unfoldable pub read_full : ℕ → Bytes → Option (Bytes × Bytes)
read_full n s = if leb n (length s) then some (take n s, drop n s) else none

-- Dialing, and the last reply.
unfoldable pub connect : World → Target → Bytes → Session
connect w target rest =
    if not w.client_ready
    then refuse 4
    else if not (w.dials target)
    then refuse 5
    else if w.success_written
    then (accept_greeting ∷ reply 0 ∷ [], some (target, rest))
    else hang_up

-- The port, behind the host.
unfoldable pub take_port : World → Host → Option (Bytes × Bytes) → Session
take_port w host (some (hi ∷ lo ∷ [], rest)) =
    connect w (record { host = host; port = hi * 256 + lo }) rest
take_port w host _ = hang_up

abbrev pub take_address : World → (Bytes → Host) → Option (Bytes × Bytes) → Session
take_address w host none = hang_up
take_address w host (some (bytes, rest)) = take_port w (host bytes) (read_full 2 rest)

abbrev pub take_domain : World → Option (Bytes × Bytes) → Session
take_domain w (some (n ∷ [], rest)) = take_address w domain (read_full n rest)
take_domain w _ = hang_up

-- The switch on the address type.
unfoldable pub take_host : World → ℕ → Bytes → Session
unfolding read_full
take_host w kind rest =
    if kind == 1
    then take_address w ipv4 (read_full 4 rest)
    else if kind == 3
    then take_domain w (read_full 1 rest)
    else if kind == 4
    then take_address w ipv6 (read_full 16 rest)
    else refuse 8

unfoldable pub take_request : World → Option (Bytes × Bytes) → Session
take_request w (some (version ∷ command ∷ reserved ∷ kind ∷ [], rest)) =
    if not (version == 5) || not (command == 1) then refuse 7 else take_host w kind rest
take_request w _ = hang_up

unfoldable pub take_methods : World → Option (Bytes × Bytes) → Session
unfolding read_full
take_methods w none = ([], none)
take_methods w (some (methods, rest)) =
    if w.greeting_written then take_request w (read_full 4 rest) else ([], none)

unfoldable pub take_header : World → Option (Bytes × Bytes) → Session
unfolding read_full
take_header w (some (version ∷ count ∷ [], rest)) =
    if not (version == 5) then ([], none) else take_methods w (read_full count rest)
take_header w _ = ([], none)

-- `handleConnection` up to the relaying.
unfoldable pub handle_connection : World → Bytes → Session
unfolding read_full
handle_connection w input = take_header w (read_full 2 input)

-- A request as RFC 1928 writes it.
pub record Request : Type 0 where
  pub methods : Bytes
  pub reserved : ℕ
  pub host : Host
  pub port_high : ℕ
  pub port_low : ℕ

abbrev pub encode_host : Host → Bytes → Bytes
encode_host (ipv4 bytes) rest = 1 ∷ (bytes ++ rest)
encode_host (domain name) rest = 3 ∷ length name ∷ (name ++ rest)
encode_host (ipv6 bytes) rest = 4 ∷ (bytes ++ rest)

-- The request's bytes, in front of `rest`.
abbrev pub encode : Request → Bytes → Bytes
encode r rest =
    5
    ∷ length r.methods
    ∷ (r.methods ++ (5 ∷ 1 ∷ r.reserved ∷ encode_host r.host (r.port_high ∷ r.port_low ∷ rest)))

abbrev pub Sized : Host → Type 0
Sized (ipv4 bytes) = length bytes ≡ 4
Sized (domain name) = Unit
Sized (ipv6 bytes) = length bytes ≡ 16

abbrev pub target_of : Request → Target
target_of r = record { host = r.host; port = r.port_high * 256 + r.port_low }

-- Nothing fails on the way to the target.
abbrev pub Reaches : World → Target → Type 0
Reaches w t =
    (w.greeting_written ≡ true)
    × (w.client_ready ≡ true)
    × (w.dials t ≡ true)
    × (w.success_written ≡ true)

-- The input is a request for `t`, in front of `rest`.
abbrev pub Asks : World → Bytes → Target → Bytes → Type 0
Asks w input t rest =
    (r : Request) × (input ≡ encode r rest) × Sized r.host × (target_of r ≡ t) × Reaches w t
