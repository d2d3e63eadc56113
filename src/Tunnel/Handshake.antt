-- ===== src/Tunnel/Handshake.antt =====
-- What the SOCKS5 handshake accepts.
use files_downloader_golang.Common.{
  ℕ, ◌+◌, ◌*◌, ◌≡◌, refl, ap, ◌∙◌, subst, ◌↔◌, Bool, true, none, some, [], ◌∷◌, ◌++◌, take, drop,
  length, length-append, arith, leb, if◌then◌else◌,
}
use files_downloader_golang.Common.Text.{Bytes}
use files_downloader_golang.Tunnel.Socks.{
  Host, ipv4, ipv6, domain, Target, World, accept_greeting, reply, read_full, connect, take_port,
  take_address, take_domain, take_host, take_request, take_methods, take_header, handle_connection,
  Request, encode_host, encode, Sized, target_of, Reaches, Asks,
}
use files_downloader_golang.Tunnel.Requests.{Relays, handle_connection-Relays}

take_append : (a b : Bytes) → take (length a) (a ++ b) ≡ a
take_append [] b = refl
take_append (x ∷ a) b = ap (λ t. x ∷ t) (take_append a b)

drop_append : (a b : Bytes) → drop (length a) (a ++ b) ≡ b
drop_append [] b = refl
drop_append (x ∷ a) b = drop_append a b

read_full-append : (a b : Bytes) → read_full (length a) (a ++ b) ≡ some (a, b)
unfolding read_full
read_full-append a b =
    let size = length-append a b in
    let enough : leb (length a) (length (a ++ b)) ≡ true = ground arith in
    rw (enough, take_append a b, drop_append a b) refl

module _ (w : World) where
  -- The way forward: each part of a request is read as it is written.
  read_sized : (n : ℕ) (a b : Bytes) → length a ≡ n → read_full n (a ++ b) ≡ some (a, b)
  read_sized n a b size =
      subst (λ k. read_full k (a ++ b) ≡ some (a, b)) size (read_full-append a b)

  address_read :
      (n : ℕ) (host : Bytes → Host) (bytes rest : Bytes) (hi lo : ℕ)
      → length bytes ≡ n
      → take_address w host (read_full n (bytes ++ (hi ∷ lo ∷ rest)))
        ≡ connect w (record { host = host bytes; port = hi * 256 + lo }) rest
  unfolding take_port
  address_read n host bytes rest hi lo size =
      ap (take_address w host) (read_sized n bytes (hi ∷ lo ∷ rest) size)
      ∙ ap (take_port w (host bytes)) (read_full-append (hi ∷ lo ∷ []) rest)

  request_read :
      (reserved : ℕ) (host : Host) (hi lo : ℕ) (rest : Bytes)
      → Sized host
      → take_request w (read_full 4 (5 ∷ 1 ∷ reserved ∷ encode_host host (hi ∷ lo ∷ rest)))
        ≡ connect w (record { host = host; port = hi * 256 + lo }) rest
  unfolding take_request take_host
  request_read reserved (ipv4 bytes) hi lo rest size =
      ap (take_request w) (read_full-append (5 ∷ 1 ∷ reserved ∷ 1 ∷ []) (bytes ++ (hi ∷ lo ∷ rest)))
      ∙ address_read 4 ipv4 bytes rest hi lo size
  request_read reserved (domain name) hi lo rest size =
      ap (take_request w)
        (read_full-append (5 ∷ 1 ∷ reserved ∷ 3 ∷ []) (length name ∷ (name ++ (hi ∷ lo ∷ rest))))
      ∙ ap (take_domain w) (read_full-append (length name ∷ []) (name ++ (hi ∷ lo ∷ rest)))
      ∙ address_read (length name) domain name rest hi lo refl
  request_read reserved (ipv6 bytes) hi lo rest size =
      ap (take_request w) (read_full-append (5 ∷ 1 ∷ reserved ∷ 4 ∷ []) (bytes ++ (hi ∷ lo ∷ rest)))
      ∙ address_read 16 ipv6 bytes rest hi lo size

  connect_success :
      (t : Target) (rest : Bytes)
      → Reaches w t
      → connect w t rest ≡ (accept_greeting ∷ reply 0 ∷ [], some (t, rest))
  unfolding connect
  connect_success t rest (greeted, ready, dialed, written) = rw (ready, dialed, written) refl

  encode_read :
      (r : Request) (rest : Bytes)
      → Sized r.host
      → w.greeting_written ≡ true
      → handle_connection w (encode r rest) ≡ connect w (target_of r) rest
  unfolding handle_connection take_header take_methods
  encode_read r rest sized greeted =
      let tail = 5 ∷ 1 ∷ r.reserved ∷ encode_host r.host (r.port_high ∷ r.port_low ∷ rest) in
      ap (take_header w) (read_full-append (5 ∷ length r.methods ∷ []) (r.methods ++ tail))
      ∙ ap (take_methods w) (read_full-append r.methods tail)
      ∙ ap (λ (b : Bool). if b then take_request w (read_full 4 tail) else ([], none)) greeted
      ∙ request_read r.reserved r.host r.port_high r.port_low rest sized

-- What the client sends is relayed to the target `t` after both replies, with `rest` not yet read,
-- exactly if it is a SOCKS5 CONNECT request for `t` as RFC 1928 writes it, in front of `rest`: with
-- any methods, any reserved byte, an IPv4 address, an IPv6 address or a name, and the port in
-- network order; and if the replies can be written, an SSH client is there and reaches `t`.
pub handle_connection_iff :
    (w : World) (input : Bytes) (t : Target) (rest : Bytes)
    → (handle_connection w input ≡ (accept_greeting ∷ reply 0 ∷ [], some (t, rest)))
      ↔ Asks w input t rest
handle_connection_iff w input t rest = (
  λ e. subst (Relays (λ t' r. Asks w input t' r)) e (handle_connection-Relays w input),
  λ (r, input_eq, sized, t_eq, reaches).
      ap (handle_connection w) input_eq
      ∙ encode_read w r rest sized reaches.0
      ∙ ap (λ t'. connect w t' rest) t_eq
      ∙ connect_success w t rest reaches,
)
