-- ===== src/Tunnel/Requests.antt =====
-- What the SOCKS5 handshake has read when it relays a connection.
use files_downloader_golang.Common.{
  ℕ, ◌+◌, ◌*◌, ◌≤◌, ◌≡◌, refl, sym, ap, ◌∙◌, subst, true, not, ◌||◌, Option, none, some, [], ◌∷◌,
  ◌++◌, length, take-append-drop, length-take, arith, ◌==◌, leb, if_split,
}
use files_downloader_golang.Common.Text.{Bytes}
use files_downloader_golang.Tunnel.Socks.{
  Host, ipv4, ipv6, domain, Target, World, Session, read_full, connect, take_port, take_address,
  take_domain, take_host, take_request, take_methods, take_header, handle_connection, encode_host,
  Sized, Asks,
}

-- What was read is the beginning of the input.
abbrev Read : ℕ → Bytes → Option (Bytes × Bytes) → Type 0
Read n s none = Unit
Read n s (some (a, b)) = (s ≡ a ++ b) × (length a ≡ n)

read_full-Read : (n : ℕ) (s : Bytes) → Read n s (read_full n s)
unfolding read_full
read_full-Read n s =
    if_split (Read n s) (leb n (length s))
      (λ t.
        let size = length-take n s in
        let le : n ≤ length s = ground arith in (sym (take-append-drop n s), omega arith))
      (λ f. tt)

-- A session that is relayed satisfies `P`.
abbrev pub Relays : (Target → Bytes → Type 0) → Session → Type 0
Relays P (rs, none) = Unit
Relays P (rs, some (t, rest)) = P t rest

Relays-map :
    {P Q : Target → Bytes → Type 0} (σ : Session)
    → ((t : Target) (rest : Bytes) → P t rest → Q t rest)
    → Relays P σ
    → Relays Q σ
Relays-map (rs, none) h p = tt
Relays-map (rs, some (t, rest)) h p = h t rest p

module _ (w : World) where
  abbrev Served : Target → Type 0
  Served t = (w.client_ready ≡ true) × (w.dials t ≡ true) × (w.success_written ≡ true)

  connect-Relays :
      (target : Target) (rest : Bytes)
      → Relays (λ t r. (t ≡ target) × (r ≡ rest) × Served t) (connect w target rest)
  unfolding connect
  connect-Relays target rest =
      let P = Relays (λ t r. (t ≡ target) × (r ≡ rest) × Served t) in
      if_split P (not w.client_ready) (λ t. tt)
        (λ ready.
          if_split P (not (w.dials target)) (λ t. tt)
            (λ dialed.
              if_split P w.success_written
                (λ written. (refl, refl, (ground arith, ground arith, written))) (λ f. tt)))

  -- The port that is read behind the host.
  abbrev Ported : Host → Bytes → Target → Bytes → Type 0
  Ported host s t r =
      (hi : ℕ) × (lo : ℕ) × (s ≡ hi ∷ lo ∷ r)
      × (t ≡ record { host = host; port = hi * 256 + lo })
      × Served t

  take_port-Relays :
      (host : Host) (s : Bytes) (o : Option (Bytes × Bytes))
      → Read 2 s o
      → Relays (Ported host s) (take_port w host o)
  unfolding take_port
  take_port-Relays host s none e = tt
  take_port-Relays host s (some ([], rest)) e = tt
  take_port-Relays host s (some (hi ∷ [], rest)) e = tt
  take_port-Relays host s (some (hi ∷ lo ∷ x ∷ more, rest)) e = tt
  take_port-Relays host s (some (hi ∷ lo ∷ [], rest)) (e, size) =
      Relays-map (connect w (record { host = host; port = hi * 256 + lo }) rest)
        (λ t r (same, rest_eq, served).
          (hi, lo, e ∙ ap (λ z. hi ∷ lo ∷ z) (sym rest_eq), same, served))
        (connect-Relays (record { host = host; port = hi * 256 + lo }) rest)

  -- The host of `n` bytes and the port.
  abbrev Addressed : ℕ → (Bytes → Host) → Bytes → Target → Bytes → Type 0
  Addressed n host s t r =
      (bytes : Bytes) × (hi : ℕ) × (lo : ℕ) × (s ≡ bytes ++ (hi ∷ lo ∷ r))
      × (length bytes ≡ n)
      × (t ≡ record { host = host bytes; port = hi * 256 + lo })
      × Served t

  take_address-Relays :
      (n : ℕ) (host : Bytes → Host) (s : Bytes) (o : Option (Bytes × Bytes))
      → Read n s o
      → Relays (Addressed n host s) (take_address w host o)
  take_address-Relays n host s none e = tt
  take_address-Relays n host s (some (bytes, rest)) (e, size) =
      Relays-map (take_port w (host bytes) (read_full 2 rest))
        (λ t r (hi, lo, rest_eq, same, served).
          (bytes, hi, lo, e ∙ ap (λ z. bytes ++ z) rest_eq, size, same, served))
        (take_port-Relays (host bytes) rest (read_full 2 rest) (read_full-Read 2 rest))

  -- The address type, the host and the port.
  abbrev Hosted : ℕ → Bytes → Target → Bytes → Type 0
  Hosted kind s t r =
      (host : Host) × (hi : ℕ) × (lo : ℕ) × (kind ∷ s ≡ encode_host host (hi ∷ lo ∷ r))
      × Sized host
      × (t ≡ record { host = host; port = hi * 256 + lo })
      × Served t

  take_domain-Relays :
      (s : Bytes) (o : Option (Bytes × Bytes)) → Read 1 s o → Relays (Hosted 3 s) (take_domain w o)
  take_domain-Relays s none e = tt
  take_domain-Relays s (some ([], rest)) e = tt
  take_domain-Relays s (some (n ∷ m ∷ more, rest)) e = tt
  take_domain-Relays s (some (n ∷ [], rest)) (e, size) =
      Relays-map (take_address w domain (read_full n rest))
        (λ t r (bytes, hi, lo, rest_eq, length_eq, same, served). (
          domain bytes,
          hi,
          lo,
          ap (λ z. 3 ∷ z) (e ∙ ap (λ z. n ∷ z) rest_eq)
              ∙ ap (λ k. 3 ∷ k ∷ (bytes ++ (hi ∷ lo ∷ r))) (sym length_eq),
          tt,
          same,
          served,
        ))
        (take_address-Relays n domain rest (read_full n rest) (read_full-Read n rest))

  fixed-Hosted :
      (kind n : ℕ) (host : Bytes → Host) (s : Bytes) (t : Target) (r : Bytes)
      → ((bytes tail : Bytes) → encode_host (host bytes) tail ≡ kind ∷ (bytes ++ tail))
      → ((bytes : Bytes) → length bytes ≡ n → Sized (host bytes))
      → Addressed n host s t r
      → Hosted kind s t r
  fixed-Hosted kind n host s t r encodes sized (bytes, hi, lo, e, size, same, served) = (
    host bytes,
    hi,
    lo,
    ap (λ z. kind ∷ z) e ∙ sym (encodes bytes (hi ∷ lo ∷ r)),
    sized bytes size,
    same,
    served,
  )

  take_host-Relays : (kind : ℕ) (s : Bytes) → Relays (Hosted kind s) (take_host w kind s)
  unfolding take_host
  take_host-Relays kind s =
      let P = Relays (Hosted kind s) in
      if_split P (kind == 1)
        (λ one.
          let is_one : 1 ≡ kind = ground arith in
          subst (λ k. Relays (Hosted k s) (take_address w ipv4 (read_full 4 s))) is_one
            (Relays-map (take_address w ipv4 (read_full 4 s))
              (λ t r. fixed-Hosted 1 4 ipv4 s t r (λ bytes tail. refl) (λ bytes e. e))
              (take_address-Relays 4 ipv4 s (read_full 4 s) (read_full-Read 4 s))))
        (λ other.
          if_split P (kind == 3)
            (λ three.
              let is_three : 3 ≡ kind = ground arith in
              subst (λ k. Relays (Hosted k s) (take_domain w (read_full 1 s))) is_three
                (take_domain-Relays s (read_full 1 s) (read_full-Read 1 s)))
            (λ other'.
              if_split P (kind == 4)
                (λ four.
                  let is_four : 4 ≡ kind = ground arith in
                  subst (λ k. Relays (Hosted k s) (take_address w ipv6 (read_full 16 s))) is_four
                    (Relays-map (take_address w ipv6 (read_full 16 s))
                      (λ t r. fixed-Hosted 4 16 ipv6 s t r (λ bytes tail. refl) (λ bytes e. e))
                      (take_address-Relays 16 ipv6 s (read_full 16 s) (read_full-Read 16 s))))
                (λ f. tt)))

  -- The request behind the greeting.
  abbrev Requested : Bytes → Target → Bytes → Type 0
  Requested s t r =
      (reserved : ℕ) × (host : Host) × (hi : ℕ) × (lo : ℕ) × (s
        ≡ 5 ∷ 1 ∷ reserved ∷ encode_host host (hi ∷ lo ∷ r))
      × Sized host
      × (t ≡ record { host = host; port = hi * 256 + lo })
      × Served t

  take_request-Relays :
      (s : Bytes) (o : Option (Bytes × Bytes))
      → Read 4 s o
      → Relays (Requested s) (take_request w o)
  unfolding take_request
  take_request-Relays s none e = tt
  take_request-Relays s (some ([], rest)) e = tt
  take_request-Relays s (some (a ∷ [], rest)) e = tt
  take_request-Relays s (some (a ∷ b ∷ [], rest)) e = tt
  take_request-Relays s (some (a ∷ b ∷ c ∷ [], rest)) e = tt
  take_request-Relays s (some (a ∷ b ∷ c ∷ d ∷ x ∷ more, rest)) e = tt
  take_request-Relays s (some (version ∷ command ∷ reserved ∷ kind ∷ [], rest)) (e, size) =
      if_split (Relays (Requested s)) (not (version == 5) || not (command == 1)) (λ t. tt)
        (λ good.
          let five : version ≡ 5 = ground arith in
          let one : command ≡ 1 = ground arith in
          Relays-map (take_host w kind rest)
            (λ t r (host, hi, lo, rest_eq, sized, same, served). (
              reserved,
              host,
              hi,
              lo,
              e
                  ∙ ap (λ v. v ∷ command ∷ reserved ∷ kind ∷ rest) five
                  ∙ ap (λ v. 5 ∷ v ∷ reserved ∷ kind ∷ rest) one
                  ∙ ap (λ z. 5 ∷ 1 ∷ reserved ∷ z) rest_eq,
              sized,
              same,
              served,
            ))
            (take_host-Relays kind rest))

  take_methods-Relays :
      (n : ℕ) (s : Bytes) (o : Option (Bytes × Bytes))
      → Read n s o
      → Relays (λ t r. Asks w (5 ∷ n ∷ s) t r) (take_methods w o)
  unfolding take_methods
  take_methods-Relays n s none e = tt
  take_methods-Relays n s (some (methods, rest)) (e, size) =
      if_split (Relays (λ t r. Asks w (5 ∷ n ∷ s) t r)) w.greeting_written
        (λ greeted.
          Relays-map (take_request w (read_full 4 rest))
            (λ t r (reserved, host, hi, lo, rest_eq, sized, same, served). (
              record {
                methods = methods;
                reserved = reserved;
                host = host;
                port_high = hi;
                port_low = lo;
              },
              ap (λ z. 5 ∷ n ∷ z) (e ∙ ap (λ z. methods ++ z) rest_eq)
                  ∙ ap
                      (λ k.
                        5 ∷ k ∷ (methods ++ (5 ∷ 1 ∷ reserved ∷ encode_host host (hi ∷ lo ∷ r))))
                      (sym size),
              sized,
              sym same,
              (greeted, served.0, served.1, served.2),
            ))
            (take_request-Relays rest (read_full 4 rest) (read_full-Read 4 rest)))
        (λ f. tt)

  take_header-Relays :
      (s : Bytes) (o : Option (Bytes × Bytes))
      → Read 2 s o
      → Relays (λ t r. Asks w s t r) (take_header w o)
  unfolding take_header
  take_header-Relays s none e = tt
  take_header-Relays s (some ([], rest)) e = tt
  take_header-Relays s (some (a ∷ [], rest)) e = tt
  take_header-Relays s (some (a ∷ b ∷ c ∷ more, rest)) e = tt
  take_header-Relays s (some (version ∷ count ∷ [], rest)) (e, size) =
      if_split (Relays (λ t r. Asks w s t r)) (not (version == 5)) (λ t. tt)
        (λ good.
          let five : version ≡ 5 = ground arith in
          let start = e ∙ ap (λ v. v ∷ count ∷ rest) five in
          subst (λ z. Relays (λ t r. Asks w z t r) (take_methods w (read_full count rest)))
            (sym start)
            (take_methods-Relays count rest (read_full count rest) (read_full-Read count rest)))

  pub handle_connection-Relays :
      (input : Bytes) → Relays (λ t r. Asks w input t r) (handle_connection w input)
  unfolding handle_connection
  handle_connection-Relays input =
      take_header-Relays input (read_full 2 input) (read_full-Read 2 input)
