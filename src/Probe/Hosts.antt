-- ===== src/Probe/Hosts.antt =====
-- The guard against private networks: `isPrivateIP`, `validateHostAddresses` and
-- `validateDownloadURL` of pkg/engine/probe.go, and the dialer of pkg/engine/options.go.
-- The answers of the resolver and of `url.Parse` are data of the model.
use files_downloader_golang.Common.{
  ℕ, zero, suc, get_elem?, ◌+◌, ◌*◌, ◌/◌, ◌≤◌, ◌<◌, ◌≡◌, ◌↔◌, ◌⊎◌, refl, ◌-◌, Bool, true, false,
  not, ◌&&◌, ◌||◌, Option, none, some, List, [], ◌∷◌, ◌==◌, if◌then◌else◌, arith,
}
use files_downloader_golang.Common.Text.{Bytes, codes, text_eq}

-- A `net.IP` of four bytes, or one of sixteen that is not a mapped IPv4 address: of its bytes the
-- tests read the first two, and whether it is `::` or `::1`.
pub data Ip : Type 0 where
  v4 : ℕ → ℕ → ℕ → ℕ → Ip
  v6 : ℕ → ℕ → List ℕ → Ip

abbrev all_zero : List ℕ → Bool
all_zero [] = true
all_zero (b ∷ bs) = b == 0 && all_zero bs

-- Zeros, and a last byte of one.
abbrev ends_in_one : List ℕ → Bool
ends_in_one [] = false
ends_in_one (b ∷ []) = b == 1
ends_in_one (b ∷ c ∷ bs) = b == 0 && ends_in_one (c ∷ bs)

-- The methods of `net.IP`: loopback, private, link-local unicast and multicast, unspecified and
-- multicast. A mask of the upper bits is a quotient.
abbrev pub is_loopback : Ip → Bool
is_loopback (v4 a b c d) = a == 127
is_loopback (v6 a b rest) = a == 0 && b == 0 && ends_in_one rest

abbrev pub is_private : Ip → Bool
is_private (v4 a b c d) = a == 10 || a == 172 && b / 16 == 1 || a == 192 && b == 168
is_private (v6 a b rest) = a / 2 == 126

abbrev pub is_link_local_unicast : Ip → Bool
is_link_local_unicast (v4 a b c d) = a == 169 && b == 254
is_link_local_unicast (v6 a b rest) = a == 254 && b / 64 == 2

abbrev pub is_link_local_multicast : Ip → Bool
is_link_local_multicast (v4 a b c d) = a == 224 && b == 0 && c == 0
is_link_local_multicast (v6 a b rest) = a == 255 && b - 16 * (b / 16) == 2

abbrev pub is_unspecified : Ip → Bool
is_unspecified (v4 a b c d) = a == 0 && b == 0 && c == 0 && d == 0
is_unspecified (v6 a b rest) = a == 0 && b == 0 && all_zero rest

abbrev pub is_multicast : Ip → Bool
is_multicast (v4 a b c d) = a / 16 == 14
is_multicast (v6 a b rest) = a == 255

-- `isPrivateIP`
unfoldable pub is_private_ip : Ip → Bool
is_private_ip ip =
    is_loopback ip
    || is_private ip
    || is_link_local_unicast ip
    || is_link_local_multicast ip
    || is_unspecified ip
    || is_multicast ip

-- A host: what `net.ParseIP` makes of it.
pub data Host : Type 0 where
  literal : Ip → Host
  name : Bytes → Host

pub data HostError : Type 0 where
  private_network lookup_failed no_addresses invalid_url bad_address : HostError

-- The loop over the addresses of a name.
unfoldable pub check_addresses : List Ip → Option HostError
check_addresses [] = none
check_addresses (ip ∷ ips) = if is_private_ip ip then some private_network else check_addresses ips

-- `validateHostAddresses`, with the resolver's answer; `none` is no error.
unfoldable pub validate_host_addresses : Bool → Host → Option (List Ip) → Option HostError
validate_host_addresses true host answer = none
validate_host_addresses false (literal ip) answer =
    if is_private_ip ip then some private_network else none
validate_host_addresses false (name host) none = some lookup_failed
validate_host_addresses false (name host) (some []) = some no_addresses
validate_host_addresses false (name host) (some (ip ∷ ips)) = check_addresses (ip ∷ ips)

-- What `url.Parse` makes of a URL that it accepts; `none` is an empty host name.
pub record Url : Type 0 where
  pub scheme : Bytes
  pub host : Option Host

-- `validateDownloadURL`
unfoldable pub validate_download_url : Bool → Option Url → Option (List Ip) → Option HostError
validate_download_url allow none answer = some invalid_url
validate_download_url allow (some u) answer = elim (u.host) [
  | none ↦ some invalid_url
  | some host ↦
      if not (text_eq u.scheme (codes "http")) && not (text_eq u.scheme (codes "https"))
      then some invalid_url
      else validate_host_addresses allow host answer
]

-- The addresses that `net.Dialer` tries for a host, with the resolver's answer to it.
abbrev pub dialed : Host → Option (List Ip) → List Ip
dialed (literal ip) answer = ip ∷ []
dialed (name host) none = []
dialed (name host) (some ips) = ips

abbrev pub after_check : Option HostError → List Ip → List Ip
after_check none ips = ips
after_check (some e) ips = []

-- The `DialContext` of `ReconfigureTransport`: the addresses that are tried. The check asks the
-- resolver, and then the dialer asks it again.
unfoldable pub dial_context : Bool → Host → Option (List Ip) → Option (List Ip) → List Ip
dial_context allow host first second =
    after_check (validate_host_addresses allow host first) (dialed host second)

-- An IPv4 address as a number.
abbrev pub number : ℕ → ℕ → ℕ → ℕ → ℕ
number a b c d = ((a * 256 + b) * 256 + c) * 256 + d

-- The number lies in a block of addresses.
abbrev pub Within : ℕ → ℕ → ℕ → Type 0
Within lo hi n = (lo ≤ n) × (n ≤ hi)

-- `0.0.0.0`, and the blocks 10/8, 127/8, 169.254/16, 172.16/12, 192.168/16 and 224/4, each by its
-- first and its last address.
abbrev pub Reserved : ℕ → Type 0
Reserved n =
    (n ≡ 0)
    ⊎ Within 167772160 184549375 n
    ⊎ Within 2130706432 2147483647 n
    ⊎ Within 2851995648 2852061183 n
    ⊎ Within 2886729728 2887778303 n
    ⊎ Within 3232235520 3232301055 n
    ⊎ Within 3758096384 4026531839 n

-- For IPv4, `isPrivateIP` decides exactly the membership of the address, as a number, in the
-- reserved blocks.
pub is_private_ip_iff :
    (a b c d : ℕ)
    → a < 256
    → b < 256
    → c < 256
    → d < 256
    → (is_private_ip (v4 a b c d) ≡ true) ↔ Reserved (number a b c d)
unfolding is_private_ip
is_private_ip_iff a b c d ha hb hc hd = ground arith

-- An address that passed the loop over the addresses of a name is not private.
check_addresses-public :
    (ips : List Ip) (i : ℕ) (ip : Ip)
    → check_addresses ips ≡ none
    → get_elem? ips i ≡ some ip
    → is_private_ip ip ≡ false
unfolding check_addresses
check_addresses-public [] i ip ok e = absurd cc
check_addresses-public (x ∷ ips) zero ip ok e = ground arith
check_addresses-public (x ∷ ips) (suc i) ip ok e = check_addresses-public ips i ip (ground arith) e

get_elem?-after_check :
    (v : Option HostError) (ips : List Ip) (i : ℕ) (ip : Ip)
    → get_elem? (after_check v ips) i ≡ some ip
    → (v ≡ none) × (get_elem? ips i ≡ some ip)
get_elem?-after_check none ips i ip e = (refl, e)
get_elem?-after_check (some x) ips i ip e = absurd cc

-- A host that passes the check has no private address.
validate_host_addresses-public :
    (host : Host) (answer : Option (List Ip)) (i : ℕ) (ip : Ip)
    → validate_host_addresses false host answer ≡ none
    → get_elem? (dialed host answer) i ≡ some ip
    → is_private_ip ip ≡ false
unfolding validate_host_addresses
validate_host_addresses-public (literal x) answer zero ip ok e = ground arith
validate_host_addresses-public (literal x) answer (suc i) ip ok e = absurd cc
validate_host_addresses-public (name h) none i ip ok e = absurd cc
validate_host_addresses-public (name h) (some []) i ip ok e = absurd cc
validate_host_addresses-public (name h) (some (x ∷ ips)) i ip ok e =
    check_addresses-public (x ∷ ips) i ip ok e

-- Where both lookups of a host give the same answer, no address that the dialer tries is private,
-- unless private hosts are allowed.
pub dial_public :
    (host : Host) (answer : Option (List Ip)) (i : ℕ) (ip : Ip)
    → get_elem? (dial_context false host answer answer) i ≡ some ip
    → is_private_ip ip ≡ false
unfolding dial_context
dial_public host answer i ip e =
    let (ok, e') =
      get_elem?-after_check (validate_host_addresses false host answer) (dialed host answer) i ip
        e in
    validate_host_addresses-public host answer i ip ok e'
