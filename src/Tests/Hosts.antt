-- ===== src/Tests/Hosts.antt =====
-- The guard against private networks, at some addresses.
use files_downloader_golang.Common.{◌≡◌, ◌↔◌, refl, true, false, some, [], ◌∷◌, arith}
use files_downloader_golang.Common.Text.{codes}
use files_downloader_golang.Probe.Hosts.{
  v4, is_private_ip, is_private_ip_iff, Reserved, number, name, dial_context, dial_public,
  check_addresses, validate_host_addresses,
}

is_private_ip_iff_example : (is_private_ip (v4 192 168 0 1) ≡ true) ↔ Reserved (number 192 168 0 1)
is_private_ip_iff_example =
    is_private_ip_iff 192 168 0 1 (omega arith) (omega arith) (omega arith) (omega arith)

dial_public_example : is_private_ip (v4 93 184 216 34) ≡ false
unfolding dial_context validate_host_addresses check_addresses is_private_ip
dial_public_example =
    dial_public (name (codes "a.org")) (some (v4 93 184 216 34 ∷ [])) 0 (v4 93 184 216 34) refl

-- The second lookup gives an address that the first check has not seen.
rebound_run :
    dial_context false
      (name (codes "a.org"))
      (some (v4 93 184 216 34 ∷ []))
      (some (v4 127 0 0 1 ∷ []))
    ≡ v4 127 0 0 1 ∷ []
unfolding dial_context validate_host_addresses check_addresses is_private_ip
rebound_run = refl
