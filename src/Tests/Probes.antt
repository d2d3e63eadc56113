-- ===== src/Tests/Probes.antt =====
-- A probe whose HEAD request is refused, and whose range request is answered.
use files_downloader_golang.Common.{ℕ, ◌≡◌, ◌⊎◌, refl, true, false, none, []}
use files_downloader_golang.Common.Int.{pos, ◌≤ℤ◌}
use files_downloader_golang.Common.Text.{
  Bytes, codes, text_eq, trim_by, trim_left_by, trim_right_by,
}
use files_downloader_golang.Common.Split.{parse_int, parse_digits}
use files_downloader_golang.Probe.{FileInfo}
use files_downloader_golang.Probe.Requests.{
  ProbeResponse, failed, answered, ProbeRound, probe, found, probe_backed, Says, is_prefix,
  contains, has_accept_ranges, after_last, parse_response_info, range_info, probe_with_get_range,
  attempt_probe, probe_from,
}

abbrev no_name : Bytes → Bytes → Bytes → Bytes → Bytes
no_name url final disposition content_type = []

abbrev partial_answer : ProbeResponse
partial_answer = record {
  status = 206;
  content_length = pos 1;
  accept_ranges = [];
  content_range = codes "bytes 0-0/4096";
  etag = [];
  last_modified = none;
  content_type = [];
  disposition = [];
  final_url = none;
}

abbrev one_round : ProbeRound
one_round = record {
  done_before = false;
  done_waiting = false;
  makes_request = true;
  head = failed none;
  get = answered partial_answer;
}

abbrev expected_info : FileInfo
expected_info = record {
  url = codes "u";
  final_url = codes "u";
  filename = [];
  content_length = pos 4096;
  accept_ranges = true;
  etag = [];
  last_modified = none;
  content_type = [];
  status_code = pos 206;
}

probe_finds : probe no_name (codes "u") (pos 0) (λ k. one_round) ≡ found expected_info
unfolding probe probe_from attempt_probe probe_with_get_range range_info parse_response_info
    after_last has_accept_ranges contains is_prefix parse_int parse_digits trim_by trim_left_by
    trim_right_by text_eq
probe_finds = refl

probe_backed_example :
    (k : ℕ) × (pos k ≤ℤ pos 0)
    × (false ≡ false)
    × (pos 0 ≤ℤ pos 4096)
    × ((true ≡ false) ⊎ Says one_round.head ⊎ Says one_round.get)
probe_backed_example =
    probe_backed no_name (codes "u") (pos 0) (λ k. one_round) expected_info probe_finds
