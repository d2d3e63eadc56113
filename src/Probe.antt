-- ===== src/Probe.antt =====
-- pkg/engine/probe.go: what the probe of a URL finds out.
-- A time enters the program only by `IsZero` and `Format(time.RFC3339)`: it is `none` if it is the
-- zero time, and its RFC 3339 text otherwise.
pub mod Hosts
pub mod Requests
use files_downloader_golang.Common.{Bool, Option}
use files_downloader_golang.Common.Int.{ℤ}
use files_downloader_golang.Common.Text.{Bytes}

pub record FileInfo : Type 0 where
  pub url : Bytes
  pub final_url : Bytes
  pub filename : Bytes
  pub content_length : ℤ
  pub accept_ranges : Bool
  pub etag : Bytes
  pub last_modified : Option Bytes
  pub content_type : Bytes
  pub status_code : ℤ
