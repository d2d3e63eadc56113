-- ===== src/Options.antt =====
-- pkg/engine/options.go: the options of an engine, and the transport that they configure.
-- A duration is a number of nanoseconds. Of the HTTP client's transport only the fields that
-- `ReconfigureTransport` sets from the options are kept. The progress callback is left out.
use files_downloader_golang.Common.{
  ℕ, ◌*◌, ◌≡◌, Bool, true, false, Option, none, some, List, [], ◌∷◌, if◌then◌else◌, arith,
}
use files_downloader_golang.Common.Int.{ℤ, pos, ltb_ℤ, leb_ℤ, ◌≤ℤ◌}
use files_downloader_golang.Common.Text.{Bytes, codes, text_eq}
use files_downloader_golang.Chunk.{default_concurrency}

abbrev pub seconds : ℕ → ℤ
seconds n = pos (n * 1000000000)

pub record Transport : Type 0 where
  pub dial_timeout : ℤ
  pub tls_handshake_timeout : ℤ
  pub response_header_timeout : ℤ
  pub insecure_skip_verify : Bool

-- The headers are the map's keys with their values.
pub record Options : Type 0 where
  pub concurrency : ℤ
  pub chunk_size : ℤ
  pub max_retries : ℤ
  pub retry_delay : ℤ
  pub timeout : ℤ
  pub connect_timeout : ℤ
  pub link_timeout : ℤ
  pub idle_timeout : ℤ
  pub probe_timeout : ℤ
  pub insecure : Bool
  pub transport : Option Transport
  pub headers : List (Bytes × Bytes)
  pub user_agent : Bytes
  pub copy_buffer_size : ℤ
  pub stream_prefetch : ℤ
  pub progress_interval : ℤ
  pub auto_rename : Bool
  pub allow_private_hosts : Bool

abbrev default_connect_timeout : ℤ
default_connect_timeout = seconds 15

abbrev default_link_timeout : ℤ
default_link_timeout = seconds 30

abbrev pub or_default : ℤ → ℤ → ℤ
or_default n default = if leb_ℤ n (pos 0) then default else n

-- `ReconfigureTransport`, which makes the transport where there is none.
unfoldable pub reconfigure_transport : Options → Options
reconfigure_transport o = record o {
  transport = some (record {
    dial_timeout = or_default o.connect_timeout default_connect_timeout;
    tls_handshake_timeout = or_default o.connect_timeout default_connect_timeout;
    response_header_timeout = or_default o.link_timeout default_link_timeout;
    insecure_skip_verify = o.insecure;
  });
}

-- `DefaultOptions`
unfoldable pub default_options : Options
default_options = reconfigure_transport (record {
  concurrency = default_concurrency;
  chunk_size = pos 8388608;
  max_retries = pos 5;
  retry_delay = seconds 1;
  timeout = pos 0;
  connect_timeout = default_connect_timeout;
  link_timeout = default_link_timeout;
  idle_timeout = seconds 30;
  probe_timeout = seconds 15;
  insecure = false;
  transport = none;
  headers = [];
  user_agent = codes "DownloadEngine/1.1.0 (+https://github.com/Talhary/files-downloader-golang)";
  copy_buffer_size = pos 65536;
  stream_prefetch = pos 4;
  progress_interval = pos 200000000;
  auto_rename = true;
  allow_private_hosts = false;
})

-- The values of type `Option`: what the functions of options.go make, and any other function of the
-- options. A client stands for its transport, if that is an `http.Transport`.
pub data Setting : Type 0 where
  with_concurrency with_chunk_size with_max_retries with_retry_delay : ℤ → Setting
  with_http_client : Option (Option Transport) → Setting
  with_header : Bytes → Bytes → Setting
  with_headers : List (Bytes × Bytes) → Setting
  with_user_agent : Bytes → Setting
  with_progress_callback with_stream_prefetch with_copy_buffer_size with_timeout : ℤ → Setting
  with_connect_timeout with_link_timeout with_idle_timeout with_probe_timeout : ℤ → Setting
  with_insecure with_allow_private_hosts : Bool → Setting
  custom : (Options → Options) → Setting

abbrev pub positive : ℤ → Bool
positive n = ltb_ℤ (pos 0) n

-- A write to the map of the headers.
unfoldable pub set_header : List (Bytes × Bytes) → Bytes → Bytes → List (Bytes × Bytes)
set_header [] key value = (key, value) ∷ []
set_header ((k, v) ∷ headers) key value =
    if text_eq k key then (k, value) ∷ headers else (k, v) ∷ set_header headers key value

unfoldable pub set_headers : List (Bytes × Bytes) → List (Bytes × Bytes) → List (Bytes × Bytes)
set_headers headers [] = headers
set_headers headers ((k, v) ∷ more) = set_headers (set_header headers k v) more

unfoldable pub apply : Setting → Options → Options
apply (with_concurrency n) o = if positive n then record o { concurrency = n } else o
apply (with_chunk_size n) o = if positive n then record o { chunk_size = n } else o
apply (with_max_retries n) o = if leb_ℤ (pos 0) n then record o { max_retries = n } else o
apply (with_retry_delay d) o = if positive d then record o { retry_delay = d } else o
apply (with_http_client none) o = o
apply (with_http_client (some transport)) o = record o { transport = transport }
apply (with_header key value) o = record o { headers = set_header o.headers key value }
apply (with_headers headers) o = record o { headers = set_headers o.headers headers }
apply (with_user_agent []) o = o
apply (with_user_agent (c ∷ s)) o = record o { user_agent = c ∷ s }
apply (with_progress_callback d) o = if positive d then record o { progress_interval = d } else o
apply (with_stream_prefetch n) o = if positive n then record o { stream_prefetch = n } else o
apply (with_copy_buffer_size n) o = if positive n then record o { copy_buffer_size = n } else o
apply (with_timeout d) o = record o { timeout = d }
apply (with_connect_timeout d) o =
    if positive d then reconfigure_transport (record o { connect_timeout = d }) else o
apply (with_link_timeout d) o =
    if positive d then reconfigure_transport (record o { link_timeout = d }) else o
apply (with_idle_timeout d) o = if positive d then record o { idle_timeout = d } else o
apply (with_probe_timeout d) o = if positive d then record o { probe_timeout = d } else o
apply (with_insecure b) o = reconfigure_transport (record o { insecure = b })
apply (with_allow_private_hosts b) o = reconfigure_transport (record o { allow_private_hosts = b })
apply (custom f) o = f o

unfoldable pub apply_all : List Setting → Options → Options
apply_all [] o = o
apply_all (s ∷ settings) o = apply_all settings (apply s o)

-- `New`: the options of an engine.
unfoldable pub new_engine : List Setting → Options
new_engine settings = reconfigure_transport (apply_all settings default_options)

abbrev Positive : ℤ → Type 0
Positive n = pos 1 ≤ℤ n

-- Every size, number of workers, delay and interval is positive, and so is every timeout but the
-- overall one; the number of retries is not negative.
abbrev pub Usable : Options → Type 0
Usable o =
    Positive o.concurrency
    × Positive o.chunk_size
    × (pos 0 ≤ℤ o.max_retries)
    × Positive o.retry_delay
    × Positive o.connect_timeout
    × Positive o.link_timeout
    × Positive o.idle_timeout
    × Positive o.probe_timeout
    × Positive o.copy_buffer_size
    × Positive o.stream_prefetch
    × Positive o.progress_interval

-- The options are made by the functions of options.go.
abbrev pub Made : List Setting → Type 0
Made [] = Unit
Made (custom f ∷ settings) = ⊥
Made (s ∷ settings) = Made settings

Made-rest : (s : Setting) (settings : List Setting) → Made (s ∷ settings) → Made settings
Made-rest (custom f) settings made = absurd made
Made-rest _ settings made = made

Made-first : (s : Setting) (settings : List Setting) → Made (s ∷ settings) → Made (s ∷ [])
Made-first (custom f) settings made = made
Made-first _ settings made = tt

apply-Usable : (s : Setting) (o : Options) → Made (s ∷ []) → Usable o → Usable (apply s o)
unfolding apply reconfigure_transport
apply-Usable (with_concurrency n) o made u = ground arith
apply-Usable (with_chunk_size n) o made u = ground arith
apply-Usable (with_max_retries n) o made u = ground arith
apply-Usable (with_retry_delay n) o made u = ground arith
apply-Usable (with_http_client none) o made u = u
apply-Usable (with_http_client (some transport)) o made u = u
apply-Usable (with_header key value) o made u = u
apply-Usable (with_headers headers) o made u = u
apply-Usable (with_user_agent []) o made u = u
apply-Usable (with_user_agent (c ∷ s)) o made u = u
apply-Usable (with_progress_callback n) o made u = ground arith
apply-Usable (with_stream_prefetch n) o made u = ground arith
apply-Usable (with_copy_buffer_size n) o made u = ground arith
apply-Usable (with_timeout n) o made u = u
apply-Usable (with_connect_timeout n) o made u = ground arith
apply-Usable (with_link_timeout n) o made u = ground arith
apply-Usable (with_idle_timeout n) o made u = ground arith
apply-Usable (with_probe_timeout n) o made u = ground arith
apply-Usable (with_insecure b) o made u = u
apply-Usable (with_allow_private_hosts b) o made u = u
apply-Usable (custom f) o made u = absurd made

apply_all-Usable :
    (settings : List Setting) (o : Options)
    → Made settings
    → Usable o
    → Usable (apply_all settings o)
unfolding apply_all
apply_all-Usable [] o made u = u
apply_all-Usable (s ∷ settings) o made u =
    apply_all-Usable settings (apply s o) (Made-rest s settings made)
      (apply-Usable s o (Made-first s settings made) u)

default_options-Usable : Usable default_options
unfolding default_options reconfigure_transport
default_options-Usable = omega arith

-- The transport has the options' own timeouts and certificate check.
abbrev pub InStep : Options → Type 0
InStep o =
    o.transport
    ≡ some (record {
      dial_timeout = o.connect_timeout;
      tls_handshake_timeout = o.connect_timeout;
      response_header_timeout = o.link_timeout;
      insecure_skip_verify = o.insecure;
    })

or_default-Positive : (n default : ℤ) → Positive n → or_default n default ≡ n
or_default-Positive n default h = ground arith

reconfigure_transport-InStep :
    (o : Options) → Usable o → Usable (reconfigure_transport o) × InStep (reconfigure_transport o)
unfolding reconfigure_transport
reconfigure_transport-InStep o u =
    let connect : or_default o.connect_timeout default_connect_timeout ≡ o.connect_timeout =
      or_default-Positive o.connect_timeout default_connect_timeout (omega arith) in
    let link : or_default o.link_timeout default_link_timeout ≡ o.link_timeout =
      or_default-Positive o.link_timeout default_link_timeout (omega arith) in
    (u, cc)

-- With any options that the functions of options.go make, in any order and with any values, the
-- engine's options are usable, and its transport has their timeouts and their certificate check.
pub new_engine-Usable :
    (settings : List Setting)
    → Made settings
    → Usable (new_engine settings) × InStep (new_engine settings)
unfolding new_engine
new_engine-Usable settings made =
    reconfigure_transport-InStep (apply_all settings default_options)
      (apply_all-Usable settings default_options made default_options-Usable)
