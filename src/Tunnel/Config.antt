-- ===== src/Tunnel/Config.antt =====
-- pkg/tunnel/config.go: the settings of the tunnel and the file that keeps them.
-- The JSON codec is a parameter, and with it the type of what the file holds, if there is one.
use files_downloader_golang.Common.{
  ◌≡◌, refl, sym, ap, ◌∙◌, subst, ◌↔◌, Bool, true, false, Option, none, some, [], ◌∷◌, arith,
  if◌then◌else◌,
}
use files_downloader_golang.Common.Int.{ℤ, pos, ltb_ℤ, leb_ℤ}
use files_downloader_golang.Common.Text.{Bytes, codes}

pub record Config : Type 0 where
  pub bug_host : Bytes
  pub bug_port : ℤ
  pub use_tls : Bool
  pub tls_sni : Bytes
  pub ssh_host : Bytes
  pub ssh_port : ℤ
  pub username : Bytes
  pub password : Bytes
  pub payload : Bytes
  pub expected_status : ℤ
  pub socks_port : ℤ
  pub use_vpn : Bool
  pub auto_set_system_proxy : Bool
  pub auto_reconnect : Bool
  pub disable_tcp_delay : Bool
  pub keep_alive_interval : ℤ
  pub ssh_concurrency : ℤ

abbrev pub default_payload : Bytes
default_payload =
    codes
      "GET / HTTP/1.1[crlf]Host: [host][crlf]Upgrade: websocket[crlf]Connection: Upgrade[crlf][crlf]"

-- `DefaultConfig`
abbrev pub default_config : Config
default_config = record {
  bug_host = [];
  bug_port = pos 80;
  use_tls = false;
  tls_sni = [];
  ssh_host = [];
  ssh_port = pos 80;
  username = [];
  password = [];
  payload = default_payload;
  expected_status = pos 101;
  socks_port = pos 10808;
  use_vpn = true;
  auto_set_system_proxy = false;
  auto_reconnect = true;
  disable_tcp_delay = true;
  keep_alive_interval = pos 15;
  ssh_concurrency = pos 2;
}

abbrev pub positive_or : ℤ → ℤ → ℤ
positive_or default n = if leb_ℤ n (pos 0) then default else n

abbrev pub filled_or : Bytes → Bytes → Bytes
filled_or default [] = default
filled_or default (c ∷ s) = c ∷ s

-- The part of `Update` that enforces sane defaults.
unfoldable pub enforce : Config → Config
enforce cfg = record cfg {
  bug_port = positive_or (pos 80) cfg.bug_port;
  ssh_port = positive_or (pos 80) cfg.ssh_port;
  socks_port = positive_or (pos 10808) cfg.socks_port;
  keep_alive_interval = positive_or (pos 15) cfg.keep_alive_interval;
  payload = filled_or default_payload cfg.payload;
  ssh_concurrency =
      if leb_ℤ cfg.ssh_concurrency (pos 0)
      then pos 2
      else if ltb_ℤ (pos 4) cfg.ssh_concurrency
      then pos 4
      else cfg.ssh_concurrency;
}

-- `ConfigStore`, with the file at its path.
pub record ConfigStore (F : Type 0) : Type 0 where
  pub current : Config
  pub file : Option F

-- How `saveLocked` ends: it makes no directory, `os.WriteFile` opens no file, or it has emptied the
-- file and leaves some other content in it, or it succeeds.
pub data SaveEnd (F : Type 0) : Type 0 where
  no_directory not_opened written : SaveEnd F
  cut_off : F → SaveEnd F

abbrev is_written : {F : Type 0} → SaveEnd F → Bool
is_written no_directory = false
is_written not_opened = false
is_written written = true
is_written (cut_off rest) = false

module _ {F : Type 0} (encode : Config → F) (decode : F → Option Config) where
  abbrev loaded : ConfigStore F → Option Config → ConfigStore F
  loaded s none = s
  loaded s (some cfg) = record s { current = cfg }

  -- `Load`: an error leaves the settings as they are.
  unfoldable pub load : ConfigStore F → Option F → ConfigStore F
  load s none = s
  load s (some bytes) = loaded s (decode bytes)

  -- `NewConfigStore`
  unfoldable pub new_store : Option F → ConfigStore F
  unfolding load
  new_store file = load (record { current = default_config; file = file }) file

  -- The file behind a save.
  abbrev saved : Option F → Config → SaveEnd F → Option F
  saved old cfg no_directory = old
  saved old cfg not_opened = old
  saved old cfg (cut_off rest) = some rest
  saved old cfg written = some (encode cfg)

  -- `Update`, and whether it returns no error.
  unfoldable pub update : SaveEnd F → Config → ConfigStore F → Bool × ConfigStore F
  unfolding enforce
  update save_end cfg s = (
    is_written save_end,
    record { current = enforce cfg; file = saved s.file (enforce cfg) save_end },
  )

-- Settings that the tunnel can run with.
pub record Sane (cfg : Config) : Type 0 where
  pub bug_port_set : ltb_ℤ (pos 0) cfg.bug_port ≡ true
  pub ssh_port_set : ltb_ℤ (pos 0) cfg.ssh_port ≡ true
  pub socks_port_set : ltb_ℤ (pos 0) cfg.socks_port ≡ true
  pub keep_alive_set : ltb_ℤ (pos 0) cfg.keep_alive_interval ≡ true
  pub payload_set : filled_or default_payload cfg.payload ≡ cfg.payload
  pub some_client : ltb_ℤ (pos 0) cfg.ssh_concurrency ≡ true
  pub few_clients : leb_ℤ cfg.ssh_concurrency (pos 4) ≡ true

filled_or-filled_or : (d s : Bytes) → filled_or d (filled_or d s) ≡ filled_or d s
filled_or-filled_or [] [] = refl
filled_or-filled_or (x ∷ d) [] = refl
filled_or-filled_or d (c ∷ s) = refl

enforce-Sane : (cfg : Config) → Sane (enforce cfg)
unfolding enforce
enforce-Sane cfg = record {
  bug_port_set = ground arith;
  ssh_port_set = ground arith;
  socks_port_set = ground arith;
  keep_alive_set = ground arith;
  payload_set = filled_or-filled_or default_payload cfg.payload;
  some_client = ground arith;
  few_clients = ground arith;
}

positive_or-id : (d n : ℤ) → ltb_ℤ (pos 0) n ≡ true → positive_or d n ≡ n
positive_or-id d n h = ground arith

-- A setting that is as it should be is left as it is.
Sane-enforce : (cfg : Config) → Sane cfg → enforce cfg ≡ cfg
unfolding enforce
Sane-enforce cfg s =
    let clients : (if leb_ℤ cfg.ssh_concurrency (pos 0)
          then pos 2
          else if ltb_ℤ (pos 4) cfg.ssh_concurrency
          then pos 4
          else cfg.ssh_concurrency)
        ≡ cfg.ssh_concurrency =
      ground (arith, s.some_client, s.few_clients) in
    λ i. record cfg {
      bug_port = positive_or-id (pos 80) cfg.bug_port s.bug_port_set i;
      ssh_port = positive_or-id (pos 80) cfg.ssh_port s.ssh_port_set i;
      socks_port = positive_or-id (pos 10808) cfg.socks_port s.socks_port_set i;
      keep_alive_interval = positive_or-id (pos 15) cfg.keep_alive_interval s.keep_alive_set i;
      payload = s.payload_set i;
      ssh_concurrency = clients i;
    }

is_written-written : {F : Type 0} (w : SaveEnd F) → is_written w ≡ true → w ≡ written
is_written-written no_directory e = cc
is_written-written not_opened e = cc
is_written-written written e = refl
is_written-written (cut_off rest) e = cc

-- When an update of the settings returns no error, and the codec gives back the settings that were
-- saved, a new store reads settings that the tunnel can run with: each port and the keep-alive
-- interval positive, one to four clients, and a payload. They are the caller's exactly if the
-- caller's were so already.
pub update-new_store :
    {F : Type 0} (encode : Config → F) (decode : F → Option Config) (cfg : Config)
    (s : ConfigStore F) (save_end : SaveEnd F)
    → decode (encode (enforce cfg)) ≡ some (enforce cfg)
    → (update encode decode save_end cfg s).0 ≡ true
    → Sane (new_store encode decode (update encode decode save_end cfg s).1.file).current
      × ((new_store encode decode (update encode decode save_end cfg s).1.file).current ≡ cfg
          ↔ Sane cfg)
unfolding new_store update load
update-new_store {F = F} encode decode cfg s save_end codec ok =
    let start : ConfigStore F = record {
      current = default_config;
      file = some (encode (enforce cfg));
    } in
    let read : (loaded encode decode start (decode (encode (enforce cfg)))).current ≡ enforce cfg =
      ap (λ o. (loaded encode decode start o).current) codec in
    rw (is_written-written save_end ok) (
      subst Sane (sym read) (enforce-Sane cfg),
      (λ e. subst Sane (sym read ∙ e) (enforce-Sane cfg), λ sane. read ∙ Sane-enforce cfg sane),
    )
