-- ===== src/Tests/Engines.antt =====
-- The options of an engine, at some settings.
use files_downloader_golang.Common.{List, [], ◌∷◌}
use files_downloader_golang.Common.Int.{pos, negsuc}
use files_downloader_golang.Options.{
  Setting, with_concurrency, with_connect_timeout, with_max_retries, new_engine, new_engine-Usable,
  Usable, InStep,
}

abbrev some_settings : List Setting
some_settings =
    with_concurrency (negsuc 3) ∷ with_connect_timeout (pos 5) ∷ with_max_retries (pos 0) ∷ []

new_engine-Usable_example : Usable (new_engine some_settings) × InStep (new_engine some_settings)
new_engine-Usable_example = new_engine-Usable some_settings tt
