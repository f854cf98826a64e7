-- ===== src/Settings/Load.antt =====
-- `SETTINGS` of src/settings.rs and `CRATE_NAME` of src/main.rs: the configuration from its file and the environment. The
-- crate `config` is a record of operations; a panic is `none`.
use Prim.Native.Char.{char, code}
use Prim.Native.String.{String, [] as empty, ◌∷◌ as ◌:>◌}
use text.Mathlib.Text.{char_at?}
use mathlib.Core.Option.{get_or}
use faucet_api.Common.{
  ◌-◌, ◌&&◌, ◌==◌, leb, Option, none, some, List, [], ◌∷◌, Result, ok, err, if◌then◌else◌,
}
use faucet_api.Settings.{settings_path, ReadableSettings, Settings, try_from}

-- `.replace("-", "_")`
unfoldable replace_dashes : String → String
replace_dashes empty = empty
replace_dashes (c :> s) =
    let rest = replace_dashes s in if code c == 45 then char 95 tt :> rest else c :> rest

-- `.to_uppercase()`, on ASCII letters
unfoldable to_uppercase : String → String
to_uppercase empty = empty
to_uppercase (c :> s) =
    let rest = to_uppercase s in
    if leb 97 (code c) && leb (code c) 122
    then get_or (char_at? "ABCDEFGHIJKLMNOPQRSTUVWXYZ" (code c - 97)) c :> rest
    else c :> rest

-- `CRATE_NAME`, from the name of the package in Cargo.toml
unfoldable pub crate_name : String
unfolding replace_dashes
crate_name = replace_dashes "alpen-faucet"

-- What the start uses of the crate: the sources, their combination, and the reading of the fields.
pub record ConfigCrate (Readable : Type 0) : Type 1 where
  pub Source : Type 0
  pub Config : Type 0
  pub ConfigError : Type 0
  pub file_from : String → Source  -- `config::File::from`
  pub file_with_name : String → Source
  pub environment_with_prefix : String → Source
  pub build : List Source → Result Config ConfigError
  pub try_deserialize : Config → Result Readable ConfigError

module _ {ClientIpSource Network : Type 0} (signet : Network)
    (config : ConfigCrate (ReadableSettings ClientIpSource Network signet)) where
  -- The file, and the environment over it.
  unfoldable pub sources : List String → List config.Source
  unfolding settings_path crate_name to_uppercase
  sources args =
      let environment = config.environment_with_prefix (to_uppercase crate_name) in
      elim (settings_path args) [
        | some path ↦ config.file_from path ∷ environment ∷ []
        | none ↦ config.file_with_name "faucet.toml" ∷ environment ∷ []
      ]

  -- `SETTINGS`, for the arguments of the program.
  unfoldable pub load : List String → Option (Settings ClientIpSource Network signet)
  unfolding sources try_from
  load args = elim (config.build (sources args)) [
    | err e ↦ none
    | ok built ↦ elim (config.try_deserialize built) [
      | err e ↦ none
      | ok read_settings ↦ elim (try_from ClientIpSource Network signet read_settings) [
        | none ↦ none
        | some (err e) ↦ none
        | some (ok settings) ↦ some settings
      ]
    ]
  ]
