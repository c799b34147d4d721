-- ===== src/Config/Args.antt =====
-- internal/appconfig/cli.go and FromArgsWithBaseDir: the configuration from the file and the flags.
pub mod Valid
use vaps.Base.{Bool, true, false, ◌||◌, Option, none, some, List, [], ◌∷◌, if◌then◌else◌}
use vaps.Text.{Bytes, same, codes, has_prefix, trim_prefix}
use vaps.Int64.{ℤ, pos, eq_ℤ}
use vaps.Config.{
  Config, MetadataConfig, UploadConfig, CacheConfig, AuthConfig, DashboardConfig, S3StorageConfig,
  LocalStorageConfig, StorageConfig, Url, normalize, validate,
}

-- The errors of FromArgsWithBaseDir: ErrHelp, a flag -c without its value, an error that a library
-- gives, and the text of validate.
pub data Error : Type 0 where
  help flag_requires_value library : Error
  refused : Bytes → Error

pub data Result {ℓ} (A : Type ℓ) : Type ℓ where
  err : Error → Result A
  ok : A → Result A

-- What the flag parser gives: the settings with the flags, the help text or an error.
pub data Flags : Type 0 where
  help_shown bad_flags : Flags
  with_settings : Config → Flags

-- mergeNonZeroFields on a field of each kind
unfoldable merge_string : Bytes → Bytes → Bytes
merge_string base parsed = if same parsed [] then base else parsed

unfoldable merge_int : ℤ → ℤ → ℤ
merge_int base parsed = if eq_ℤ parsed (pos 0) then base else parsed

unfoldable merge_bool : Bool → Bool → Bool
merge_bool base parsed = if parsed then parsed else base

-- mergeNonZeroFields on the parts of the configuration
unfoldable merge_metadata : MetadataConfig → MetadataConfig → MetadataConfig
unfolding merge_int
merge_metadata base parsed = record {
  workers = merge_int base.workers parsed.workers;
  timeout = merge_int base.timeout parsed.timeout;
  progress_interval = merge_int base.progress_interval parsed.progress_interval;
}

unfoldable merge_upload : UploadConfig → UploadConfig → UploadConfig
unfolding merge_int merge_string
merge_upload base parsed = record {
  direct_max_bytes = merge_int base.direct_max_bytes parsed.direct_max_bytes;
  expiration = merge_int base.expiration parsed.expiration;
  cleanup_interval = merge_int base.cleanup_interval parsed.cleanup_interval;
  dir = merge_string base.dir parsed.dir;
}

unfoldable merge_cache : CacheConfig → CacheConfig → CacheConfig
unfolding merge_int
merge_cache base parsed = record {
  bytes = merge_int base.bytes parsed.bytes;
  max_object_bytes = merge_int base.max_object_bytes parsed.max_object_bytes;
}

unfoldable merge_s3 : S3StorageConfig → S3StorageConfig → S3StorageConfig
unfolding merge_bool merge_string
merge_s3 base parsed = record {
  bucket = merge_string base.bucket parsed.bucket;
  region = merge_string base.region parsed.region;
  endpoint = merge_string base.endpoint parsed.endpoint;
  prefix = merge_string base.prefix parsed.prefix;
  force_path_style = merge_bool base.force_path_style parsed.force_path_style;
}

unfoldable merge_local : LocalStorageConfig → LocalStorageConfig → LocalStorageConfig
unfolding merge_int merge_string
merge_local base parsed = record {
  dir = merge_string base.dir parsed.dir;
  max_cache_bytes = merge_int base.max_cache_bytes parsed.max_cache_bytes;
}

unfoldable merge_storage : StorageConfig → StorageConfig → StorageConfig
unfolding merge_s3 merge_local
merge_storage base parsed = record {
  s3 = merge_s3 base.s3 parsed.s3;
  local = merge_local base.local parsed.local;
}

unfoldable merge_auth : AuthConfig → AuthConfig → AuthConfig
unfolding merge_int
merge_auth base parsed = record { expire_time = merge_int base.expire_time parsed.expire_time }

unfoldable merge_dashboard : DashboardConfig → DashboardConfig → DashboardConfig
unfolding merge_int
merge_dashboard base parsed = record {
  info_refresh_interval = merge_int base.info_refresh_interval parsed.info_refresh_interval;
}

-- mergeConfigOverrides
unfoldable pub merge_config_overrides : Config → Config → Config
unfolding merge_string merge_int merge_metadata merge_cache merge_auth merge_dashboard merge_upload
    merge_storage
merge_config_overrides base parsed = record {
  addr = merge_string base.addr parsed.addr;
  data_dir = merge_string base.data_dir parsed.data_dir;
  metadata_db = merge_string base.metadata_db parsed.metadata_db;
  auth_db = merge_string base.auth_db parsed.auth_db;
  upload_db = merge_string base.upload_db parsed.upload_db;
  log_dir = merge_string base.log_dir parsed.log_dir;
  log_retention_days = merge_int base.log_retention_days parsed.log_retention_days;
  status_log_interval = merge_int base.status_log_interval parsed.status_log_interval;
  metadata = merge_metadata base.metadata parsed.metadata;
  cache = merge_cache base.cache parsed.cache;
  auth = merge_auth base.auth parsed.auth;
  upload = merge_upload base.upload parsed.upload;
  dashboard = merge_dashboard base.dashboard parsed.dashboard;
  storage = merge_storage base.storage parsed.storage;
}

-- maybePrintVersion: whether the version is printed
unfoldable pub maybe_print_version : List Bytes → Bool
maybe_print_version [] = false
maybe_print_version (arg ∷ args) =
    let rest = maybe_print_version args in
    if same arg (codes "-v") || same arg (codes "--version") then true else rest

-- The loop of parseConfigPath, from the path that is set so far, with readFlagValue
unfoldable config_path_from : Bytes → List Bytes → Result Bytes
unfolding has_prefix trim_prefix
config_path_from path [] = ok path
config_path_from path (arg ∷ []) =
    if same arg (codes "-c") || same arg (codes "--config")
    then err flag_requires_value
    else if has_prefix arg (codes "--config=")
    then ok (trim_prefix arg (codes "--config="))
    else if has_prefix arg (codes "-c=")
    then ok (trim_prefix arg (codes "-c="))
    else ok path
config_path_from path (arg ∷ value ∷ args) =
    let behind_value = config_path_from value args in
    let behind_long = config_path_from (trim_prefix arg (codes "--config=")) (value ∷ args) in
    let behind_short = config_path_from (trim_prefix arg (codes "-c=")) (value ∷ args) in
    let behind = config_path_from path (value ∷ args) in
    if same arg (codes "-c") || same arg (codes "--config")
    then behind_value
    else if has_prefix arg (codes "--config=")
    then behind_long
    else if has_prefix arg (codes "-c=")
    then behind_short
    else behind

-- parseConfigPath
unfoldable pub parse_config_path : List Bytes → Result Bytes
unfolding config_path_from
parse_config_path args = config_path_from (codes "config.toml") args

-- The libraries and files that the configuration is read with: url.Parse, filepath.IsAbs and
-- filepath.Join, the embedded defaults, os.Stat, the reading of a TOML file over a configuration
-- and the flag parser; none is an error.
pub record Host : Type 0 where
  pub parse_url : Bytes → Option Url
  pub is_abs : Bytes → Bool
  pub join : Bytes → Bytes → Bytes
  pub default_config : Option Config
  pub stat : Bytes → Option Bool
  pub load_file : Bytes → Config → Option Config
  pub parse_flags : List Bytes → Config → Bytes → Flags

module _ (host : Host) where
  open host use {parse_url, is_abs, join, default_config, stat, load_file, parse_flags}

  -- parseCLI
  unfoldable pub parse_cli : List Bytes → Config → Bytes → Result Config
  parse_cli args cfg path = elim (parse_flags args cfg path) [
    | bad_flags ↦ err library
    | help_shown ↦ err help
    | with_settings settings ↦ ok (merge_config_overrides cfg settings)
  ]

  -- resolvePath
  unfoldable pub resolve_path : Bytes → Bytes → Bytes
  resolve_path base_dir path = if is_abs path then path else join base_dir path

  -- The paths that FromArgsWithBaseDir resolves
  unfoldable pub resolve_paths : Bytes → Config → Config
  resolve_paths base_dir cfg =
      let at = resolve_path base_dir in
      let local = record cfg.storage.local { dir = at cfg.storage.local.dir } in
      record cfg {
        data_dir = at cfg.data_dir;
        log_dir = at cfg.log_dir;
        metadata_db = at cfg.metadata_db;
        auth_db = at cfg.auth_db;
        upload_db = at cfg.upload_db;
        upload = record cfg.upload { dir = at cfg.upload.dir };
        storage = record cfg.storage { local = local };
      }

  -- FromArgsWithBaseDir behind parseCLI
  unfoldable pub checked_config : Bytes → Config → Result Config
  checked_config base_dir cfg =
      let normal = normalize cfg in
      elim (validate parse_url normal) [
        | some message ↦ err (refused message)
        | none ↦ ok (resolve_paths base_dir normal)
      ]

  -- FromArgsWithBaseDir behind the configuration file
  unfoldable pub with_flags : List Bytes → Bytes → Bytes → Config → Result Config
  with_flags args base_dir path cfg = elim (parse_cli args cfg path) [
    | err e ↦ err e
    | ok merged ↦ checked_config base_dir merged
  ]

  -- configFileExists and loadTOMLConfig
  unfoldable pub with_file : Bytes → Config → Result Config
  with_file resolved cfg = elim (stat resolved) [
    | none ↦ err library
    | some false ↦ ok cfg
    | some true ↦ elim (load_file resolved cfg) [ none ↦ err library | some loaded ↦ ok loaded ]
  ]

  -- FromArgsWithBaseDir
  unfoldable pub from_args_with_base_dir : List Bytes → Bytes → Result Config
  from_args_with_base_dir args base_dir =
      if maybe_print_version args then err help else elim default_config [
        | none ↦ err library
        | some defaults ↦ elim (parse_config_path args) [
          | err e ↦ err e
          | ok path ↦ elim (with_file (resolve_path base_dir path) defaults) [
            | err e ↦ err e
            | ok cfg ↦ with_flags args base_dir path cfg
          ]
        ]
      ]
