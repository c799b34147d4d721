-- ===== src/Tests/ConfigTests.antt =====
-- A configuration file of relative paths that the server starts with.
use vaps.Base.{◌≡◌, refl, true, false, none, some, List, [], ◌∷◌, ◌++◌}
use vaps.Text.{Bytes, codes, has_prefix, has_prefix-append, same}
use vaps.Int64.{pos}
use vaps.Config.{Config, normalize, validate, endpoint_accepted, url_accepted}
use vaps.Config.Args.{
  Host, Result, ok, with_settings, from_args_with_base_dir, maybe_print_version, parse_config_path,
  with_file, resolve_path, with_flags, parse_cli, merge_config_overrides, checked_config,
  resolve_paths,
}
use vaps.Config.Args.Valid.{Valid, Located, from_args_with_base_dir-Valid}

abbrev sample : Config
sample = record {
  addr = codes ":8080";
  data_dir = codes "data";
  metadata_db = codes "data/metadata.db";
  auth_db = codes "data/auth.db";
  upload_db = codes "data/upload.db";
  log_dir = codes "/var/log/vaps";
  log_retention_days = pos 7;
  status_log_interval = pos 60;
  metadata = record { workers = pos 0; timeout = pos 5; progress_interval = pos 5 };
  cache = record { bytes = pos 64; max_object_bytes = pos 8 };
  auth = record { expire_time = pos 0 };
  upload = record {
    direct_max_bytes = pos 8;
    expiration = pos 60;
    cleanup_interval = pos 60;
    dir = codes "uploads";
  };
  dashboard = record { info_refresh_interval = pos 5 };
  storage = record {
    s3 = record {
      bucket = codes " payloads ";
      region = codes "local";
      endpoint = codes "https://store";
      prefix = codes "/vaps/";
      force_path_style = true;
    };
    local = record { dir = codes "cache"; max_cache_bytes = pos 100 };
  };
}

abbrev host : Host
host = record {
  parse_url = λ s. some (record {
    scheme = codes "HTTPS";
    hostname = codes "store";
    has_user = false;
    raw_query = [];
    fragment = [];
  });
  is_abs = λ p. has_prefix p (codes "/");
  join = λ base p. codes "/" ++ (base ++ codes "/" ++ p);
  default_config = some sample;
  stat = λ p. some false;
  load_file = λ p cfg. none;
  parse_flags = λ args cfg path. with_settings cfg;
}

abbrev base_dir : Bytes
base_dir = codes "srv"

abbrev arguments : List Bytes
arguments = codes "--config" ∷ codes "local.toml" ∷ []

abbrev startup : Result Config
startup = from_args_with_base_dir host arguments base_dir

abbrev resolved_config : Config
resolved_config = record sample {
  data_dir = codes "/srv/data";
  metadata_db = codes "/srv/data/metadata.db";
  auth_db = codes "/srv/data/auth.db";
  upload_db = codes "/srv/data/upload.db";
  upload = record sample.upload { dir = codes "/srv/uploads" };
  storage = record {
    s3 = record sample.storage.s3 { bucket = codes "payloads"; prefix = codes "vaps" };
    local = record sample.storage.local { dir = codes "/srv/cache" };
  };
}

startup_ok : startup ≡ ok resolved_config
unfolding from_args_with_base_dir maybe_print_version parse_config_path with_file resolve_path
    with_flags parse_cli merge_config_overrides checked_config resolve_paths normalize validate
    endpoint_accepted url_accepted same has_prefix
startup_ok = refl

from_args_with_base_dir-Valid_example :
    Valid host.parse_url resolved_config × Located host resolved_config
from_args_with_base_dir-Valid_example =
    from_args_with_base_dir-Valid host arguments base_dir resolved_config
      (λ p. has_prefix-append (codes "/") (base_dir ++ codes "/" ++ p)) startup_ok
