-- ===== src/Config/Args/Valid.antt =====
-- What a configuration that the server starts with satisfies.
use vaps.Base.{
  ◌≡◌, ◌⊎◌, inl, inr, refl, sym, subst, true, false, Option, none, some, List, arith, Option-cases,
  [],
}
use vaps.Text.{Bytes, same}
use vaps.Int64.{pos, negsuc, ◌≤ℤ◌, ◌<ℤ◌}
use vaps.Config.{Config, Url, normalize, validate, url_accepted, endpoint_accepted}
use vaps.Config.Args.{
  Error, Host, Result, err, ok, parse_cli, resolve_path, resolve_paths, checked_config, with_flags,
  with_file, parse_config_path, from_args_with_base_dir,
}

config-cases : {A : Type 0} (r : Result A) → ((e : Error) × (r ≡ err e)) ⊎ ((a : A) × (r ≡ ok a))
config-cases (err e) = inl (e, refl)
config-cases (ok a) = inr (a, refl)

module _ (parse_url : Bytes → Option Url) where
  -- The sizes and durations of `cfg` are in their bounds, its bucket and region are named and its
  -- endpoint is an http(s) URL without user, query and fragment.
  pub record Valid (cfg : Config) : Type 0 where
    pub cache_bytes : pos 0 ≤ℤ cfg.cache.bytes
    pub max_object_bytes : pos 0 ≤ℤ cfg.cache.max_object_bytes
    pub direct_max_bytes : pos 0 <ℤ cfg.upload.direct_max_bytes
    pub expiration : pos 0 <ℤ cfg.upload.expiration
    pub cleanup_interval : pos 0 <ℤ cfg.upload.cleanup_interval
    pub info_refresh_interval : pos 0 <ℤ cfg.dashboard.info_refresh_interval
    pub workers : negsuc 0 ≤ℤ cfg.metadata.workers
    pub timeout : pos 0 <ℤ cfg.metadata.timeout
    pub progress_interval : pos 0 <ℤ cfg.metadata.progress_interval
    pub bucket : same cfg.storage.s3.bucket [] ≡ false
    pub region : same cfg.storage.s3.region [] ≡ false
    pub url : Url
    pub endpoint : parse_url cfg.storage.s3.endpoint ≡ some url
    pub accepted : url_accepted url ≡ true
    pub max_cache_bytes : pos 0 ≤ℤ cfg.storage.local.max_cache_bytes

  endpoint-url :
      (endpoint : Bytes)
      → endpoint_accepted parse_url endpoint ≡ true
      → (u : Url) × (parse_url endpoint ≡ some u) × (url_accepted u ≡ true)
  unfolding endpoint_accepted
  endpoint-url endpoint h = elim (Option-cases (parse_url endpoint)) [
    | inl e ↦ absurd (ground arith)
    | inr (u, e) ↦ (u, e, ground arith)
  ]

  validate-Valid : (cfg : Config) → validate parse_url cfg ≡ none → Valid cfg
  unfolding validate
  validate-Valid cfg h =
      let (u, e, v) = endpoint-url cfg.storage.s3.endpoint (ground arith) in
      record {
        cache_bytes = ground arith;
        max_object_bytes = ground arith;
        direct_max_bytes = ground arith;
        expiration = ground arith;
        cleanup_interval = ground arith;
        info_refresh_interval = ground arith;
        workers = ground arith;
        timeout = ground arith;
        progress_interval = ground arith;
        bucket = ground arith;
        region = ground arith;
        url = u;
        endpoint = e;
        accepted = v;
        max_cache_bytes = ground arith;
      }

module _ (host : Host) where
  open host use {parse_url, is_abs, join, default_config}

  -- Every path of `cfg` is absolute.
  pub record Located (cfg : Config) : Type 0 where
    pub data_dir : is_abs cfg.data_dir ≡ true
    pub log_dir : is_abs cfg.log_dir ≡ true
    pub metadata_db : is_abs cfg.metadata_db ≡ true
    pub auth_db : is_abs cfg.auth_db ≡ true
    pub upload_db : is_abs cfg.upload_db ≡ true
    pub upload_dir : is_abs cfg.upload.dir ≡ true
    pub local_dir : is_abs cfg.storage.local.dir ≡ true

  checked_config-inv :
      (base_dir : Bytes) (cfg final : Config)
      → checked_config host base_dir cfg ≡ ok final
      → (final ≡ resolve_paths host base_dir (normalize cfg))
        × (validate parse_url (normalize cfg) ≡ none)
  unfolding checked_config
  checked_config-inv base_dir cfg final h =
      elim (Option-cases (validate parse_url (normalize cfg))) [
        | inl e ↦ (ground arith, e)
        | inr (message, e) ↦ absurd (ground arith)
      ]

  with_flags-inv :
      (args : List Bytes) (base_dir path : Bytes) (cfg final : Config)
      → with_flags host args base_dir path cfg ≡ ok final
      → (merged : Config) × (checked_config host base_dir merged ≡ ok final)
  unfolding with_flags
  with_flags-inv args base_dir path cfg final h =
      elim (config-cases (parse_cli host args cfg path)) [
        | inl (e, q) ↦ absurd (ground arith)
        | inr (merged, q) ↦ (merged, ground arith)
      ]

  from_args-inv :
      (args : List Bytes) (base_dir : Bytes) (final : Config)
      → from_args_with_base_dir host args base_dir ≡ ok final
      → (path : Bytes) × (cfg : Config) × (with_flags host args base_dir path cfg ≡ ok final)
  unfolding from_args_with_base_dir
  from_args-inv args base_dir final h = elim (Option-cases default_config) [
    | inl e ↦ absurd (ground arith)
    | inr (defaults, e) ↦ elim (config-cases (parse_config_path args)) [
      | inl (f, q) ↦ absurd (ground arith)
      | inr (path, q) ↦
          let resolved = resolve_path host base_dir path in
          elim (config-cases (with_file host resolved defaults)) [
            | inl (f, g) ↦ absurd (ground arith)
            | inr (cfg, g) ↦ (path, cfg, ground arith)
          ]
    ]
  ]

  resolve_path-absolute :
      (base_dir path : Bytes)
      → ((p : Bytes) → is_abs (join base_dir p) ≡ true)
      → is_abs (resolve_path host base_dir path) ≡ true
  unfolding resolve_path
  resolve_path-absolute base_dir path h = ground (arith, h path)

  resolve_paths-Located :
      (base_dir : Bytes) (cfg : Config)
      → ((p : Bytes) → is_abs (join base_dir p) ≡ true)
      → Located (resolve_paths host base_dir cfg)
  unfolding resolve_paths
  resolve_paths-Located base_dir cfg h = record {
    data_dir = resolve_path-absolute base_dir cfg.data_dir h;
    log_dir = resolve_path-absolute base_dir cfg.log_dir h;
    metadata_db = resolve_path-absolute base_dir cfg.metadata_db h;
    auth_db = resolve_path-absolute base_dir cfg.auth_db h;
    upload_db = resolve_path-absolute base_dir cfg.upload_db h;
    upload_dir = resolve_path-absolute base_dir cfg.upload.dir h;
    local_dir = resolve_path-absolute base_dir cfg.storage.local.dir h;
  }

  -- Resolving the paths keeps the bounds.
  resolve_paths-Valid :
      (base_dir : Bytes) (cfg : Config)
      → Valid parse_url cfg
      → Valid parse_url (resolve_paths host base_dir cfg)
  unfolding resolve_paths
  resolve_paths-Valid base_dir cfg v = record {
    cache_bytes = v.cache_bytes;
    max_object_bytes = v.max_object_bytes;
    direct_max_bytes = v.direct_max_bytes;
    expiration = v.expiration;
    cleanup_interval = v.cleanup_interval;
    info_refresh_interval = v.info_refresh_interval;
    workers = v.workers;
    timeout = v.timeout;
    progress_interval = v.progress_interval;
    bucket = v.bucket;
    region = v.region;
    url = v.url;
    endpoint = v.endpoint;
    accepted = v.accepted;
    max_cache_bytes = v.max_cache_bytes;
  }

  -- A configuration that FromArgsWithBaseDir returns has its sizes and durations in their bounds,
  -- a bucket, a region and an http(s) endpoint without user, query and fragment, and all its paths
  -- are absolute, if joining a path to the base directory gives an absolute path.
  pub from_args_with_base_dir-Valid :
      (args : List Bytes) (base_dir : Bytes) (final : Config)
      → ((p : Bytes) → is_abs (join base_dir p) ≡ true)
      → from_args_with_base_dir host args base_dir ≡ ok final
      → Valid parse_url final × Located final
  from_args_with_base_dir-Valid args base_dir final absolute h =
      let (path, cfg, q) = from_args-inv args base_dir final h in
      let (merged, r) = with_flags-inv args base_dir path cfg final q in
      let (e, v) = checked_config-inv base_dir merged final r in
      let normal = normalize merged in
      (
        subst (Valid parse_url) (sym e)
            (resolve_paths-Valid base_dir normal (validate-Valid parse_url normal v)),
        subst Located (sym e) (resolve_paths-Located base_dir normal absolute),
      )
