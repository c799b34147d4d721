-- ===== src/Config.antt =====
-- internal/appconfig/config.go: the configuration, its normal form and its checks.
pub mod Args
use vaps.Base.{
  ℕ, Bool, true, false, not, ◌&&◌, ◌||◌, Option, none, some, List, [], ◌∷◌, if◌then◌else◌, ◌==◌,
}
use vaps.Text.{Bytes, same, codes, trim_space, to_lower}
use vaps.Int64.{ℤ, pos, negsuc, lt_ℤ, le_ℤ}

pub record MetadataConfig : Type 0 where
  pub workers : ℤ
  pub timeout : ℤ
  pub progress_interval : ℤ

pub record UploadConfig : Type 0 where
  pub direct_max_bytes : ℤ
  pub expiration : ℤ
  pub cleanup_interval : ℤ
  pub dir : Bytes

pub record CacheConfig : Type 0 where
  pub bytes : ℤ
  pub max_object_bytes : ℤ

pub record AuthConfig : Type 0 where
  pub expire_time : ℤ

pub record DashboardConfig : Type 0 where
  pub info_refresh_interval : ℤ

pub record S3StorageConfig : Type 0 where
  pub bucket : Bytes
  pub region : Bytes
  pub endpoint : Bytes
  pub prefix : Bytes
  pub force_path_style : Bool

pub record LocalStorageConfig : Type 0 where
  pub dir : Bytes
  pub max_cache_bytes : ℤ

pub record StorageConfig : Type 0 where
  pub s3 : S3StorageConfig
  pub local : LocalStorageConfig

pub record Config : Type 0 where
  pub addr : Bytes
  pub data_dir : Bytes
  pub metadata_db : Bytes
  pub auth_db : Bytes
  pub upload_db : Bytes
  pub log_dir : Bytes
  pub log_retention_days : ℤ
  pub status_log_interval : ℤ
  pub metadata : MetadataConfig
  pub cache : CacheConfig
  pub auth : AuthConfig
  pub upload : UploadConfig
  pub dashboard : DashboardConfig
  pub storage : StorageConfig

-- What url.Parse gives, as far as it is read.
pub record Url : Type 0 where
  pub scheme : Bytes
  pub hostname : Bytes
  pub has_user : Bool
  pub raw_query : Bytes
  pub fragment : Bytes

-- strings.Trim with "/"
unfoldable trim_slashes_left : Bytes → Bytes
trim_slashes_left [] = []
trim_slashes_left (c ∷ s) = let rest = trim_slashes_left s in if c == b'/' then rest else c ∷ s

unfoldable keep_unless_slash : ℕ → Bytes → Bytes
keep_unless_slash c [] = if c == b'/' then [] else c ∷ []
keep_unless_slash c (d ∷ r) = c ∷ d ∷ r

unfoldable trim_slashes_right : Bytes → Bytes
unfolding keep_unless_slash
trim_slashes_right [] = []
trim_slashes_right (c ∷ s) = keep_unless_slash c (trim_slashes_right s)

unfoldable trim_slashes : Bytes → Bytes
unfolding trim_slashes_left trim_slashes_right
trim_slashes s = trim_slashes_right (trim_slashes_left s)

-- normalize
unfoldable pub normalize : Config → Config
unfolding trim_slashes trim_space
normalize cfg =
    let s3 = cfg.storage.s3 in
    let trimmed = record s3 {
      bucket = trim_space s3.bucket;
      region = trim_space s3.region;
      endpoint = trim_space s3.endpoint;
      prefix = trim_slashes s3.prefix;
    } in
    record cfg { storage = record cfg.storage { s3 = trimmed } }

-- strings.EqualFold with a text of ASCII letters
unfoldable equal_fold : Bytes → Bytes → Bool
unfolding to_lower
equal_fold s t = same (to_lower s) (to_lower t)

-- The conditions on the parsed endpoint
unfoldable pub url_accepted : Url → Bool
unfolding equal_fold
url_accepted u =
    (equal_fold u.scheme (codes "http") || equal_fold u.scheme (codes "https"))
    && not (same u.hostname [])
    && not u.has_user
    && same u.raw_query []
    && same u.fragment []

module _ (parse_url : Bytes → Option Url) where
  unfoldable pub endpoint_accepted : Bytes → Bool
  endpoint_accepted endpoint = elim (parse_url endpoint) [ none ↦ false | some u ↦ url_accepted u ]

  -- validate; none is nil, some is the text of the error.
  unfoldable pub validate : Config → Option Bytes
  validate cfg =
      if lt_ℤ cfg.cache.bytes (pos 0)
      then some (codes "cache-bytes must not be negative")
      else if lt_ℤ cfg.cache.max_object_bytes (pos 0)
      then some (codes "cache-max-object-bytes must not be negative")
      else if le_ℤ cfg.upload.direct_max_bytes (pos 0)
      then some (codes "upload-direct-max-bytes must be positive")
      else if le_ℤ cfg.upload.expiration (pos 0)
      then some (codes "upload-expiration must be positive")
      else if le_ℤ cfg.upload.cleanup_interval (pos 0)
      then some (codes "upload-cleanup-interval must be positive")
      else if le_ℤ cfg.dashboard.info_refresh_interval (pos 0)
      then some (codes "dashboard-info-refresh-interval must be positive")
      else if lt_ℤ cfg.metadata.workers (negsuc 0)
      then some (codes "metadata-workers must be -1 or non-negative")
      else if le_ℤ cfg.metadata.timeout (pos 0)
      then some (codes "metadata-timeout must be positive")
      else if le_ℤ cfg.metadata.progress_interval (pos 0)
      then some (codes "metadata-progress-interval must be positive")
      else if same cfg.storage.s3.bucket []
      then some (codes "storage-s3-bucket is required")
      else if same cfg.storage.s3.region []
      then some (codes "storage-s3-region is required")
      else if same cfg.storage.s3.endpoint []
      then some (codes "storage-s3-endpoint is required")
      else if not (endpoint_accepted cfg.storage.s3.endpoint)
      then some (codes "storage-s3-endpoint must be a valid http(s) URL")
      else if same cfg.storage.local.dir []
      then some (codes "storage-local-dir is required")
      else if lt_ℤ cfg.storage.local.max_cache_bytes (pos 0)
      then some (codes "storage-local-max-cache-bytes must not be negative")
      else none
