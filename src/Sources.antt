-- ===== src/Sources.antt =====
-- internal/auth/store.go: the registrations of clients. Their records are in a bucket of the database,
-- the activity of the running process is in memory. Times are nanoseconds.
pub mod Laws
use vaps.Base.{
  ℕ, ◌+◌, ◌%◌, ◌^◌, Bool, true, false, ◌&&◌, ◌||◌, not, Option, none, some, List, [], ◌∷◌, length,
  ◌==◌, if◌then◌else◌, map,
}
use vaps.Text.{Bytes, same, to_lower, trim_space, trim_prefix, codes}
use vaps.Int64.{ℤ, pos, lt_ℤ}
use vaps.Dict.{Dict, lookup, insert}
use vaps.Bucket.{Bucket}
use vaps.Sorting.{sort_stable}

pub record Activity : Type 0 where
  pub last_seen_at : Option ℤ
  pub request_count : ℕ
  pub remote_ip : Bytes
  pub user_agent : Bytes

abbrev pub no_activity : Activity
no_activity = record { last_seen_at = none; request_count = 0; remote_ip = []; user_agent = [] }

pub record Token : Type 0 where
  pub hash : Bytes
  pub token : Bytes
  pub client_id : Bytes
  pub remote_ip : Bytes
  pub user_agent : Bytes
  pub client_info : Option (Dict Bytes)
  pub created_at : ℤ
  pub expires_at : ℤ
  pub parked_at : Option ℤ
  pub revoked_at : Option ℤ
  pub activity : Activity

pub record Stats : Type 0 where
  pub total_count : ℕ
  pub tracked_count : ℕ
  pub active_count : ℕ

pub data Error : Type 0 where
  not_found database random : Error

pub data Result {ℓ} (A : Type ℓ) : Type ℓ where
  ok : A → Result A
  err : Error → Result A

pub record Store (Db : Type 0) : Type 0 where
  pub db : Db
  pub activity : Dict Activity

-- strings.TrimSuffix(s, "]")
unfoldable pub trim_bracket : Bytes → Bytes
trim_bracket [] = []
trim_bracket (c ∷ []) = if c == b']' then [] else c ∷ []
trim_bracket (c ∷ d ∷ s) = c ∷ trim_bracket (d ∷ s)

-- normalizeClientIP
unfoldable pub normalize_client_ip : Bytes → Bytes
unfolding trim_bracket
normalize_client_ip ip =
    let plain = trim_bracket (trim_prefix (trim_space ip) (codes "[")) in
    let lower = to_lower plain in
    if same lower (codes "localhost")
      || same lower (codes "::1")
      || same lower (codes "127.0.0.1")
      || same lower (codes "::ffff:127.0.0.1")
    then codes "localhost"
    else plain

-- sameClientIP
unfoldable pub same_client_ip : Bytes → Bytes → Bool
unfolding normalize_client_ip
same_client_ip a b = same (normalize_client_ip a) (normalize_client_ip b)

-- What the JSON of a record keeps: the hash and the activity are left out.
abbrev pub encoded : Token → Token
encoded t = record t { hash = []; activity = no_activity }

-- var record Token, with the zero time given
abbrev pub empty_token : ℤ → Token
empty_token zero_time = record {
  hash = [];
  token = [];
  client_id = [];
  remote_ip = [];
  user_agent = [];
  client_info = none;
  created_at = zero_time;
  expires_at = zero_time;
  parked_at = none;
  revoked_at = none;
  activity = no_activity;
}

-- The loop of Issue over the stored records.
unfoldable pub newest_match : Bytes → Bytes → List (Bytes × Token) → Token → Token
unfolding same_client_ip
newest_match client_id remote_ip [] best = best
newest_match client_id remote_ip ((k, v) ∷ rest) best = newest_match client_id remote_ip rest (
    if same v.client_id client_id
      && same_client_ip v.remote_ip remote_ip
      && not (same v.token [])
      && (same best.token [] || lt_ℤ best.created_at v.created_at)
    then record v { hash = k }
    else best)

-- What Issue writes into the record it found or made.
unfoldable pub refresh_record : ℤ → Bytes → Bytes → Option (Dict Bytes) → Token → Token
refresh_record zero_time remote_ip user_agent client_info t = record t {
  remote_ip = remote_ip;
  user_agent = if same user_agent [] then t.user_agent else user_agent;
  client_info = elim client_info [ none ↦ t.client_info | some info ↦ some info ];
  expires_at = zero_time;
  parked_at = none;
  revoked_at = none;
}

abbrev pub or_idle : Option Activity → Activity
or_idle none = no_activity
or_idle (some a) = a

-- s.activity[hash], with its zero value
abbrev pub activity_of : Bytes → Dict Activity → Activity
activity_of hash m = or_idle (lookup hash m)

-- `hash_token` is HashToken: SHA-256 in hexadecimal.
module _ (b : Bucket Token) (hash_token : Bytes → Bytes) (zero_time : ℤ) where
  open b use {Db, get, put, entries}

  -- readToken
  unfoldable pub read_token : Bytes → Db → Result Token
  read_token hash d = elim (get hash d) [
    | none ↦ err not_found
    | some t ↦ ok (record t { hash = hash })
  ]

  -- LookupByHash
  unfoldable pub lookup_by_hash : Bytes → Store Db → Result Token
  unfolding read_token
  lookup_by_hash hash s = read_token hash s.db

  -- Validate
  unfoldable pub validate : Bytes → Store Db → Result Token
  unfolding lookup_by_hash
  validate token s = lookup_by_hash (hash_token token) s

  -- The end of Issue's transaction: the record is stored, and its token answered.
  unfoldable pub store_record : Token → Store Db → Store Db × Result Bytes
  store_record t s = elim (put t.hash (encoded t) s.db) [
    | none ↦ (s, err database)
    | some d ↦ (record s { db = d }, ok t.token)
  ]

  -- A record for a new token.
  abbrev pub new_token : Bytes → Bytes → ℤ → Token
  new_token token client_id now = record (empty_token zero_time) {
    hash = hash_token token;
    token = token;
    client_id = client_id;
    created_at = now;
  }

  -- Issue; `raw` is the hexadecimal text of what rand.Read gives, none its error.
  unfoldable pub issue :
      Option Bytes
      → ℤ
      → Bytes
      → Bytes
      → Bytes
      → Option (Dict Bytes)
      → Store Db
      → Store Db × Result Bytes
  unfolding newest_match refresh_record store_record
  issue raw now client_id remote_ip user_agent client_info s =
      let found = newest_match client_id remote_ip (entries s.db) (empty_token zero_time) in
      if not (same found.token [])
      then store_record (refresh_record zero_time remote_ip user_agent client_info found) s
      else (elim raw [
        | none ↦ (s, err random)
        | some token ↦
            store_record
              (refresh_record zero_time remote_ip user_agent client_info
                (new_token token client_id now))
              s
      ])

  -- Observe
  unfoldable pub observe : ℤ → Bytes → Bytes → Bytes → Store Db → Store Db × Result Token
  unfolding read_token insert
  observe now hash remote_ip user_agent s = elim (read_token hash s.db) [
    | err e ↦ (s, err e)
    | ok t ↦
        let a : Activity = record {
          last_seen_at = some now;
          request_count = ((activity_of hash s.activity).request_count + 1) % 2 ^ 64;
          remote_ip = remote_ip;
          user_agent = user_agent;
        } in
        (record s { activity = insert hash a s.activity }, ok (record t { activity = a }))
  ]

  -- DeleteAll; `fresh` is the database with an empty bucket, none an error.
  unfoldable pub delete_all : Option Db → Store Db → Store Db × Result ℕ
  delete_all fresh s = elim fresh [
    | none ↦ (s, err database)
    | some d ↦ (record { db = d; activity = [] }, ok (length (entries s.db)))
  ]

  -- The order of ListAll; entries of one time may come in any order there, here they stay.
  abbrev newer : Token → Token → Bool
  newer s t = lt_ℤ t.created_at s.created_at

  -- ListAll
  unfoldable pub list_all : Store Db → List Token
  list_all s =
      sort_stable newer
        (map (λ e. record e.1 { hash = e.0; activity = activity_of e.0 s.activity }) (entries s.db))

  -- Stats; the other counters stay 0.
  unfoldable pub stats : Store Db → Stats
  unfolding list_all
  stats s =
      let n = length (list_all s) in record { total_count = n; tracked_count = n; active_count = n }
