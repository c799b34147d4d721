-- ===== src/Sources/Laws.antt =====
-- What clients rely on: an issued token resolves, and the activity counts the requests.
use vaps.Base.{
  ℕ, suc, ◌+◌, ◌%◌, ◌^◌, ◌≡◌, refl, sym, ap, ◌∙◌, Bool, false, ◌&&◌, Option, none, some, List, [],
  ◌∷◌, arith, if◌then◌else◌, Bool-cases, Option-cases, inl, inr, All, is_some,
}
use vaps.Text.{Bytes, same, same→eq, same_refl}
use vaps.Int64.{ℤ}
use vaps.Dict.{Dict, lookup, insert, lookup-insert}
use vaps.Bucket.{Bucket}
use vaps.Sources.{
  Token, Store, ok, empty_token, newest_match, refresh_record, read_token, lookup_by_hash, validate,
  store_record, new_token, issue, activity_of, or_idle, observe, encoded,
}

module _ (b : Bucket Token) (hash_token : Bytes → Bytes) (zero_time : ℤ) where
  open b use {Db, get, put, entries, get-put}

  -- A stored record with a token stands under the hash of the token.
  abbrev pub Keyed : Bytes × Token → Type 0
  Keyed (k, v) = same v.token [] ≡ false → k ≡ hash_token v.token

  -- The record is empty, or a client's.
  abbrev Chosen : Bytes → Token → Type 0
  Chosen client_id t =
      same t.token [] ≡ false → (t.hash ≡ hash_token t.token) × (t.client_id ≡ client_id)

  newest_match-Chosen :
      (client_id remote_ip : Bytes) (l : List (Bytes × Token)) (best : Token)
      → All Keyed l
      → Chosen client_id best
      → Chosen client_id (newest_match client_id remote_ip l best)
  unfolding newest_match
  newest_match-Chosen client_id remote_ip [] best a c = c
  newest_match-Chosen client_id remote_ip ((k, v) ∷ l) best a c =
      newest_match-Chosen client_id remote_ip l _ a.1
        (λ n. ground (arith, c, a.0, same→eq v.client_id client_id))

  store_record-found :
      (t : Token) (s s' : Store Db) (token : Bytes)
      → store_record b hash_token zero_time t s ≡ (s', ok token)
      → (token ≡ t.token) × (get t.hash s'.db ≡ some (encoded t))
  unfolding store_record
  store_record-found t s s' token h = elim (Option-cases (put t.hash (encoded t) s.db)) [
    | inl e ↦ absurd (ground arith)
    | inr (d, e) ↦
        (ground arith, ground (arith, get-put t.hash t.hash (encoded t) s.db d e, same_refl t.hash))
  ]

  read_token-stored :
      (hash : Bytes) (t : Token) (s : Store Db)
      → get hash s.db ≡ some t
      → lookup_by_hash b hash_token zero_time hash s ≡ ok (record t { hash = hash })
  unfolding lookup_by_hash read_token
  read_token-stored hash t s e = ground arith

  -- A record that Validate gives for a token.
  pub record Resolved (client_id remote_ip token : Bytes) (s : Store Db) : Type 0 where
    pub entry : Token
    pub resolves : validate b hash_token zero_time token s ≡ ok entry
    pub token_kept : entry.token ≡ token
    pub client : entry.client_id ≡ client_id
    pub address : entry.remote_ip ≡ remote_ip
    pub not_parked : entry.parked_at ≡ none
    pub not_revoked : entry.revoked_at ≡ none

  store_record-Resolved :
      (client_id remote_ip user_agent : Bytes) (client_info : Option (Dict Bytes)) (t : Token)
      → (s s' : Store Db) (token : Bytes) → t.hash ≡ hash_token t.token
      → t.client_id ≡ client_id
      → store_record b hash_token zero_time
          (refresh_record zero_time remote_ip user_agent client_info t)
          s
        ≡ (s', ok token)
      → Resolved client_id remote_ip token s'
  unfolding refresh_record validate
  store_record-Resolved client_id remote_ip user_agent client_info t s s' token k c h =
      let r = refresh_record zero_time remote_ip user_agent client_info t in
      let (e, g) = store_record-found r s s' token h in
      record {
        entry = record (encoded r) { hash = t.hash };
        resolves = rw (e, ← k) (read_token-stored t.hash (encoded r) s' g);
        token_kept = sym e;
        client = c;
        address = refl;
        not_parked = refl;
        not_revoked = refl;
      }

  -- If the stored records stand under the hashes of their tokens, a token that Issue answers
  -- resolves afterwards: Validate gives a record with this token, of the client that asked for it,
  -- with its address, and neither parked nor revoked.
  pub issue-validate :
      (raw : Option Bytes) (now : ℤ) (client_id remote_ip user_agent : Bytes)
      → (client_info : Option (Dict Bytes)) (s s' : Store Db) (token : Bytes)
      → All Keyed (entries s.db)
      → issue b hash_token zero_time raw now client_id remote_ip user_agent client_info s
        ≡ (s', ok token)
      → Resolved client_id remote_ip token s'
  unfolding issue
  issue-validate raw now client_id remote_ip user_agent client_info s s' token a h =
      let found = newest_match client_id remote_ip (entries s.db) (empty_token zero_time) in
      let chosen =
        newest_match-Chosen client_id remote_ip (entries s.db) (empty_token zero_time) a
          (λ n. absurd (unfold same in ground arith)) in
      elim (Bool-cases (same found.token [])) [
        | inr n ↦
            store_record-Resolved client_id remote_ip user_agent client_info found s s' token
              (chosen n).0 (chosen n).1 (ground arith)
        | inl n ↦ elim (Option-cases raw) [
          | inl e ↦ absurd (ground arith)
          | inr (fresh, e) ↦
              store_record-Resolved client_id remote_ip user_agent client_info
                (new_token b hash_token zero_time fresh client_id now) s s' token refl refl
                (ground arith)
        ]
      ]

  observe-known :
      (now : ℤ) (hash remote_ip user_agent : Bytes) (s : Store Db) (t : Token)
      → get hash s.db ≡ some t
      → (observe b hash_token zero_time now hash remote_ip user_agent s).0 ≡ record s {
        activity =
            insert hash
              (record {
                last_seen_at = some now;
                request_count = ((activity_of hash s.activity).request_count + 1) % 2 ^ 64;
                remote_ip = remote_ip;
                user_agent = user_agent;
              })
              s.activity;
      }
  unfolding observe read_token
  observe-known now hash remote_ip user_agent s t e = ground arith

  observe-unknown :
      (now : ℤ) (hash remote_ip user_agent : Bytes) (s : Store Db)
      → get hash s.db ≡ none
      → (observe b hash_token zero_time now hash remote_ip user_agent s).0 ≡ s
  unfolding observe read_token
  observe-unknown now hash remote_ip user_agent s e = ground arith

  abbrev pub requests : Bytes → Store Db → ℕ
  requests hash s = (activity_of hash s.activity).request_count

  -- Observed requests, of any sources, by their hashes.
  unfoldable pub observe_all : List (ℤ × Bytes × Bytes × Bytes) → Store Db → Store Db
  observe_all [] s = s
  observe_all ((now, hash, remote_ip, user_agent) ∷ es) s =
      observe_all es (observe b hash_token zero_time now hash remote_ip user_agent s).0

  abbrev pub seen : Bytes → List (ℤ × Bytes × Bytes × Bytes) → ℕ
  seen k [] = 0
  seen k ((now, hash, remote_ip, user_agent) ∷ es) =
      if same hash k then suc (seen k es) else seen k es

  abbrev pub known : Bytes → Store Db → Bool
  known k s = is_some (get k s.db)

  -- One request counts for its own source if that is registered, and changes no record.
  observe-requests :
      (k : Bytes) (now : ℤ) (hash remote_ip user_agent : Bytes) (s : Store Db)
      → let s' = (observe b hash_token zero_time now hash remote_ip user_agent s).0 in
        (s'.db ≡ s.db)
        × (requests k s'
            ≡ (if same hash k && known k s then (requests k s + 1) % 2 ^ 64 else requests k s))
  observe-requests k now hash remote_ip user_agent s = elim (Option-cases (get hash s.db)) [
    | inl e ↦
        rw (observe-unknown now hash remote_ip user_agent s e)
          (refl, ground (arith, same→eq hash k))
    | inr (t, e) ↦ rw (observe-known now hash remote_ip user_agent s t e) (
      refl,
      ap (λ o. (or_idle o).request_count) (lookup-insert k hash _ s.activity)
          ∙ ground (arith, same→eq hash k),
    )
  ]

  observe_all-counts :
      (k : Bytes) (es : List (ℤ × Bytes × Bytes × Bytes)) (s : Store Db) (a : ℕ)
      → requests k s ≡ (if known k s then a % 2 ^ 64 else 0)
      → ((observe_all es s).db ≡ s.db)
        × (requests k (observe_all es s) ≡ (if known k s then (a + seen k es) % 2 ^ 64 else 0))
  unfolding observe_all
  observe_all-counts k [] s a h = (refl, ground (arith, h))
  observe_all-counts k ((now, hash, remote_ip, user_agent) ∷ es) s a h =
      let s' = (observe b hash_token zero_time now hash remote_ip user_agent s).0 in
      let (e, c) = observe-requests k now hash remote_ip user_agent s in
      let (f, r) =
        observe_all-counts k es s' (if same hash k then a + 1 else a)
          (c ∙ rw e (ground (arith, h))) in
      (f ∙ e, r ∙ rw e (ground arith))

  -- From a start with no activity, the activity of a registered source counts its observed
  -- requests modulo 2^64, among the requests of any sources in any order; an unregistered source
  -- has none, and observing changes no record.
  pub observe_all-requests :
      (k : Bytes) (es : List (ℤ × Bytes × Bytes × Bytes)) (d : Db)
      → let s : Store Db = record { db = d; activity = [] } in
        ((observe_all es s).db ≡ d)
        × (requests k (observe_all es s) ≡ (if known k s then seen k es % 2 ^ 64 else 0))
  observe_all-requests k es d =
      let (e, c) =
        observe_all-counts k es (record { db = d; activity = [] }) 0
          (unfold lookup in ground arith) in
      (e, c ∙ ground arith)
