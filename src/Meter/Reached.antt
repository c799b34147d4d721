-- ===== src/Meter/Reached.antt =====
-- The meter of a running server: requests begin and end in any interleaving.
use vaps.Base.{
  ℕ, suc, ◌+◌, ◌-◌, ◌<◌, ◌≤◌, ◌^◌, ◌≡◌, refl, sym, ap, subst, map, drop, ◌∙◌, ◌&&◌, List, [], ◌∷◌,
  ◌++◌, length, length-append, length-drop, ltb, if◌then◌else◌, arith, Bool-cases, inl, inr,
}
use vaps.Paging.{drop-drop, drop-append_left}
use vaps.Int64.{ℤ, pos, negsuc, add64, lt_ℤ, le_ℤ}
use vaps.Int64.Laws.{add64-pos}
use vaps.Meter.{Sample, Meter, new_meter, begin, finish, count_status, add_latency}

-- The meters of a server on which `b` requests have begun and those of `done` have ended, the last one
-- at the end.
pub data Reached : ℕ → List Sample → Meter → Type 0 where
  start : Reached 0 [] new_meter
  begun :
      (b : ℕ) (done : List Sample) (m : Meter) → Reached b done m → Reached (suc b) done (begin m)
  ended :
      (b : ℕ) (done : List Sample) (m : Meter) (now : ℕ) (s : Sample)
      → length done < b
      → Reached b done m
      → Reached b (done ++ (s ∷ [])) (finish now s m)

-- The duration of a request, 0 for a negative one.
abbrev pub latency : Sample → ℤ
latency s = if lt_ℤ s.duration (pos 0) then pos 0 else s.duration

abbrev pub durations : List Sample → List ℤ
durations = map latency

-- Each ended request is counted in one class.
pub record Classed (e : ℕ) (m : Meter) : Type 0 where
  pub oks : ℕ
  pub clients : ℕ
  pub servers : ℕ
  pub others : ℕ
  pub ok : m.ok ≡ pos oks
  pub client : m.client ≡ pos clients
  pub server : m.server ≡ pos servers
  pub other : m.other ≡ pos others
  pub classes : oks + clients + servers + others ≡ e

-- The active requests are those begun and not ended; the ended ones are counted, and the latencies are
-- the durations of the last 2048 of them, in order.
pub record Balanced (b : ℕ) (done : List Sample) (m : Meter) : Type 0 where
  pub fewer : length done ≤ b
  pub active : m.active ≡ pos (b - length done)
  pub count : m.count ≡ pos (length done)
  pub classed : Classed (length done) m
  pub samples : m.latencies ≡ drop (length done - 2048) (durations done)

add64-dec : (n : ℕ) → 0 < n → n < 2 ^ 63 → add64 (pos n) (negsuc 0) ≡ pos (n - 1)
unfolding add64
add64-dec n h k = ground arith

Classed-same :
    (e : ℕ) (m n : Meter)
    → (n.ok ≡ m.ok)
    → (n.client ≡ m.client)
    → (n.server ≡ m.server)
    → (n.other ≡ m.other)
    → Classed e m
    → Classed e n
Classed-same e m n o c s t k = record {
  oks = k.oks;
  clients = k.clients;
  servers = k.servers;
  others = k.others;
  ok = o ∙ k.ok;
  client = c ∙ k.client;
  server = s ∙ k.server;
  other = t ∙ k.other;
  classes = k.classes;
}

begin-Balanced :
    (b : ℕ) (done : List Sample) (m : Meter)
    → suc b < 2 ^ 63
    → Balanced b done m
    → Balanced (suc b) done (begin m)
unfolding begin
begin-Balanced b done m h k = record {
  fewer = ground arith;
  active = ground (arith, add64-pos (b - length done) 1 (ground arith), k.fewer);
  count = k.count;
  classed = Classed-same (length done) m (begin m) refl refl refl refl k.classed;
  samples = k.samples;
}

length-snoc : {A : Type 0} (xs : List A) (x : A) → length (xs ++ (x ∷ [])) ≡ suc (length xs)
length-snoc xs x = omega (arith, length-append xs (x ∷ []))

length-durations : (done : List Sample) → length (durations done) ≡ length done
length-durations [] = refl
length-durations (s ∷ done) = ap suc (length-durations done)

durations-snoc :
    (done : List Sample) (s : Sample)
    → durations (done ++ (s ∷ [])) ≡ durations done ++ durations (s ∷ [])
durations-snoc [] s = refl
durations-snoc (t ∷ done) s = ap (◌∷◌ (latency t)) (durations-snoc done s)

-- Behind one more entry, the last 2048.
last-snoc :
    (x : ℤ) (l : List ℤ) (n : ℕ)
    → length l ≡ n
    → (let grown = drop (n - 2048) l ++ (x ∷ []) in
        if ltb 2048 (length grown) then drop (length grown - 2048) grown else grown)
      ≡ drop (suc n - 2048) (l ++ (x ∷ []))
last-snoc x l n h =
    let tail = sym (drop-append_left (n - 2048) l (x ∷ []) (omega (arith, h))) in
    let size : length (drop (n - 2048) (l ++ (x ∷ []))) ≡ suc n - (n - 2048) =
      omega (arith, h, length-drop (n - 2048) (l ++ (x ∷ [])), length-snoc l x) in
    rw (tail, size)
      (elim (Bool-cases (ltb 2048 (suc n - (n - 2048)))) [
        | inl over ↦ rw over (
            drop-drop (suc n - (n - 2048) - 2048) (n - 2048) (l ++ (x ∷ []))
            ∙ ap (λ k. drop k (l ++ (x ∷ []))) (ground arith))
        | inr fits ↦ rw fits (ap (λ k. drop k (l ++ (x ∷ []))) (ground arith))
      ])

add_latency-last :
    (s : Sample) (done : List Sample)
    → add_latency s.duration (drop (length done - 2048) (durations done))
      ≡ drop (suc (length done) - 2048) (durations (done ++ (s ∷ [])))
unfolding add_latency
add_latency-last s done =
    last-snoc _ (durations done) (length done) (length-durations done)
    ∙ ap (drop (suc (length done) - 2048)) (sym (durations-snoc done s))

count_status-Classed :
    (e : ℕ) (s : ℤ) (m : Meter) → suc e < 2 ^ 63 → Classed e m → Classed (suc e) (count_status s m)
unfolding count_status
count_status-Classed e s m h k = elim (Bool-cases (le_ℤ (pos 500) s)) [
  | inl p ↦ (record {
    oks = k.oks;
    clients = k.clients;
    servers = suc k.servers;
    others = k.others;
    ok = ground (arith, k.ok);
    client = ground (arith, k.client);
    server = ground (arith, k.server, add64-pos k.servers 1 (ground (arith, k.classes)));
    other = ground (arith, k.other);
    classes = ground (arith, k.classes);
  })
  | inr p ↦ elim (Bool-cases (le_ℤ (pos 400) s)) [
    | inl q ↦ (record {
      oks = k.oks;
      clients = suc k.clients;
      servers = k.servers;
      others = k.others;
      ok = ground (arith, k.ok);
      client = ground (arith, k.client, add64-pos k.clients 1 (ground (arith, k.classes)));
      server = ground (arith, k.server);
      other = ground (arith, k.other);
      classes = ground (arith, k.classes);
    })
    | inr q ↦ elim (Bool-cases (le_ℤ (pos 200) s && lt_ℤ s (pos 400))) [
      | inl r ↦ (record {
        oks = suc k.oks;
        clients = k.clients;
        servers = k.servers;
        others = k.others;
        ok = ground (arith, k.ok, add64-pos k.oks 1 (ground (arith, k.classes)));
        client = ground (arith, k.client);
        server = ground (arith, k.server);
        other = ground (arith, k.other);
        classes = ground (arith, k.classes);
      })
      | inr r ↦ (record {
        oks = k.oks;
        clients = k.clients;
        servers = k.servers;
        others = suc k.others;
        ok = ground (arith, k.ok);
        client = ground (arith, k.client);
        server = ground (arith, k.server);
        other = ground (arith, k.other, add64-pos k.others 1 (ground (arith, k.classes)));
        classes = ground (arith, k.classes);
      })
    ]
  ]
]

-- The other counters do not depend on the class.
count_status-rest :
    (s : ℤ) (m : Meter)
    → ((count_status s m).active ≡ m.active) × ((count_status s m).count ≡ m.count)
unfolding count_status
count_status-rest s m = ground (
  arith,
  Bool-cases (le_ℤ (pos 500) s),
  Bool-cases (le_ℤ (pos 400) s),
  Bool-cases (le_ℤ (pos 200) s && lt_ℤ s (pos 400)),
)

finish-Balanced :
    (b : ℕ) (done : List Sample) (now : ℕ) (s : Sample) (m : Meter)
    → b < 2 ^ 63
    → length done < b
    → Balanced b done m
    → Balanced b (done ++ (s ∷ [])) (finish now s m)
unfolding finish
finish-Balanced b done now s m h l k =
    let e = length done in
    let more = length-snoc done s in
    let ended = record m {
      active = add64 m.active (negsuc 0);
      count = add64 m.count (pos 1);
      bytes_in = add64 m.bytes_in s.bytes_in;
      bytes_out = add64 m.bytes_out s.bytes_out;
    } in
    let (active, count) = count_status-rest s.status ended in
    let c =
      count_status-Classed e s.status ended (ground arith)
        (Classed-same e m ended refl refl refl refl k.classed) in
    record {
      fewer = omega (arith, more, l);
      active =
          active ∙ ground (arith, k.active, add64-dec (b - e) (ground arith) (ground arith), more);
      count = count ∙ ground (arith, k.count, add64-pos e 1 (ground arith), more);
      classed =
          subst (λ n. Classed n (finish now s m)) (sym more)
            (Classed-same (suc e) (count_status s.status ended) (finish now s m) refl refl refl refl
              c);
      samples =
          ap (add_latency s.duration) k.samples
          ∙ add_latency-last s done
          ∙ ap (λ n. drop (n - 2048) (durations (done ++ (s ∷ [])))) (sym more);
    }

-- In every interleaving of requests that begin and end, with fewer than 2^63 of them, the active
-- ones are those begun and not ended, each ended one is counted, and in exactly one of the four
-- classes, and the latencies are the durations, 0 for a negative one, of the last 2048 that ended,
-- in their order.
pub Reached-Balanced :
    (b : ℕ) (done : List Sample) (m : Meter) → Reached b done m → b < 2 ^ 63 → Balanced b done m
Reached-Balanced b done m start h = record {
  fewer = ground arith;
  active = refl;
  count = refl;
  classed = record {
    oks = 0;
    clients = 0;
    servers = 0;
    others = 0;
    ok = refl;
    client = refl;
    server = refl;
    other = refl;
    classes = refl;
  };
  samples = refl;
}
Reached-Balanced b done m (begun c l n r) h =
    begin-Balanced c l n h (Reached-Balanced c l n r (omega arith))
Reached-Balanced b done m (ended c d n now s l r) h =
    finish-Balanced c d now s n h l (Reached-Balanced c d n r h)
