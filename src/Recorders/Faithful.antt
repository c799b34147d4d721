-- ===== src/Recorders/Faithful.antt =====
-- Writers whose calls follow those of the response inside.
use vaps.Base.{
  ℕ, ◌≡◌, true, Option, none, some, is_some, List, [], ◌∷◌, ◌++◌, if◌then◌else◌, arith,
  Option-cases, inl, inr,
}
use vaps.Text.{Bytes}
use vaps.Http.{Response, set_header, write_header, write}
use vaps.Recorders.{Writer, Call, header, status, content, call_on, serve, response_writer}

abbrev pub or_ok : Option ℕ → ℕ
or_ok none = 200
or_ok (some s) = s

pub set_header-fields :
    (k v : Bytes) (w : Response)
    → ((set_header k v w).status ≡ w.status) × ((set_header k v w).body ≡ w.body)
unfolding set_header
set_header-fields k v w = elim (Option-cases w.status) [
  | inl h ↦ (ground arith, ground arith)
  | inr (t, h) ↦ (ground arith, ground arith)
]

pub write-after_header : (b : Bytes) (w : Response) → write b (write_header 200 w) ≡ write b w
unfolding write write_header
write-after_header b w = elim (Option-cases w.status) [
  | inl h ↦ ground arith
  | inr (t, h) ↦ ground arith
]

pub write-fields :
    (b : Bytes) (w : Response)
    → ((write b w).body ≡ w.body ++ b) × ((write b w).status ≡ some (or_ok w.status))
unfolding write write_header
write-fields b w = elim (Option-cases w.status) [ inl h ↦ ground arith | inr (t, h) ↦ ground arith ]

pub write_header-fields :
    (s : ℕ) (w : Response)
    → ((write_header s w).body ≡ w.body)
      × ((write_header s w).status ≡ (if is_some w.status then w.status else some s))
unfolding write_header
write_header-fields s w = elim (Option-cases w.status) [
  | inl h ↦ ground arith
  | inr (t, h) ↦ ground arith
]

pub write_header-again : (s : ℕ) (w : Response) → is_some w.status ≡ true → write_header s w ≡ w
unfolding write_header
write_header-again s w h = ground (arith, Option-cases w.status)

-- A relation between a writer's state and the response that its calls keep.
pub record Faithful {W : Type 0} (r : Writer W) (R : W → Response → Type 0) : Type 0 where
  pub header : (k v : Bytes) (w : W) (x : Response) → R w x → R (r.header k v w) (set_header k v x)
  pub status : (s : ℕ) (w : W) (x : Response) → R w x → R (r.status s w) (write_header s x)
  pub content : (b : Bytes) (w : W) (x : Response) → R w x → R (r.content b w) (write b x)

pub serve-Faithful :
    {W : Type 0} (r : Writer W) (R : W → Response → Type 0)
    → Faithful r R
    → (cs : List Call) (w : W) (x : Response) → R w x
    → R (serve r cs w) (serve response_writer cs x)
unfolding serve call_on
serve-Faithful r R f [] w x h = h
serve-Faithful r R f (header k v ∷ cs) w x h = serve-Faithful r R f cs _ _ (f.header k v w x h)
serve-Faithful r R f (status s ∷ cs) w x h = serve-Faithful r R f cs _ _ (f.status s w x h)
serve-Faithful r R f (content b ∷ cs) w x h = serve-Faithful r R f cs _ _ (f.content b w x h)
