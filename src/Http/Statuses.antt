-- ===== src/Http/Statuses.antt =====
-- The status of a response that had none, behind the calls that write to it.
use vaps.Base.{
  ℕ, Bool, true, false, Option, ◌≡◌, none, some, arith, Option-cases, inl, inr, if◌then◌else◌,
}
use vaps.Text.{Bytes, codes}
use vaps.Dict.{remove}
use vaps.Http.{Response, set_header, write_header, write, error}

pub set_header-kept :
    (k v : Bytes) (o : Option ℕ) (w : Response) → w.status ≡ o → (set_header k v w).status ≡ o
unfolding set_header
set_header-kept k v o w e = elim (Option-cases w.status) [
  | inl h ↦ ground arith
  | inr (t, h) ↦ ground arith
]

pub if-kept :
    (c : Bool) (o : Option ℕ) (w x : Response)
    → w.status ≡ o
    → x.status ≡ o
    → (if c then w else x).status ≡ o
if-kept true o w x h k = h
if-kept false o w x h k = k

pub write_header-status :
    (s : ℕ) (w : Response) → w.status ≡ none → (write_header s w).status ≡ some s
unfolding write_header
write_header-status s w h = ground arith

pub write-kept :
    (m : Bytes) (t : ℕ) (w : Response) → w.status ≡ some t → (write m w).status ≡ some t
unfolding write write_header
write-kept m t w h = ground arith

pub ruleset status_rules = (set_header-kept, if-kept, write_header-status, write-kept)

pub error-status :
    (m : Bytes) (c : ℕ) (w : Response) → w.status ≡ none → (error m c w).status ≡ some c
unfolding error
error-status m c w h =
    let cleared = record w { headers = remove (codes "Content-Length") w.headers } in
    let known : cleared.status ≡ none = h in search status_rules
