-- ===== src/Logreader/Pages.antt =====
-- The pages of sessions and of lines that are answered.
use vaps.Base.{
  ◌≡◌, ◌↔◌, ◌⊎◌, [], refl, sym, true, false, List, length, select, leb, arith, Bool-cases, inl, inr,
}
use mathlib.Core.List.{Perm}
use vaps.Text.{same, same→eq, same_refl, codes, to_lower, trim_space, contains}
use vaps.Int64.{ℤ, ◌≤ℤ◌}
use vaps.Paging.{page_of, sub_list-page, drop_all, take-nil, Asked, asked}
use vaps.Sorting.{sort_stable, Chain, Ordered-Chain, sort_stable-Ordered, sort_stable-perm}
use vaps.Logreader.{Session, Query, Result, Scan, page, list_sessions, session_matches, later_first}

-- An answer is the page of a list of all hits that `limit` and `offset` ask for.
pub record Page {ℓ} {A : Type ℓ} (limit offset : ℤ) (hits : List A) (r : Result A) : Type ℓ where
  pub items : r.items ≡ page_of r.limit r.offset hits
  pub total : r.total ≡ length hits
  pub asked_for : Asked limit offset r.limit r.offset

page_items :
    {A : Type 0} (hits : List A) (limit offset : ℤ)
    → (page hits limit offset).items
      ≡ page_of (page hits limit offset).limit (page hits limit offset).offset hits
unfolding page
page_items hits limit offset =
    elim (Bool-cases (leb (length hits) (page hits limit offset).offset)) [
      | inl past ↦
          rw (past, drop_all (page hits limit offset).offset hits (ground arith))
            (sym (take-nil (page hits limit offset).limit))
      | inr inside ↦ rw inside (
          sub_list-page (page hits limit offset).limit (page hits limit offset).offset hits
            (ground arith))
    ]

pub page-Page :
    {A : Type 0} (hits : List A) (limit offset : ℤ)
    → Page limit offset hits (page hits limit offset)
page-Page hits limit offset = record {
  items = page_items hits limit offset;
  total = unfold page in refl;
  asked_for = unfold page in asked limit offset;
}

later_first_asym : (a b : Session) → later_first a b ≡ true → later_first b a ≡ false
unfolding later_first
later_first_asym a b h = ground arith

-- `a` started no earlier than `b`.
abbrev pub NoEarlier : Session → Session → Type 0
NoEarlier a b = b.started_at ≤ℤ a.started_at

later_first-NoEarlier : (a b : Session) → later_first b a ≡ false → NoEarlier a b
unfolding later_first
later_first-NoEarlier a b h = ground arith

-- The session `s` is one that the query asks for: it has the status, unless that is empty or "all", and
-- the text to search for is in its identifier.
pub record Wanted (q : Query) (s : Session) : Type 0 where
  pub status :
      (same (to_lower (trim_space q.status)) [] ≡ true)
      ⊎ ((to_lower (trim_space q.status) ≡ codes "all")
          ⊎ (s.status ≡ to_lower (trim_space q.status)))
  pub search :
      (same (to_lower (trim_space q.search)) [] ≡ true)
      ⊎ (contains (to_lower s.id) (to_lower (trim_space q.search)) ≡ true)

session_matches-Wanted : (q : Query) (s : Session) → (session_matches q s ≡ true) ↔ Wanted q s
unfolding session_matches
session_matches-Wanted q s =
    let status = to_lower (trim_space q.status) in
    let search = to_lower (trim_space q.search) in
    (
      λ h. record {
        status = elim (Bool-cases (same status [])) [
          | inl e ↦ inl e
          | inr e ↦ elim (Bool-cases (same status (codes "all"))) [
            | inl f ↦ inr (inl (same→eq status (codes "all") f))
            | inr f ↦ inr (inr (same→eq s.status status (ground arith)))
          ]
        ];
        search = elim (Bool-cases (same search [])) [ inl e ↦ inl e | inr e ↦ inr (ground arith) ];
      },
      λ w. ground (arith, w.status, w.search, same_refl status, same_refl (codes "all")),
    )

-- Sessions answers the page that the query asks for, of at most 500 entries and 100 by default, of
-- the matching sessions, the latest first: the list paged is in the order of the start times and
-- holds the matching sessions, each as often as the log files do; a session matches exactly if it
-- has the query's status and the query's text is in its identifier; the total counts all matches.
pub list_sessions-Page :
    (q : Query) (s : Scan)
    → (hits : List Session) × Page q.limit q.offset hits (list_sessions q s)
      × Chain NoEarlier hits
      × Perm hits (select (session_matches q) s.sessions)
      × ((t : Session) → (session_matches q t ≡ true) ↔ Wanted q t)
unfolding list_sessions
list_sessions-Page q s =
    let found = select (session_matches q) s.sessions in
    (
      sort_stable later_first found,
      page-Page (sort_stable later_first found) q.limit q.offset,
      Ordered-Chain later_first NoEarlier later_first-NoEarlier (sort_stable later_first found)
          (sort_stable-Ordered later_first later_first_asym found),
      sort_stable-perm later_first found,
      session_matches-Wanted q,
    )
