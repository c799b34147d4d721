-- ===== src/Pull/Answers.antt =====
-- What a client gets for a payload in the memory cache.
use vaps.Base.{
  ℕ, ◌^◌, ◌<◌, ◌≡◌, refl, ◌∙◌, none, some, [], length, if◌then◌else◌, Bool-cases, inl, inr, ◌⊎◌,
}
use vaps.Text.{Bytes, same, codes}
use vaps.Int64.{ℤ, pos, format_int}
use vaps.Dict.{Dict, lookup, insert, remove, lookup-remove}
use vaps.Http.{Response}
use vaps.ByteRange.{
  ByteRange, Parsed, RangeError, unsupported_unit, multipart, invalid, not_satisfiable, ok, err,
  parse_single_range_header, write_full_payload,
}
use vaps.ByteRange.Bounds.{parse_single_range_header-InBounds}
use vaps.ByteRange.Slices.{fresh, bytes_between, write_range_response-serves}
use vaps.Pull.{set_payload_headers, refuse_range, answer_cached, respond_cached}

-- The Content-Length of an answer is the number of bytes of its body.
abbrev pub LengthAgrees : Response → Type 0
LengthAgrees w = lookup (codes "Content-Length") w.headers ≡ some (format_int (pos (length w.body)))

-- The answer to a Range header, by what the parser makes of it.
abbrev pub AnswersRange : Bytes → Parsed → Response → Type 0
AnswersRange payload (ok r) w =
    (first : ℕ) × (last : ℕ) × (r.start ≡ pos first)
    × (r.end ≡ pos last)
    × (w.status ≡ some 206)
    × (w.body ≡ bytes_between first last payload)
    × LengthAgrees w
AnswersRange payload (err not_satisfiable) w =
    (w.status ≡ some 416)
    × (w.body ≡ [])
    × (lookup (codes "Content-Length") w.headers ≡ some (format_int (pos (length payload))))
AnswersRange payload (err _) w =
    (w.status ≡ some 400) × (lookup (codes "Content-Length") w.headers ≡ none)

abbrev pub Answers : Bytes → Bytes → Response → Type 0
Answers payload range_header w =
    if same range_header []
    then (w.status ≡ some 200) × (w.body ≡ payload) × LengthAgrees w
    else AnswersRange payload (parse_single_range_header range_header (pos (length payload))) w

headers-fresh :
    (hash : Bytes) (size : ℤ)
    → (hs : Dict Bytes) × (set_payload_headers hash size (fresh []) ≡ fresh hs)
      × (lookup (codes "Content-Length") hs ≡ some (format_int size))
unfolding set_payload_headers lookup insert remove same
headers-fresh hash size = (_, refl, refl)

no_length :
    (hs : Dict Bytes)
    → lookup (codes "Content-Length") (
        remove
          (codes "X-Content-Type-Options")
          (remove (codes "Content-Type") (remove (codes "Content-Length") hs)))
      ≡ none
unfolding same
no_length hs =
    lookup-remove (codes "Content-Length") (codes "X-Content-Type-Options") _
    ∙ lookup-remove (codes "Content-Length") (codes "Content-Type") _
    ∙ lookup-remove (codes "Content-Length") (codes "Content-Length") hs

refuse-AnswersRange :
    (e : RangeError) (payload : Bytes) (hs : Dict Bytes)
    → lookup (codes "Content-Length") hs ≡ some (format_int (pos (length payload)))
    → AnswersRange payload (err e) (refuse_range e (pos (length payload)) (fresh hs))
unfolding refuse_range lookup insert remove same
refuse-AnswersRange unsupported_unit payload hs h = (refl, no_length hs)
refuse-AnswersRange multipart payload hs h = (refl, no_length hs)
refuse-AnswersRange invalid payload hs h = (refl, no_length hs)
refuse-AnswersRange not_satisfiable payload hs h =
    (refl, refl, lookup-remove (codes "Content-Length") (codes "Content-Range") hs ∙ h)

full-answer :
    (payload : Bytes) (hs : Dict Bytes)
    → let w = write_full_payload (fresh hs) payload (pos (length payload)) in
      (w.status ≡ some 200) × (w.body ≡ payload) × LengthAgrees w
unfolding write_full_payload lookup insert remove same
full-answer payload hs = (refl, refl, refl)

parsed-cases : (p : Parsed) → ((e : RangeError) × (p ≡ err e)) ⊎ ((r : ByteRange) × (p ≡ ok r))
parsed-cases (err e) = inl (e, refl)
parsed-cases (ok r) = inr (r, refl)

module _ (hash range_header payload : Bytes) (some_bytes : 0 < length payload)
    (fits : length payload < 2 ^ 63) where
  answer-Answers :
      (hs : Dict Bytes)
      → lookup (codes "Content-Length") hs ≡ some (format_int (pos (length payload)))
      → (w : Response) × (answer_cached range_header payload (fresh hs) ≡ some w)
        × Answers payload range_header w
  unfolding answer_cached
  answer-Answers hs l = elim (Bool-cases (same range_header [])) [
    | inl empty ↦
        rw empty (
          write_full_payload (fresh hs) payload (pos (length payload)),
          refl,
          full-answer payload hs,
        )
    | inr named ↦
        elim (parsed-cases (parse_single_range_header range_header (pos (length payload)))) [
          | inl (x, f) ↦
              rw (named, f)
                (
                  refuse_range x (pos (length payload)) (fresh hs),
                  refl,
                  refuse-AnswersRange x payload hs l,
                )
          | inr (r, f) ↦
              let b =
                parse_single_range_header-InBounds (length payload) some_bytes fits range_header r
                  f in
              let (w, s, status, body, len, rest) =
                write_range_response-serves payload r fits b hs in
              rw (named, f) (w, s, (b.first, b.last, b.start, b.end, status, body, len))
        ]
  ]

  -- A pull of a payload in the memory cache, of 1 to 2^63 - 1 bytes, is always answered: 200 with
  -- the whole payload without a Range header, 206 with exactly the bytes of an accepted range,
  -- with the number of bytes sent as Content-Length; a range behind the payload gives 416 with no
  -- body but with the payload's length as Content-Length, every other header 400 without a
  -- Content-Length of the payload.
  pub respond_cached-Answers :
      (w : Response) × (respond_cached hash range_header payload (fresh []) ≡ some w)
      × Answers payload range_header w
  unfolding respond_cached
  respond_cached-Answers =
      let (hs, e, l) = headers-fresh hash (pos (length payload)) in rw e (answer-Answers hs l)
