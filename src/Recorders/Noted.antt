-- ===== src/Recorders/Noted.antt =====
-- What the writer of errors records of the response.
use vaps.Base.{
  ℕ, ◌≡◌, refl, sym, ap, subst, ◌∙◌, true, false, Option, none, is_some, [], ◌++◌, leb,
  if◌then◌else◌, arith, Bool-cases, inl, inr,
}
use vaps.Text.{Bytes}
use vaps.Http.{Response, write_header, write}
use vaps.Recorders.{Writer, Errors, errors_header, errors_write, errors_writer}
use vaps.Recorders.Faithful.{
  or_ok, set_header-fields, write-after_header, write-fields, write_header-fields,
  write_header-again, Faithful,
}

-- What errorRecorderResponseWriter has recorded: the body of an error, and nothing of other bodies.
pub record Noted {W : Type 0} (R : W → Response → Type 0) (c : Errors W) (x : Response)
    : Type 0 where
  pub inside : R c.inner x
  pub status_recorded : c.status ≡ or_ok x.status
  pub body_recorded : c.body ≡ (if leb 400 (or_ok x.status) then x.body else [])
  pub header_seen : c.wrote_header ≡ is_some x.status
  pub no_early_body : x.status ≡ none → x.body ≡ []

Option-none : (o : Option ℕ) → is_some o ≡ false → o ≡ none
Option-none o h = ground arith

module _ {W : Type 0} (r : Writer W) (R : W → Response → Type 0) (f : Faithful r R) where
  errors_header-seen : (s : ℕ) (c : Errors W) → c.wrote_header ≡ true → errors_header r s c ≡ c
  unfolding errors_header
  errors_header-seen s c h = ground arith

  errors_header-started :
      (c : Errors W) → errors_header r 200 c ≡ (if c.wrote_header then c else errors_header r 200 c)
  unfolding errors_header
  errors_header-started c = ground (arith, Bool-cases c.wrote_header)

  first_header-Noted :
      (s : ℕ) (c : Errors W) (x : Response)
      → is_some x.status ≡ false
      → Noted R c x
      → Noted R (errors_header r s c) (write_header s x)
  unfolding errors_header
  first_header-Noted s c x h k =
      let (body, stat) = write_header-fields s x in
      rw (k.header_seen ∙ h) (record {
        inside = f.status s c.inner x k.inside;
        status_recorded = ground arith;
        body_recorded = ground (arith, k.no_early_body (Option-none x.status h));
        header_seen = ground arith;
        no_early_body = λ e. absurd (ground arith);
      })

  errors_header-Noted :
      (s : ℕ) (c : Errors W) (x : Response)
      → Noted R c x
      → Noted R (errors_header r s c) (write_header s x)
  errors_header-Noted s c x k = elim (Bool-cases (is_some x.status)) [
    | inl h ↦ rw (errors_header-seen s c (k.header_seen ∙ h), write_header-again s x h) k
    | inr h ↦ first_header-Noted s c x h k
  ]

  -- Write behind its check of the header.
  content-Noted :
      (b : Bytes) (c : Errors W) (x : Response)
      → is_some x.status ≡ true
      → Noted R c x
      → Noted R
          (record c {
            inner = r.content b c.inner;
            body = if leb 400 c.status then c.body ++ b else c.body;
          })
          (write b x)
  content-Noted b c x h k =
      let (body, stat) = write-fields b x in
      record {
        inside = f.content b c.inner x k.inside;
        status_recorded = ground arith;
        body_recorded = ground arith;
        header_seen = ground arith;
        no_early_body = λ e. absurd (ground arith);
      }

  errors_write-Noted :
      (b : Bytes) (c : Errors W) (x : Response)
      → Noted R c x
      → Noted R (errors_write r b c) (write b x)
  unfolding errors_write
  errors_write-Noted b c x k =
      let (body, stat) = write_header-fields 200 x in
      rw (← write-after_header b x) (
        subst
          (λ d.
            Noted R
              (record d {
                inner = r.content b d.inner;
                body = if leb 400 d.status then d.body ++ b else d.body;
              })
              (write b (write_header 200 x)))
          (errors_header-started c)
          (content-Noted b (errors_header r 200 c) (write_header 200 x) (ground arith)
            (errors_header-Noted 200 c x k)))

  pub errors-Faithful : Faithful (errors_writer r) (Noted R)
  errors-Faithful = record {
    header = λ k v c x h.
        let (stat, body) = set_header-fields k v x in
        record {
          inside = f.header k v c.inner x h.inside;
          status_recorded = h.status_recorded ∙ ap or_ok (sym stat);
          body_recorded = h.body_recorded ∙ rw (stat, body) refl;
          header_seen = h.header_seen ∙ ap is_some (sym stat);
          no_early_body = λ e. body ∙ h.no_early_body (sym stat ∙ e);
        };
    status = errors_header-Noted;
    content = errors_write-Noted;
  }
