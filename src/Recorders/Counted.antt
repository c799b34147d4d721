-- ===== src/Recorders/Counted.antt =====
-- What the counting writers record of the response.
use vaps.Base.{
  ℕ, ◌<◌, ◌^◌, ◌≡◌, sym, ap, subst, ◌∙◌, true, false, is_some, length, length-append, if◌then◌else◌,
  arith, Bool-cases, inl, inr,
}
use vaps.Text.{Bytes}
use vaps.Int64.{pos, add64}
use vaps.Int64.Laws.{add64-pos}
use vaps.Http.{Response, write_header, write}
use vaps.Recorders.{Writer, Counting, counting_header, counting_write, counting_writer}
use vaps.Recorders.Faithful.{
  or_ok, set_header-fields, write-after_header, write-fields, write_header-fields,
  write_header-again, Faithful,
}

-- What accessLogResponseWriter and meterResponseWriter have recorded of the response `x`.
pub record Counted {W : Type 0} (R : W → Response → Type 0) (c : Counting W) (x : Response)
    : Type 0 where
  pub inside : R c.inner x
  pub status_recorded : c.status ≡ or_ok x.status
  pub bytes_recorded : length x.body < 2 ^ 63 → c.bytes ≡ pos (length x.body)
  pub header_seen : c.wrote_header ≡ is_some x.status

module _ {W : Type 0} (r : Writer W) (R : W → Response → Type 0) (f : Faithful r R) where
  counting_header-seen :
      (s : ℕ) (c : Counting W) → c.wrote_header ≡ true → counting_header r s c ≡ c
  unfolding counting_header
  counting_header-seen s c h = ground arith

  counting_header-started :
      (c : Counting W)
      → counting_header r 200 c ≡ (if c.wrote_header then c else counting_header r 200 c)
  unfolding counting_header
  counting_header-started c = ground (arith, Bool-cases c.wrote_header)

  first_header-Counted :
      (s : ℕ) (c : Counting W) (x : Response)
      → is_some x.status ≡ false
      → Counted R c x
      → Counted R (counting_header r s c) (write_header s x)
  unfolding counting_header
  first_header-Counted s c x h k =
      let (body, stat) = write_header-fields s x in
      rw (k.header_seen ∙ h) (record {
        inside = f.status s c.inner x k.inside;
        status_recorded = ground arith;
        bytes_recorded = λ l. ground (arith, k.bytes_recorded (ground arith));
        header_seen = ground arith;
      })

  counting_header-Counted :
      (s : ℕ) (c : Counting W) (x : Response)
      → Counted R c x
      → Counted R (counting_header r s c) (write_header s x)
  counting_header-Counted s c x k = elim (Bool-cases (is_some x.status)) [
    | inl h ↦ rw (counting_header-seen s c (k.header_seen ∙ h), write_header-again s x h) k
    | inr h ↦ first_header-Counted s c x h k
  ]

  -- Write behind its check of the header.
  content-Counted :
      (b : Bytes) (c : Counting W) (x : Response)
      → is_some x.status ≡ true
      → Counted R c x
      → Counted R
          (record c { inner = r.content b c.inner; bytes = add64 c.bytes (pos (length b)) })
          (write b x)
  content-Counted b c x h k =
      let (body, stat) = write-fields b x in
      record {
        inside = f.content b c.inner x k.inside;
        status_recorded = ground arith;
        bytes_recorded = λ l. ground (
          arith,
          k.bytes_recorded (ground (arith, length-append x.body b)),
          length-append x.body b,
          add64-pos (length x.body) (length b) (ground (arith, length-append x.body b)),
        );
        header_seen = ground arith;
      }

  counting_write-Counted :
      (b : Bytes) (c : Counting W) (x : Response)
      → Counted R c x
      → Counted R (counting_write r b c) (write b x)
  unfolding counting_write
  counting_write-Counted b c x k =
      let (body, stat) = write_header-fields 200 x in
      rw (← write-after_header b x) (
        subst
          (λ d.
            Counted R
              (record d { inner = r.content b d.inner; bytes = add64 d.bytes (pos (length b)) })
              (write b (write_header 200 x)))
          (counting_header-started c)
          (content-Counted b (counting_header r 200 c) (write_header 200 x) (ground arith)
            (counting_header-Counted 200 c x k)))

  pub counting-Faithful : Faithful (counting_writer r) (Counted R)
  counting-Faithful = record {
    header = λ k v c x h.
        let (stat, body) = set_header-fields k v x in
        record {
          inside = f.header k v c.inner x h.inside;
          status_recorded = h.status_recorded ∙ ap or_ok (sym stat);
          bytes_recorded =
              λ l. h.bytes_recorded (rw (← body) l) ∙ ap (λ z. pos (length z)) (sym body);
          header_seen = h.header_seen ∙ ap is_some (sym stat);
        };
    status = counting_header-Counted;
    content = counting_write-Counted;
  }
