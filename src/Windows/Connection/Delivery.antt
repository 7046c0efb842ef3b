-- ===== src/Windows/Connection/Delivery.antt =====
-- What a connection delivers from a stream of well-formed error reports, however it is cut.
use open_cam.Prelude.{
  ℕ, zero, suc, ◌+◌, ◌≤◌, ◌<◌, ◌≡◌, refl, sym, ap, ◌∙◌, subst, inl, inr, Bool, true, false, List,
  [], ◌∷◌, ◌++◌, append_assoc, append-nil, ltb, ◌==◌, ◌||◌, some, Bytes, length, drop,
  length-append, drop-append, All, All-append_right, arith, le→ltb,
}
use open_cam.Descriptor.Layout.{put_all}
use open_cam.Windows.Reader.{ok}
use open_cam.Windows.ErrorReports.{ErrorReport, deserialize_error_report}
use open_cam.Windows.ErrorReports.Fronts.{
  put_error_report, IsReport, deserialize_error_report-cut, deserialize_error_report-incomplete,
}
use open_cam.Windows.Connection.{
  Connection, new_connection, kept, report_loop, after_drain, received, on_read, on_reads,
}

abbrev pub put_reports : List ErrorReport → Bytes
put_reports = put_all put_error_report

-- The bytes of a chunk after the other.
abbrev pub concat : List Bytes → Bytes
concat [] = []
concat (x ∷ xs) = x ++ concat xs

-- What is kept is no whole report.
abbrev IsPartial : Bytes → List ErrorReport → Type 0
IsPartial x [] = Unit {0}
IsPartial x (r ∷ rs) = length x < length (put_error_report r)

-- The loop on a front of a stream of reports: it delivers the first reports and keeps the rest of
-- the front, which is no whole report.
record Taken (fuel : ℕ) (x y : Bytes) (rs delivered : List ErrorReport) : Type 0 where
  front : List ErrorReport
  back : List ErrorReport
  left : Bytes
  splits : rs ≡ front ++ back
  is_kept : report_loop fuel x delivered ≡ some (kept left (delivered ++ front))
  continues : left ++ y ≡ put_reports back
  partial : IsPartial left back
  short : length left < 3077

report_loop-reads :
    (fuel b : ℕ) (x : Bytes) (delivered : List ErrorReport) (r : ErrorReport) (n : ℕ) (rest : Bytes)
    → deserialize_error_report (b ∷ x) ≡ ok (r, n)
    → 0 < n
    → n ≤ suc (length x)
    → drop n (b ∷ x) ≡ rest
    → report_loop (suc fuel) (b ∷ x) delivered ≡ report_loop fuel rest (delivered ++ (r ∷ []))
unfolding report_loop
report_loop-reads fuel b x delivered r n rest read some_read fits dropped =
    let guard : (n == 0 || ltb (suc (length x)) n) ≡ false = ground arith in
    rw (read, guard, ← dropped, report_loop) refl

report_loop-Taken :
    (fuel : ℕ) (x y : Bytes) (rs delivered : List ErrorReport)
    → All IsReport rs
    → length x ≤ fuel
    → length x ≤ 4096
    → x ++ y ≡ put_reports rs
    → Taken fuel x y rs delivered
unfolding report_loop
report_loop-Taken fuel [] y [] delivered h enough small e = record {
  front = [];
  back = [];
  left = [];
  splits = refl;
  is_kept = ap (λ z. some (kept [] z)) (sym (append-nil delivered));
  continues = e;
  partial = tt;
  short = omega arith;
}
report_loop-Taken fuel [] y (r ∷ rs) delivered h enough small e = record {
  front = [];
  back = r ∷ rs;
  left = [];
  splits = refl;
  is_kept = ap (λ z. some (kept [] z)) (sym (append-nil delivered));
  continues = e;
  partial = omega arith;
  short = omega arith;
}
report_loop-Taken fuel (b ∷ x) y [] delivered h enough small e = absurd (cc)
report_loop-Taken zero (b ∷ x) y (r ∷ rs) delivered h enough small e = absurd (omega arith)
report_loop-Taken (suc fuel) (b ∷ x) y (r ∷ rs) delivered h enough small e =
    elim (deserialize_error_report-cut r (b ∷ x) y (put_reports rs) h.0 (omega arith) e) [
      | inr (short, stuck) ↦ record {
        front = [];
        back = r ∷ rs;
        left = b ∷ x;
        splits = refl;
        is_kept =
            rw (stuck, report_loop) (ap (λ z. some (kept (b ∷ x) z)) (sym (append-nil delivered)));
        continues = e;
        partial = short;
        short = deserialize_error_report-incomplete (b ∷ x) stuck;
      }
      | inl (rest, front, back, read) ↦
          let size : suc (length x) ≡ length (put_error_report r) + length rest =
            ap length front ∙ length-append (put_error_report r) rest in
          let t =
            report_loop-Taken fuel rest y rs (delivered ++ (r ∷ [])) h.1 (omega (arith, size))
              (omega (arith, size)) back in
          let dropped : drop (length (put_error_report r)) (b ∷ x) ≡ rest =
            ap (drop (length (put_error_report r))) front ∙ drop-append (put_error_report r) rest in
          let next =
            report_loop-reads fuel b x delivered r (length (put_error_report r)) rest read
              (omega arith) (omega (arith, size)) dropped in
          record {
            front = r ∷ t.front;
            back = t.back;
            left = t.left;
            splits = ap (λ z. r ∷ z) t.splits;
            is_kept =
                next
                ∙ t.is_kept
                ∙ ap (λ z. some (kept t.left z)) (append_assoc delivered (r ∷ []) t.front);
            continues = t.continues;
            partial = t.partial;
            short = t.short;
          }
    ]

-- A read under way in an open connection.
abbrev pub IsReading : Connection → Type 0
IsReading c = (c.closed ≡ false) × (c.reading ≡ true)

-- What one read of a front of the stream does.
record Advanced (bytes y : Bytes) (rs : List ErrorReport) (c : Connection) : Type 0 where
  front : List ErrorReport
  back : List ErrorReport
  after : Connection
  splits : rs ≡ front ++ back
  is_after : on_read (received bytes) c ≡ some after
  delivers : after.delivered ≡ c.delivered ++ front
  continues : after.pending_bytes ++ y ≡ put_reports back
  partial : IsPartial after.pending_bytes back
  short : length after.pending_bytes < 3077
  is_reading : IsReading after

on_read-advances :
    (bytes y : Bytes) (rs : List ErrorReport) (c : Connection)
    → All IsReport rs
    → length bytes ≤ 512
    → length c.pending_bytes < 3077
    → c.closed ≡ false
    → c.pending_bytes ++ (bytes ++ y) ≡ put_reports rs
    → Advanced bytes y rs c
unfolding on_read after_drain
on_read-advances bytes y rs c h small short is_open e =
    let all = c.pending_bytes ++ bytes in
    let size : length all ≡ length c.pending_bytes + length bytes =
      length-append c.pending_bytes bytes in
    let guard : ltb 4096 (length c.pending_bytes + length bytes) ≡ false =
      le→ltb 4096 (length c.pending_bytes + length bytes) (omega arith) in
    let t =
      report_loop-Taken (length all) all y rs c.delivered h (omega arith) (omega (arith, size))
        (append_assoc c.pending_bytes bytes y ∙ e) in
    record {
      front = t.front;
      back = t.back;
      after = record c {
        pending_bytes = t.left;
        delivered = c.delivered ++ t.front;
        reading = true;
      };
      splits = t.splits;
      is_after = rw (guard, t.is_kept) refl;
      delivers = refl;
      continues = t.continues;
      partial = t.partial;
      short = t.short;
      is_reading = (is_open, refl);
    }

-- A stream that has ended leaves no part of a report.
no_partial :
    (x : Bytes) (rs : List ErrorReport)
    → x ++ [] ≡ put_reports rs
    → IsPartial x rs
    → (rs ≡ []) × (x ≡ [])
no_partial x [] e p = (refl, sym (append-nil x) ∙ e)
no_partial x (r ∷ rs) e p =
    let size : length x ≡ length (put_error_report r) + length (put_reports rs) =
      ap length (sym (append-nil x) ∙ e) ∙ length-append (put_error_report r) (put_reports rs) in
    absurd (omega (arith, size, p))

on_reads-advance :
    (chunks : List Bytes) (rs : List ErrorReport) (c : Connection)
    → All IsReport rs
    → All (λ bytes. length bytes ≤ 512) chunks
    → length c.pending_bytes < 3077
    → IsReading c
    → IsPartial c.pending_bytes rs
    → c.pending_bytes ++ concat chunks ≡ put_reports rs
    → (after : Connection) × (on_reads chunks c ≡ some after)
      × (after.delivered ≡ c.delivered ++ rs)
      × (after.pending_bytes ≡ [])
      × IsReading after
unfolding on_reads
on_reads-advance [] rs c h small short is_open partial e =
    let (none_left, empty) = no_partial c.pending_bytes rs e partial in
    (c, refl, sym (ap (λ z. c.delivered ++ z) none_left ∙ append-nil c.delivered), empty, is_open)
on_reads-advance (bytes ∷ chunks) rs c h small short is_open partial e =
    let a = on_read-advances bytes (concat chunks) rs c h small.0 short is_open.0 e in
    let (after, ends, delivers, empty, reading) =
      on_reads-advance chunks a.back a.after
        (All-append_right IsReport a.front a.back (subst (All IsReport) a.splits h)) small.1 a.short
        a.is_reading a.partial a.continues in
    (
      after,
      rw (a.is_after, on_reads) ends,
      delivers
          ∙ ap (λ z. z ++ a.back) a.delivers
          ∙ append_assoc c.delivered a.front a.back
          ∙ ap (λ z. c.delivered ++ z) (sym a.splits),
      empty,
      reading,
    )

-- However the bytes of a sequence of well-formed error reports are cut into reads of at most 512
-- bytes, a new connection delivers exactly these reports, in order, keeps no bytes, and stays open and
-- reading.
pub on_reads-delivers :
    (has_listener : Bool) (chunks : List Bytes) (rs : List ErrorReport)
    → All IsReport rs
    → All (λ bytes. length bytes ≤ 512) chunks
    → concat chunks ≡ put_reports rs
    → (after : Connection) × (on_reads chunks (new_connection has_listener) ≡ some after)
      × (after.delivered ≡ rs)
      × (after.pending_bytes ≡ [])
      × IsReading after
on_reads-delivers has_listener chunks rs h small e =
    on_reads-advance chunks rs (new_connection has_listener) h small (omega arith) (refl, refl)
      (empty rs) e
  where
    empty : (rs : List ErrorReport) → IsPartial [] rs
    empty [] = tt
    empty (r ∷ rs) = omega arith
