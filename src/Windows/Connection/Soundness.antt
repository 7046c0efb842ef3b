-- ===== src/Windows/Connection/Soundness.antt =====
-- What holds of a connection whatever bytes the phone sends.
use open_cam.Prelude.{
  ℕ, zero, suc, ◌+◌, ◌≤◌, ◌<◌, ◌≡◌, refl, sym, ap, ◌∙◌, subst, ◌⊎◌, inl, inr, Bool, true, false,
  not, ◌&&◌, ◌||◌, List, [], ◌∷◌, ◌++◌, ltb, ◌==◌, some, Bytes, length, drop, arith, Bool-cases,
  Option-cases, if◌then◌else◌,
}
use open_cam.Windows.Reader.{Result, ok, incomplete, rejected}
use open_cam.Windows.ErrorReports.{ErrorReport, deserialize_error_report}
use open_cam.Windows.ErrorReports.Fronts.{deserialize_error_report-incomplete}
use open_cam.Windows.Connection.{
  Connection, new_connection, close, Drained, kept, malformed, report_loop, after_drain, ReadAnswer,
  received, read_failed, on_read, Step, completes, breaks, closes, Reach, here, next,
}

-- An open connection is reading and nobody was notified; a connection that is reading keeps less than
-- the longest report takes; the listener is called at most once, and only if there is one.
pub record IsSound (c : Connection) : Type 0 where
  pub open_or_closed :
      ((c.closed ≡ false) × ((c.reading ≡ true) × (c.notified ≡ 0))) ⊎ (c.closed ≡ true)
  pub bounded : (c.reading ≡ false) ⊎ (length c.pending_bytes + 512 ≤ 4096)
  pub once : c.notified ≤ (if c.has_listener then 1 else 0)

-- What the loop keeps is short.
report_loop-kept :
    (fuel : ℕ) (x : Bytes) (delivered : List ErrorReport) (left : Bytes)
    (reports : List ErrorReport)
    → report_loop fuel x delivered ≡ some (kept left reports)
    → length left < 3077
unfolding report_loop
report_loop-kept fuel [] delivered left reports e =
    let same : left ≡ [] = cc in rw same (omega arith)
report_loop-kept zero (b ∷ x) delivered left reports e = absurd (cc)
report_loop-kept (suc fuel) (b ∷ x) delivered left reports e =
    by_result (deserialize_error_report (b ∷ x)) refl
      (λ n d. report_loop-kept fuel (drop n (b ∷ x)) d left reports)
  where
    by_result :
        (r : Result (ErrorReport × ℕ))
        → deserialize_error_report (b ∷ x) ≡ r
        → ((n : ℕ) (d : List ErrorReport)
            → report_loop fuel (drop n (b ∷ x)) d ≡ some (kept left reports)
            → length left < 3077)
        → length left < 3077
    by_result (ok (report, n)) read again = elim (Bool-cases (n == 0 || ltb (suc (length x)) n)) [
      | inl bad ↦ absurd (cc (rw (read, bad, report_loop) at e))
      | inr good ↦ again n (delivered ++ (report ∷ [])) (rw (read, good, report_loop) at e)
    ]
    by_result incomplete read again =
        let short = deserialize_error_report-incomplete (b ∷ x) read in
        let same : left ≡ b ∷ x = cc (rw (read, report_loop) at e) in rw same short
    by_result (rejected reason) read again = absurd (cc (rw (read, report_loop) at e))

-- Nobody was notified while it was open.
quiet :
    (c : Connection)
    → ((c.closed ≡ false) × ((c.reading ≡ true) × (c.notified ≡ 0))) ⊎ (c.closed ≡ true)
    → (c.notified ≡ 0) ⊎ (c.closed ≡ true)
quiet c (inl (_, (_, none_yet))) = inl none_yet
quiet c (inr closed) = inr closed

close-IsSound :
    (stopped_by_server : Bool) (c : Connection)
    → ((c.notified ≡ 0) ⊎ (c.closed ≡ true))
    → ((c.reading ≡ false) ⊎ (length c.pending_bytes + 512 ≤ 4096))
    → c.notified ≤ (if c.has_listener then 1 else 0)
    → IsSound (close stopped_by_server c)
unfolding close
close-IsSound stopped_by_server c before bounded once = elim (Bool-cases c.closed) [
  | inl closed ↦
      let same : close stopped_by_server c ≡ c = rw (closed, close) refl in
      subst IsSound (sym same)
        (record { open_or_closed = inr closed; bounded = bounded; once = once })
  | inr is_open ↦
      let count = if not stopped_by_server && c.has_listener then suc c.notified else c.notified in
      let same : close stopped_by_server c ≡ record c { closed = true; notified = count } =
        rw (is_open, close) refl in
      subst IsSound (sym same) (record {
        open_or_closed = inr refl;
        bounded = bounded;
        once = notified_once before is_open;
      })
]
  where
    notified_once :
        ((c.notified ≡ 0) ⊎ (c.closed ≡ true))
        → c.closed ≡ false
        → (if not stopped_by_server && c.has_listener then suc c.notified else c.notified)
          ≤ (if c.has_listener then 1 else 0)
    notified_once (inl none_yet) is_open = ground arith
    notified_once (inr closed) is_open = absurd (cc (closed, is_open))

after_drain-IsSound :
    (drained : Drained) (c : Connection)
    → IsSound c
    → ((left : Bytes) (reports : List ErrorReport)
        → drained ≡ kept left reports
        → length left < 3077)
    → IsSound (after_drain drained (record c { reading = false }))
unfolding after_drain
after_drain-IsSound (kept left reports) c s short = record {
  open_or_closed = elim s.open_or_closed [
    | inl (is_open, (_, none_yet)) ↦ inl (is_open, (refl, none_yet))
    | inr closed ↦ inr closed
  ];
  bounded = inr (omega (arith, short left reports refl));
  once = s.once;
}
after_drain-IsSound (malformed left reports) c s short =
    close-IsSound false _ (quiet c s.open_or_closed) (inl refl) s.once

on_read-IsSound :
    (answer : ReadAnswer) (c c' : Connection) → IsSound c → on_read answer c ≡ some c' → IsSound c'
unfolding on_read
on_read-IsSound read_failed c c' s e =
    let same : close false (record c { reading = false }) ≡ c' = cc in
    subst IsSound same (close-IsSound false _ (quiet c s.open_or_closed) (inl refl) s.once)
on_read-IsSound (received bytes) c c' s e =
    let c1 : Connection = record c { reading = false } in
    let all = c.pending_bytes ++ bytes in
    elim (Bool-cases (ltb 4096 (length c.pending_bytes + length bytes))) [
      | inl oversized ↦
          let same : close false c1 ≡ c' = cc (rw (oversized, on_read) at e) in
          subst IsSound same (close-IsSound false c1 (quiet c s.open_or_closed) (inl refl) s.once)
      | inr fits ↦ elim (Option-cases (report_loop (length all) all c.delivered)) [
        | inl stuck ↦ absurd (cc (rw (fits, stuck, on_read) at e))
        | inr (drained, ends) ↦
            let same : after_drain drained c1 ≡ c' = cc (rw (fits, ends, on_read) at e) in
            subst IsSound same (
              after_drain-IsSound drained c s (λ left reports is_kept.
                report_loop-kept (length all) all c.delivered left reports
                  (ends ∙ ap (λ d. some d) is_kept)))
      ]
    ]

Step-IsSound : {c c' : Connection} → Step c c' → IsSound c → IsSound c'
Step-IsSound (completes bytes c c' reading small e) s = on_read-IsSound (received bytes) c c' s e
Step-IsSound (breaks c c' reading e) s = on_read-IsSound read_failed c c' s e
Step-IsSound (closes stopped_by_server c) s =
    close-IsSound stopped_by_server c (quiet c s.open_or_closed) s.bounded s.once

-- Whatever bytes arrive, in reads of at most 512, and whenever someone closes the connection: an open
-- connection has a read under way and has notified nobody; the bytes it keeps and one more read stay
-- within the 4096 that it accepts; the listener is called at most once, and only if there is one.
pub Reach-IsSound :
    (has_listener : Bool) {c : Connection} → Reach (new_connection has_listener) c → IsSound c
Reach-IsSound has_listener here = record {
  open_or_closed = inl (refl, (refl, refl));
  bounded = inr (omega arith);
  once = omega arith;
}
Reach-IsSound has_listener (next r s) = Step-IsSound s (Reach-IsSound has_listener r)
