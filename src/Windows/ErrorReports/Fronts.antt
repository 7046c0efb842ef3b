-- ===== src/Windows/ErrorReports/Fronts.antt =====
-- Deserializing from the front of a stream of error reports.
use open_cam.Prelude.{
  suc, ◌+◌, ◌-◌, ◌≤◌, ◌<◌, ◌≡◌, refl, sym, ap, ◌∙◌, ◌⊎◌, inl, inr, false, [], ◌∷◌, ◌++◌,
  append_assoc, ltb, Bytes, length, length-append, arith, le→ltb, Bool-cases,
}
use open_cam.Descriptor.Layout.{put_string}
use open_cam.Windows.Reader.{ok, incomplete, u8, string}
use mathlib.Core.Path.{ap₂}
use open_cam.Windows.Reader.Cut.{
  IsTextWithin, string-cut, bind-incomplete, string-incomplete, string-consumed,
}
use open_cam.Windows.ErrorReports.{ErrorReport, deserialize_error_report}

abbrev pub put_error_report : ErrorReport → Bytes
put_error_report r = r.severity ∷ (put_string r.error ++ put_string r.description)

abbrev pub IsReport : ErrorReport → Type 0
IsReport r = (r.severity ≤ 1) × IsTextWithin 1024 r.error × IsTextWithin 2048 r.description

-- The front of a stream that starts with a report gives this report and what it consumed, or is too
-- short for it and incomplete.
pub deserialize_error_report-cut :
    (r : ErrorReport) (x y more : Bytes)
    → IsReport r
    → length x ≤ 65536
    → x ++ y ≡ put_error_report r ++ more
    → ((rest : Bytes) × (x ≡ put_error_report r ++ rest)
        × (rest ++ y ≡ more)
        × (deserialize_error_report x ≡ ok (r, length (put_error_report r))))
      ⊎ ((length x < length (put_error_report r)) × (deserialize_error_report x ≡ incomplete))
unfolding deserialize_error_report u8
deserialize_error_report-cut r [] y more h fits e = inr (omega arith, refl)
deserialize_error_report-cut r (s ∷ x) y more h fits e =
    let s_is : s ≡ r.severity = cc in
    let assoc = append_assoc (put_string r.error) (put_string r.description) more in
    let tail : x ++ y ≡ (put_string r.error ++ put_string r.description) ++ more = cc in
    let x_is : x ++ y ≡ put_string r.error ++ (put_string r.description ++ more) = tail ∙ assoc in
    let size : length (put_error_report r)
        ≡ 1 + length (put_string r.error) + length (put_string r.description) =
      omega (arith, length-append (put_string r.error) (put_string r.description)) in
    let within : ltb 65536 (suc (length x)) ≡ false = le→ltb 65536 (suc (length x)) fits in
    let severe : ltb 1 s ≡ false = le→ltb 1 s (omega arith) in
    elim (string-cut 1024 r.error x y (put_string r.description ++ more) (omega arith) h.1 x_is) [
      | inr (short, stuck) ↦ inr (omega (arith, size, short), rw (within, severe, stuck))
      | inl (x1, front, back, first) ↦
          let left : length x ≡ length (put_string r.error) + length x1 =
            ap length front ∙ length-append (put_string r.error) x1 in
          elim (string-cut 2048 r.description x1 y more (omega arith) h.2 back) [
            | inr (short, stuck) ↦
                inr (omega (arith, size, short, left), rw (within, severe, first, stuck))
            | inl (x2, front', back', second) ↦
                let left' : length x1 ≡ length (put_string r.description) + length x2 =
                  ap length front' ∙ length-append (put_string r.description) x2 in
                let consumed : suc (length x) - length x2 ≡ length (put_error_report r) =
                  omega (arith, size, left, left') in
                inl (
                  x2,
                  ap₂ ◌∷◌ s_is (
                      front
                      ∙ ap (λ z. put_string r.error ++ z) front'
                      ∙ sym (append_assoc (put_string r.error) (put_string r.description) x2)),
                  back',
                  rw (within, severe, first, second, consumed, s_is),
                )
          ]
    ]

-- A message is incomplete only where fewer bytes have arrived than the longest report takes.
pub deserialize_error_report-incomplete :
    (x : Bytes) → deserialize_error_report x ≡ incomplete → length x < 3077
unfolding deserialize_error_report u8
deserialize_error_report-incomplete [] e = omega arith
deserialize_error_report-incomplete (s ∷ x) e = elim (Bool-cases (ltb 65536 (suc (length x)))) [
  | inl large ↦ absurd (cc (rw (large, deserialize_error_report) at e))
  | inr within ↦ elim (Bool-cases (ltb 1 s)) [
    | inl severe ↦ absurd (cc (rw (within, severe, deserialize_error_report) at e))
    | inr mild ↦
        elim (bind-incomplete (string 1024 x) _
          (rw (within, mild, deserialize_error_report) at e)) [
            | inl short ↦ omega (arith, string-incomplete 1024 x short)
            | inr ((error, r), first, later) ↦ elim (bind-incomplete (string 2048 r) _ later) [
              | inl short ↦
                  omega (
                    arith,
                    string-incomplete 2048 r short,
                    (string-consumed 1024 x error r first).0,
                  )
              | inr (_, _, done) ↦ absurd (cc done)
            ]
          ]
  ]
]
