-- ===== src/Redaction/Lines.antt =====
-- What `DiagnosticLineRedactor` gives out, however its input comes in chunks.
use open_cam.Prelude.{
  ℕ, ◌+◌, ◌≤◌, ◌<◌, ◌≡◌, refl, sym, ap, ◌∙◌, ◌⊎◌, inl, inr, true, false, List, [], ◌∷◌, ◌++◌,
  append_assoc, append-nil, ◌==◌, leb, ltb, if◌then◌else◌, Bytes, length, length-append, All,
  All-append, Bool-cases, arith,
}
use open_cam.Strings.Find.{Lacks}
use open_cam.Redaction.{
  redact_complete_line, sanitize_byte, sanitize, max_line_bytes, Redactor, fresh, omitted,
  consume_byte, consume,
}

pub consume-append :
    (r : Redactor) (a b : Bytes)
    → consume r (a ++ b)
      ≡ ((consume (consume r a).0 b).0, (consume r a).1 ++ (consume (consume r a).0 b).1)
unfolding consume
consume-append r [] b = refl
consume-append r (c ∷ a) b =
    let (next, output) = consume_byte r c in
    rw (
      consume-append next a b,
      append_assoc output (consume next a).1 (consume (consume next a).0 b).1,
    )

-- What is kept is less than a line, and within the limit; nothing is kept while discarding.
pub record IsValid (r : Redactor) : Type 0 where
  pub one_line : Lacks 10 r.pending
  pub bounded : length r.pending ≤ max_line_bytes
  pub discards : (r.discarding ≡ false) ⊎ (r.pending ≡ [])

consume_byte-IsValid : (r : Redactor) (c : ℕ) → IsValid r → IsValid (consume_byte r c).0
unfolding consume_byte
consume_byte-IsValid r c v = elim (Bool-cases r.discarding) [
  | inl discarding ↦ elim (Bool-cases (c == 10)) [
    | inl end ↦
        rw (discarding, end)
          (record { one_line = v.one_line; bounded = v.bounded; discards = inl refl })
    | inr more ↦
        rw (discarding, more)
          (record {
            one_line = v.one_line;
            bounded = v.bounded;
            discards = inr (elim v.discards [ inl e ↦ absurd (cc) | inr e ↦ e ]);
          })
  ]
  | inr keeping ↦ elim (Bool-cases (c == 10)) [
    | inl end ↦
        rw (keeping, end) (record { one_line = tt; bounded = omega arith; discards = inr refl })
    | inr more ↦ elim (Bool-cases (ltb max_line_bytes (length (r.pending ++ c ∷ [])))) [
      | inl long ↦
          rw (keeping, more, long)
            (record { one_line = tt; bounded = omega arith; discards = inr refl })
      | inr short ↦
          rw (keeping, more, short)
            (record {
              one_line =
                  All-append (λ x. (x == 10) ≡ false) r.pending (c ∷ []) v.one_line (more, tt);
              bounded = ground arith;
              discards = inl refl;
            })
    ]
  ]
]

-- Every chunk keeps the invariant.
pub consume-IsValid : (r : Redactor) (chunk : Bytes) → IsValid r → IsValid (consume r chunk).0
unfolding consume
consume-IsValid r [] v = v
consume-IsValid r (c ∷ chunk) v =
    consume-IsValid (consume_byte r c).0 chunk (consume_byte-IsValid r c v)

-- A tab, a line end, a carriage return or printable ASCII.
abbrev pub IsClean : ℕ → Type 0
IsClean c = (c ≡ 9) ⊎ (c ≡ 10) ⊎ (c ≡ 13) ⊎ ((32 ≤ c) × (c ≤ 126))

sanitize_byte-IsClean : (c : ℕ) → IsClean (sanitize_byte c)
sanitize_byte-IsClean c = ground arith

sanitize-IsClean : (input : Bytes) → All IsClean (sanitize input)
unfolding sanitize
sanitize-IsClean [] = tt
sanitize-IsClean (c ∷ input) = (sanitize_byte-IsClean c, sanitize-IsClean input)

consume_byte-IsClean : (r : Redactor) (c : ℕ) → All IsClean (consume_byte r c).1
unfolding consume_byte
consume_byte-IsClean r c = elim (Bool-cases r.discarding) [
  | inl discarding ↦ elim (Bool-cases (c == 10)) [
    | inl end ↦ rw (discarding, end) (ground arith)
    | inr more ↦ rw (discarding, more) tt
  ]
  | inr keeping ↦ elim (Bool-cases (c == 10)) [
    | inl end ↦ rw (keeping, end) (sanitize-IsClean (redact_complete_line (r.pending ++ c ∷ [])))
    | inr more ↦ elim (Bool-cases (ltb max_line_bytes (length (r.pending ++ c ∷ [])))) [
      | inl long ↦ rw (keeping, more, long) tt
      | inr short ↦ rw (keeping, more, short) tt
    ]
  ]
]

-- Every byte that is given out is printable ASCII, a tab, a line end or a carriage return.
pub consume-IsClean : (r : Redactor) (chunk : Bytes) → All IsClean (consume r chunk).1
unfolding consume
consume-IsClean r [] = tt
consume-IsClean r (c ∷ chunk) =
    let (next, output) = consume_byte r c in
    All-append IsClean output (consume next chunk).1 (consume_byte-IsClean r c)
      (consume-IsClean next chunk)

-- A redactor that keeps less than a line within the limit still does so after any chunk, and every
-- byte it gives out for the chunk is printable ASCII, a tab, a line end or a carriage return.
pub consume_safe :
    (r : Redactor) (chunk : Bytes)
    → IsValid r
    → IsValid (consume r chunk).0 × All IsClean (consume r chunk).1
consume_safe r chunk v = (consume-IsValid r chunk v, consume-IsClean r chunk)

-- What is given out for a line: its redaction, or the note for a line over the limit.
abbrev pub line_output : Bytes → Bytes
line_output body =
    if leb (length body) max_line_bytes
    then sanitize (redact_complete_line (body ++ 10 ∷ []))
    else omitted

discard_body :
    (body : Bytes)
    → Lacks 10 body
    → consume (record { pending = []; discarding = true }) body
      ≡ (record { pending = []; discarding = true }, [])
unfolding consume consume_byte
discard_body [] l = refl
discard_body (c ∷ body) l = rw (l.0, discard_body body l.1)

collect_short :
    (kept body : Bytes)
    → Lacks 10 body
    → length kept + length body ≤ max_line_bytes
    → consume (record { pending = kept; discarding = false }) body
      ≡ (record { pending = kept ++ body; discarding = false }, [])
unfolding consume consume_byte
collect_short kept [] l h = rw (append-nil kept)
collect_short kept (c ∷ body) l h =
    let grown : length (kept ++ c ∷ []) ≡ length kept + 1 =
      omega (arith, length-append kept (c ∷ [])) in
    let short : ltb max_line_bytes (length (kept ++ c ∷ [])) ≡ false = ground (arith, grown) in
    rw (
      l.0,
      short,
      collect_short (kept ++ c ∷ []) body l.1 (omega (arith, grown, h)),
      append_assoc kept (c ∷ []) body,
    )

collect_long :
    (kept body : Bytes)
    → Lacks 10 body
    → length kept ≤ max_line_bytes
    → max_line_bytes < length kept + length body
    → consume (record { pending = kept; discarding = false }) body
      ≡ (record { pending = []; discarding = true }, [])
unfolding consume consume_byte
collect_long kept [] l h h' = absurd (omega arith)
collect_long kept (c ∷ body) l h h' =
    let grown : length (kept ++ c ∷ []) ≡ length kept + 1 =
      omega (arith, length-append kept (c ∷ [])) in
    elim (Bool-cases (ltb max_line_bytes (length (kept ++ c ∷ [])))) [
      | inl long ↦ rw (l.0, long, discard_body body l.1)
      | inr short ↦ rw (
        l.0,
        short,
        collect_long (kept ++ c ∷ []) body l.1 (ground arith) (omega (arith, grown, h')),
      )
    ]

end_of_line :
    (kept : Bytes)
    → consume (record { pending = kept; discarding = false }) (10 ∷ [])
      ≡ (fresh, sanitize (redact_complete_line (kept ++ 10 ∷ [])))
unfolding consume consume_byte
end_of_line kept = rw (append-nil (sanitize (redact_complete_line (kept ++ 10 ∷ []))))

end_of_discarded : consume (record { pending = []; discarding = true }) (10 ∷ []) ≡ (fresh, omitted)
unfolding consume consume_byte
end_of_discarded = refl

-- Nothing is given out before the line end.
pub consume-body : (body : Bytes) → Lacks 10 body → (consume fresh body).1 ≡ []
consume-body body l = elim (Bool-cases (leb (length body) max_line_bytes)) [
  | inl fits ↦ ap (λ q. q.1) (collect_short [] body l (ground arith))
  | inr long ↦ ap (λ q. q.1) (collect_long [] body l (omega arith) (ground arith))
]

-- A line that comes to a fresh redactor, in chunks or whole, gives its redacted and cleaned text if
-- it is within the limit and the note if not, and leaves the redactor fresh for what follows.
pub consume-line :
    (body rest : Bytes)
    → Lacks 10 body
    → consume fresh (body ++ 10 ∷ rest)
      ≡ ((consume fresh rest).0, line_output body ++ (consume fresh rest).1)
consume-line body rest l =
    let line : consume fresh (body ++ 10 ∷ []) ≡ (fresh, line_output body) =
      elim (Bool-cases (leb (length body) max_line_bytes)) [
        | inl fits ↦
            let kept = collect_short [] body l (ground arith) in
            rw (consume-append fresh body (10 ∷ []), kept, end_of_line body, fits)
        | inr long ↦
            let kept = collect_long [] body l (omega arith) (ground arith) in
            rw (consume-append fresh body (10 ∷ []), kept, end_of_discarded, long)
      ] in
    ap (consume fresh) (sym (append_assoc body (10 ∷ []) rest))
    ∙ consume-append fresh (body ++ 10 ∷ []) rest
    ∙ ap (λ q. ((consume q.0 rest).0, q.1 ++ (consume q.0 rest).1)) line

-- The chunks of an input, given to `consume` one after the other.
abbrev pub consume_all : Redactor → List Bytes → Redactor × Bytes
consume_all r [] = (r, [])
consume_all r (chunk ∷ chunks) =
    let (next, output) = consume r chunk in
    let (last, later) = consume_all next chunks in (last, output ++ later)

abbrev pub concatenated : List Bytes → Bytes
concatenated [] = []
concatenated (chunk ∷ chunks) = chunk ++ concatenated chunks

-- Lines, each with its end, and what is given out for them.
abbrev pub with_ends : List Bytes → Bytes
with_ends [] = []
with_ends (body ∷ bodies) = body ++ 10 ∷ with_ends bodies

abbrev pub line_outputs : List Bytes → Bytes
line_outputs [] = []
line_outputs (body ∷ bodies) = line_output body ++ line_outputs bodies

consume_all-consume :
    (r : Redactor) (chunks : List Bytes) → consume_all r chunks ≡ consume r (concatenated chunks)
unfolding consume
consume_all-consume r [] = refl
consume_all-consume r (chunk ∷ chunks) =
    let next = (consume r chunk).0 in
    ap (λ q. (q.0, (consume r chunk).1 ++ q.1)) (consume_all-consume next chunks)
    ∙ sym (consume-append r chunk (concatenated chunks))

consume-lines :
    (bodies : List Bytes)
    → All (Lacks 10) bodies
    → consume fresh (with_ends bodies) ≡ (fresh, line_outputs bodies)
unfolding consume
consume-lines [] l = refl
consume-lines (body ∷ bodies) l =
    consume-line body (with_ends bodies) l.0
    ∙ ap (λ q. (q.0, line_output body ++ q.1)) (consume-lines bodies l.1)

-- However a text of lines is cut into chunks, a fresh redactor gives out for each line its redacted
-- and cleaned text where it is within the limit and the note where it is not, in order and nothing
-- else, and is fresh again at the end.
pub consume_all-lines :
    (bodies chunks : List Bytes)
    → All (Lacks 10) bodies
    → concatenated chunks ≡ with_ends bodies
    → consume_all fresh chunks ≡ (fresh, line_outputs bodies)
consume_all-lines bodies chunks l cut =
    consume_all-consume fresh chunks ∙ ap (consume fresh) cut ∙ consume-lines bodies l
