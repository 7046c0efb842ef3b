-- ===== src/Windows/Descriptor/Agreement.antt =====
-- The Windows deserializer against the Linux parser.
use open_cam.Prelude.{
  ◌≤◌, ◌≡◌, ◌↔◌, refl, sym, ap, ◌∙◌, subst, true, false, not, ◌||◌, ltb, List, [], ◌∷◌, Bytes,
  codes, length, All, arith,
}
use open_cam.Descriptor
use open_cam.Descriptor.Layout.Texts
use open_cam.Descriptor.{Resolution, Filter, is_empty}
use open_cam.Windows.Reader.{
  Result, ok, ◌>>=◌, ◌>>◌, throw_if, string, trailing_bytes, invalid_legacy_descriptor,
  message_exceeds_limit,
}
use open_cam.Strings.{starts_with}
use open_cam.Windows.MediaUrl.{valid_loopback_media_url}
use open_cam.Windows.Reader.Cut.{bind-eq_ok, throw_if-eq_ok, ok-injective}
use open_cam.Windows.Descriptor.{
  Group, DeviceDescriptor, read_resolutions, read_filters, deserialize_device_descriptor,
}
use open_cam.Windows.Descriptor.Readers.{
  Matches, throw-matches, bind-matches, string-matches, resolutions-matches, url-matches,
}
use open_cam.Windows.Descriptor.Filters.{IsLegacyFilter, read_filters-match}
use open_cam.Windows.Descriptor.Groups.{grouped, read_filters-grouped}

-- The limits of the Windows program.
pub record IsLegacy (l : Descriptor.DeviceDescriptor) : Type 0 where
  pub name : length l.name ≤ 256
  pub url : valid_loopback_media_url l.rtsp_url ≡ true
  pub filters : All IsLegacyFilter l.filters

-- The same descriptor as the Windows program holds it: for each category that has filters, in the
-- order of the categories, their names in the order of the filters.
abbrev pub as_legacy : Descriptor.DeviceDescriptor → DeviceDescriptor
as_legacy l = record {
  device_name = l.name;
  rtsp_url = l.rtsp_url;
  rtsp_protocol = codes "tcp";
  available_front_resolutions = l.front_resolutions;
  available_back_resolutions = l.back_resolutions;
  available_filters = grouped l.filters;
}

abbrev Stands : Descriptor.DeviceDescriptor → DeviceDescriptor → Type 0
Stands l d = (d ≡ as_legacy l) × IsLegacy l

abbrev parsed :
    Bytes → Bytes → List Resolution → List Resolution → List Filter → Descriptor.DeviceDescriptor
parsed name url front back filters = record {
  name = name;
  rtsp_url = url;
  front_resolutions = front;
  back_resolutions = back;
  filters = filters;
}

-- The two programs from the filters on.
abbrev end_legacy :
    Bytes → Bytes → List Resolution → List Resolution → List Group × Bytes → Result DeviceDescriptor
end_legacy name url front back p =
    throw_if (not (is_empty p.1)) trailing_bytes
    >> ok (record {
      device_name = name;
      rtsp_url = url;
      rtsp_protocol = codes "tcp";
      available_front_resolutions = front;
      available_back_resolutions = back;
      available_filters = p.0;
    })

abbrev end_parse :
    Bytes
    → Bytes
    → List Resolution
    → List Resolution
    → List Filter × Bytes
    → Descriptor.Result Descriptor.DeviceDescriptor
end_parse name url front back p =
    Descriptor.◌>>◌ (Descriptor.throw_if (not (is_empty p.1)) Descriptor.trailing_data)
      (Descriptor.ok (parsed name url front back p.0))

end-matches :
    (name url : Bytes) (front back : List Resolution) (x : Bytes)
    → length name ≤ 256
    → valid_loopback_media_url url ≡ true
    → Matches
        (read_filters x >>= end_legacy name url front back)
        (Descriptor.◌>>=◌ (Descriptor.read_filters x) (end_parse name url front back))
        Stands
end-matches name url front back x short valid = record {
  to = λ d e.
      let (a, read, e1) = bind-eq_ok (read_filters x) (end_legacy name url front back) e in
      let (done, e2) = throw_if-eq_ok (not (is_empty a.1)) trailing_bytes _ e1 in
      let (b, l, (same, all)) = (read_filters-match x).to a read in
      let rest : a.1 ≡ b.1 = ap (λ z. z.1) same in
      let groups : a.0 ≡ grouped b.0 = ap (λ z. z.0) same ∙ read_filters-grouped x b l in
      (
        parsed name url front back b.0,
        rw (l, ← rest, done) refl,
        (
          sym (ok-injective e2) ∙ rw groups refl,
          record { name = short; url = valid; filters = all },
        ),
      );
  from = λ d l e r.
      let (b, read, e1) =
        Descriptor.Layout.Texts.bind-eq_ok (Descriptor.read_filters x)
          (end_parse name url front back) e in
      let (done, e2) =
        Descriptor.Layout.Texts.throw_if-eq_ok (not (is_empty b.1)) Descriptor.trailing_data _ e1 in
      let (same, legacy) : Stands (parsed name url front back b.0) d =
        subst (λ z. Stands z d) (sym (Descriptor.Layout.Texts.ok-injective e2)) r in
      rw
        (
          (read_filters-match x).from (grouped b.0, b.1) b read
              (ap (λ gs. (gs, b.1)) (sym (read_filters-grouped x b read)), legacy.filters),
          done,
          same,
        )
        refl;
}

-- The two programs from the resolutions on.
abbrev later_legacy : Bytes → Bytes → Bytes → Result DeviceDescriptor
later_legacy name url x = read_resolutions x >>= λ p.
    read_resolutions p.1 >>= λ q. read_filters q.1 >>= end_legacy name url p.0 q.0

abbrev later_parse : Bytes → Bytes → Bytes → Descriptor.Result Descriptor.DeviceDescriptor
later_parse name url x = Descriptor.◌>>=◌ (Descriptor.read_resolutions x) λ p.
    Descriptor.◌>>=◌ (Descriptor.read_resolutions p.1)
      λ q. Descriptor.◌>>=◌ (Descriptor.read_filters q.1) (end_parse name url p.0 q.0)

later-matches :
    (name url x : Bytes)
    → length name ≤ 256
    → valid_loopback_media_url url ≡ true
    → Matches (later_legacy name url x) (later_parse name url x) Stands
later-matches name url x short valid =
    bind-matches (read_resolutions x) (Descriptor.read_resolutions x) _ _ _ _
      (resolutions-matches x) (λ a b c e r. tt)
      (λ p _.
        bind-matches (read_resolutions p.1) (Descriptor.read_resolutions p.1) _ _ _ _
          (resolutions-matches p.1) (λ a b c e r. tt)
          (λ q _. end-matches name url p.0 q.0 q.1 short valid))

-- The name and the URL are those that were read.
later_parse-eq_ok :
    (name url x : Bytes) (l : Descriptor.DeviceDescriptor)
    → later_parse name url x ≡ Descriptor.ok l
    → (l.name ≡ name) × (l.rtsp_url ≡ url)
later_parse-eq_ok name url x l e =
    let (p, _, e1) = Descriptor.Layout.Texts.bind-eq_ok (Descriptor.read_resolutions x) _ e in
    let (q, _, e2) = Descriptor.Layout.Texts.bind-eq_ok (Descriptor.read_resolutions p.1) _ e1 in
    let (b, _, e3) = Descriptor.Layout.Texts.bind-eq_ok (Descriptor.read_filters q.1) _ e2 in
    let (_, e4) =
      Descriptor.Layout.Texts.throw_if-eq_ok (not (is_empty b.1)) Descriptor.trailing_data _ e3 in
    let same = Descriptor.Layout.Texts.ok-injective e4 in
    (ap (λ d. d.name) (sym same), ap (λ d. d.rtsp_url) (sym same))

-- The two programs from the tests of the name and the URL on.
abbrev tested_legacy : Bytes → Bytes × Bytes → Result DeviceDescriptor
tested_legacy name p =
    throw_if (is_empty name || not (valid_loopback_media_url p.0)) invalid_legacy_descriptor
    >> later_legacy name p.0 p.1

abbrev tested_parse : Bytes → Bytes × Bytes → Descriptor.Result Descriptor.DeviceDescriptor
tested_parse name p =
    Descriptor.◌>>◌ (Descriptor.throw_if (is_empty name || is_empty p.0) Descriptor.empty_field)
      (later_parse name p.0 p.1)

tested_parse-eq_ok :
    (name : Bytes) (p : Bytes × Bytes) (l : Descriptor.DeviceDescriptor)
    → tested_parse name p ≡ Descriptor.ok l
    → (is_empty name ≡ false) × (l.name ≡ name) × (l.rtsp_url ≡ p.0)
tested_parse-eq_ok name p l e =
    let (filled, e1) =
      Descriptor.Layout.Texts.throw_if-eq_ok (is_empty name || is_empty p.0) Descriptor.empty_field
        _ e in
    let (same_name, same_url) = later_parse-eq_ok name p.0 p.1 l e1 in
    (ground arith, same_name, same_url)

valid-filled : (url : Bytes) → valid_loopback_media_url url ≡ true → is_empty url ≡ false
unfolding valid_loopback_media_url starts_with
valid-filled [] e = absurd (cc e)
valid-filled (c ∷ url) e = refl

tested-matches :
    (name : Bytes) (p : Bytes × Bytes)
    → length name ≤ 256
    → Matches (tested_legacy name p) (tested_parse name p) Stands
tested-matches name p short = record {
  to = λ d e.
      let (fine, e1) =
        throw_if-eq_ok (is_empty name || not (valid_loopback_media_url p.0))
          invalid_legacy_descriptor _ e in
      let named : is_empty name ≡ false = ground arith in
      let valid : valid_loopback_media_url p.0 ≡ true = ground arith in
      let (l, e2, r) = (later-matches name p.0 p.1 short valid).to d e1 in
      (l, rw (named, valid-filled p.0 valid) e2, r);
  from = λ d l e r.
      let (named, same_name, same_url) = tested_parse-eq_ok name p l e in
      let valid : valid_loopback_media_url p.0 ≡ true =
        ap valid_loopback_media_url (sym same_url) ∙ r.1.url in
      let e1 : later_parse name p.0 p.1 ≡ Descriptor.ok l =
        (Descriptor.Layout.Texts.throw_if-eq_ok (is_empty name || is_empty p.0)
          Descriptor.empty_field _ e).1 in
      rw (named, valid) ((later-matches name p.0 p.1 short valid).from d l e1 r);
}

deserialize-matches :
    (bytes : Bytes)
    → Matches
        (deserialize_device_descriptor bytes)
        (Descriptor.parse_device_descriptor bytes)
        Stands
unfolding deserialize_device_descriptor Descriptor.parse_device_descriptor
deserialize-matches bytes =
    throw-matches (ltb 65536 (length bytes)) message_exceeds_limit Descriptor.descriptor_too_large _
      _ _
      (bind-matches (string 256 bytes) (Descriptor.read_string bytes) _
        (λ p. string 2048 p.1 >>= tested_legacy p.0)
        (λ p. Descriptor.◌>>=◌ (Descriptor.read_string p.1) (tested_parse p.0)) _
        (string-matches 256 bytes (omega arith))
        (λ a d l e r.
          let (p, _, e1) =
            Descriptor.Layout.Texts.bind-eq_ok (Descriptor.read_string a.1) (tested_parse a.0) e in
          let (_, same, _) = tested_parse-eq_ok a.0 p l e1 in
          subst (λ z. length z ≤ 256) same r.1.name)
        (λ a short.
          bind-matches (string 2048 a.1) (Descriptor.read_string a.1) _ (tested_legacy a.0)
            (tested_parse a.0) _ (url-matches a.1) (λ a b c e r. tt)
            (λ p _. tested-matches a.0 p short)))

-- The Windows program takes a message for a descriptor exactly where the Linux program does and the
-- descriptor has a name of at most 256 bytes, a loopback media URL, and filters whose names are not
-- empty and at most 128 bytes. It then holds the same descriptor, with the protocol "tcp" and its
-- filters grouped: for each category that has filters, in the order of the categories, their names in
-- the order of the filters.
pub deserialize_device_descriptor_iff :
    (bytes : Bytes) (d : DeviceDescriptor)
    → (deserialize_device_descriptor bytes ≡ ok d) ↔ (
        (l : Descriptor.DeviceDescriptor) × (Descriptor.parse_device_descriptor bytes
          ≡ Descriptor.ok l)
        × (d ≡ as_legacy l)
        × IsLegacy l)
deserialize_device_descriptor_iff bytes d =
    let m = deserialize-matches bytes in
    (
      (λ e. let (l, e1, r) = m.to d e in (l, e1, r.0, r.1)),
      (λ (l, e1, same, legacy). m.from d l e1 (same, legacy)),
    )
