-- ===== src/Descriptor/Layout/Accepted.antt =====
-- `parseDeviceDescriptor` against the layout: the two directions of the round trip.
use open_cam.Prelude.{
  ◌↔◌, ◌*◌, ◌≤◌, ◌≡◌, refl, sym, ap, ◌∙◌, subst, ◌≢◌, Bool, false, not, ◌||◌, List, [], ◌∷◌, ◌++◌,
  append-nil, ltb, Bytes, IsByte, length, All, All-append_right, arith, le→ltb, ltb-le,
}
use mathlib.Core.Path.{ap₂}
use open_cam.Descriptor.{
  DeviceDescriptor, Resolution, Filter, Result, ok, ◌>>=◌, ◌>>◌, throw_if, is_empty, read_string,
  read_resolutions, read_filters, parse_device_descriptor, descriptor_too_large, empty_field,
  trailing_data, max_descriptor_size,
}
use open_cam.Descriptor.Layout.{
  put_string, put_resolution, put_filter, put_list, put_descriptor, IsText, AtMost128, InRange,
  IsFilter, IsValid,
}
use open_cam.Descriptor.Layout.Parts.{read_resolutions-IsExact, read_filters-IsExact}
use open_cam.Descriptor.Layout.Texts.{bind-eq_ok, throw_if-eq_ok, ok-injective, read_string-IsExact}

not_empty : (s : Bytes) → s ≢ [] → is_empty s ≡ false
not_empty [] h = absurd (h refl)
not_empty (c ∷ cs) h = refl

is_empty-ne_nil : (s : Bytes) → is_empty s ≡ false → s ≢ []
is_empty-ne_nil [] h = absurd (cc)
is_empty-ne_nil (c ∷ cs) h = λ e. cc

empty-eq_nil : (s : Bytes) → not (is_empty s) ≡ false → s ≡ []
empty-eq_nil [] h = refl
empty-eq_nil (c ∷ cs) h = absurd (cc)

or_false : (a b : Bool) → (a || b) ≡ false → (a ≡ false) × (b ≡ false)
or_false a b h = ground arith

-- Parsing what is laid out for a valid descriptor gives back that descriptor.
pub parse_device_descriptor-put_descriptor :
    (d : DeviceDescriptor) → IsValid d → parse_device_descriptor (put_descriptor d) ≡ ok d
unfolding parse_device_descriptor
parse_device_descriptor-put_descriptor d v =
    let filters = put_list put_filter d.filters in
    let back = put_list put_resolution d.back_resolutions ++ filters in
    let front = put_list put_resolution d.front_resolutions ++ back in
    rw (
      le→ltb max_descriptor_size (length (put_descriptor d)) v.fits,
      read_string-IsExact.reads d.name (put_string d.rtsp_url ++ front) v.name,
      read_string-IsExact.reads d.rtsp_url front v.rtsp_url,
      not_empty d.name v.name_ne_nil,
      not_empty d.rtsp_url v.rtsp_url_ne_nil,
      read_resolutions-IsExact.reads d.front_resolutions back v.front_resolutions,
      read_resolutions-IsExact.reads d.back_resolutions filters v.back_resolutions,
      ← append-nil filters,
      read_filters-IsExact.reads d.filters [] v.filters,
    )

-- The parser from its third reader on.
abbrev lists_at : Bytes → Bytes → Bytes → Result DeviceDescriptor
lists_at name url s = read_resolutions s >>= λ front. read_resolutions front.1 >>= λ back.
    read_filters back.1 >>= λ filters.
    throw_if (not (is_empty filters.1)) trailing_data
    >> ok (record {
      name = name;
      rtsp_url = url;
      front_resolutions = front.0;
      back_resolutions = back.0;
      filters = filters.0;
    })

lists_sound :
    (name url s : Bytes) (d : DeviceDescriptor)
    → All IsByte s
    → lists_at name url s ≡ ok d
    → (d.name ≡ name)
      × (d.rtsp_url ≡ url)
      × (s
          ≡ put_list put_resolution d.front_resolutions
            ++ (put_list put_resolution d.back_resolutions ++ put_list put_filter d.filters))
      × AtMost128 InRange d.front_resolutions
      × AtMost128 InRange d.back_resolutions
      × AtMost128 IsFilter d.filters
lists_sound name url s d h e =
    let made = λ (a b : List Resolution) (c : List Filter).
      let it : DeviceDescriptor = record {
        name = name;
        rtsp_url = url;
        front_resolutions = a;
        back_resolutions = b;
        filters = c;
      } in
      it in
    let end = λ (a b : List Resolution) (q : List Filter × Bytes).
      throw_if (not (is_empty q.1)) trailing_data >> ok (made a b q.0) in
    let ((a, r), ea, e1) =
      bind-eq_ok (read_resolutions s)
        (λ p. read_resolutions p.1 >>= λ q. read_filters q.1 >>= end p.0 q.0) e in
    let ((b, r'), eb, e2) =
      bind-eq_ok (read_resolutions r) (λ q. read_filters q.1 >>= end a q.0) e1 in
    let ((c, r''), ec, e3) = bind-eq_ok (read_filters r') (end a b) e2 in
    let (nothing, e4) = throw_if-eq_ok (not (is_empty r'')) trailing_data (ok (made a b c)) e3 in
    let (sa, va) = read_resolutions-IsExact.sound s a r h ea in
    let ha = All-append_right IsByte (put_list put_resolution a) r (subst (All IsByte) sa h) in
    let (sb, vb) = read_resolutions-IsExact.sound r b r' ha eb in
    let hb = All-append_right IsByte (put_list put_resolution b) r' (subst (All IsByte) sb ha) in
    let (sc, vc) = read_filters-IsExact.sound r' c r'' hb ec in
    let last : r' ≡ put_list put_filter c =
      sc ∙ ap (λ t. put_list put_filter c ++ t) (empty-eq_nil r'' nothing) ∙ append-nil _ in
    let whole =
      sa
      ∙ ap (λ t. put_list put_resolution a ++ t)
          (sb ∙ ap (λ t. put_list put_resolution b ++ t) last) in
    subst
      (λ x.
        (x.name ≡ name)
        × (x.rtsp_url ≡ url)
        × (s
            ≡ put_list put_resolution x.front_resolutions
              ++ (put_list put_resolution x.back_resolutions ++ put_list put_filter x.filters))
        × AtMost128 InRange x.front_resolutions
        × AtMost128 InRange x.back_resolutions
        × AtMost128 IsFilter x.filters)
      (ok-injective e4) (refl, refl, whole, va, vb, vc)

pub parse_device_descriptor-eq_ok :
    (packet : Bytes) (d : DeviceDescriptor)
    → All IsByte packet
    → parse_device_descriptor packet ≡ ok d
    → (packet ≡ put_descriptor d) × IsValid d
unfolding parse_device_descriptor
parse_device_descriptor-eq_ok packet d h e =
    let tested = λ (name url s : Bytes).
      throw_if (is_empty name || is_empty url) empty_field >> lists_at name url s in
    let (fits, e0) =
      throw_if-eq_ok (ltb max_descriptor_size (length packet)) descriptor_too_large
        (read_string packet >>= λ p. read_string p.1 >>= λ q. tested p.0 q.0 q.1) e in
    let ((name, r), en, e1) =
      bind-eq_ok (read_string packet) (λ p. read_string p.1 >>= λ q. tested p.0 q.0 q.1) e0 in
    let ((url, r'), eu, e2) = bind-eq_ok (read_string r) (λ q. tested name q.0 q.1) e1 in
    let (full, e3) =
      throw_if-eq_ok (is_empty name || is_empty url) empty_field (lists_at name url r') e2 in
    let (sn, vn) = read_string-IsExact.sound packet name r h en in
    let hn = All-append_right IsByte (put_string name) r (subst (All IsByte) sn h) in
    let (su, vu) = read_string-IsExact.sound r url r' hn eu in
    let hu = All-append_right IsByte (put_string url) r' (subst (All IsByte) su hn) in
    let (same_name, same_url, rest, front, back, filters) = lists_sound name url r' d hu e3 in
    let whole : packet ≡ put_descriptor d =
      sn
      ∙ ap₂ (λ n t. put_string n ++ t) (sym same_name)
          (su ∙ ap₂ (λ u t. put_string u ++ t) (sym same_url) rest) in
    let (name_full, url_full) = or_false (is_empty name) (is_empty url) full in
    (
      whole,
      record {
        name = subst IsText (sym same_name) vn;
        name_ne_nil = subst (λ s. s ≢ []) (sym same_name) (is_empty-ne_nil name name_full);
        rtsp_url = subst IsText (sym same_url) vu;
        rtsp_url_ne_nil = subst (λ s. s ≢ []) (sym same_url) (is_empty-ne_nil url url_full);
        front_resolutions = front;
        back_resolutions = back;
        filters = filters;
        fits = subst (λ s. length s ≤ 64 * 1024) whole (ltb-le _ _ fits);
      },
    )

-- The parser accepts a packet of bytes as a descriptor exactly where the packet is that
-- descriptor's layout, byte for byte, and the descriptor is valid: its texts are well-formed UTF-8
-- without control characters and within their limits, name and URL are not empty, its lists are
-- within their limits, its resolutions and categories in range.
pub parse_device_descriptor_iff :
    (packet : Bytes) (d : DeviceDescriptor)
    → All IsByte packet
    → (parse_device_descriptor packet ≡ ok d) ↔ ((packet ≡ put_descriptor d) × IsValid d)
parse_device_descriptor_iff packet d h = (
  parse_device_descriptor-eq_ok packet d h,
  λ (same, valid). ap parse_device_descriptor same ∙ parse_device_descriptor-put_descriptor d valid,
)
