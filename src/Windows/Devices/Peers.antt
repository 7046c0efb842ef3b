-- ===== src/Windows/Devices/Peers.antt =====
-- Connections and descriptors that stand for each other, as devices come and go.
use open_cam.Prelude.{
  ℕ, suc, ◌≡◌, ◌<◌, refl, sym, ap, ◌∙◌, subst, Bool, true, false, ◌==◌, List, [], ◌∷◌, ◌++◌, map,
  some, Bytes, equal_bytes, equal_bytes_refl, All, All-append, All-append_left, All-append_right,
  arith,
}
use open_cam.Prelude.{bind-eq_some}
use open_cam.Windows.Descriptor.{DeviceDescriptor}
use open_cam.Windows.Devices.{
  Peer, Devices, same_descriptor, remove_all, add_descriptor, remove_descriptor, connect,
  clears_canvas, disconnect,
}
use open_cam.Windows.Devices.Lists.{remove_all-one, map-append, All-map, All-weaken, All-unmap}

-- Two connections with different addresses and descriptors.
abbrev Apart : Peer → Peer → Type 0
Apart c e =
    ((e.id == c.id) ≡ false)
    × ((c.id == e.id) ≡ false)
    × (same_descriptor e.descriptor c.descriptor ≡ false)
    × (same_descriptor c.descriptor e.descriptor ≡ false)

-- Any two of the connections are apart.
abbrev pub Distinct : List Peer → Type 0
Distinct [] = Unit {0}
Distinct (c ∷ cs) = All (Apart c) cs × Distinct cs

-- The descriptors are those of the connections, in their order.
pub record IsAligned (s : Devices) : Type 0 where
  pub descriptors : s.descriptors ≡ map (λ c. c.descriptor) s.connections
  pub distinct : Distinct s.connections
  pub old_ids : All (λ c. c.id < s.next_id) s.connections

equal_bytes_sym : (a b : Bytes) → equal_bytes a b ≡ equal_bytes b a
unfolding equal_bytes
equal_bytes_sym [] [] = refl
equal_bytes_sym [] (y ∷ b) = refl
equal_bytes_sym (x ∷ a) [] = refl
equal_bytes_sym (x ∷ a) (y ∷ b) = ground (arith, equal_bytes_sym a b)

same_descriptor_sym : (d e : DeviceDescriptor) → same_descriptor d e ≡ same_descriptor e d
unfolding same_descriptor
same_descriptor_sym d e =
    rw (equal_bytes_sym d.rtsp_url e.rtsp_url, equal_bytes_sym d.device_name e.device_name) refl

Apart-sym : (c e : Peer) → Apart c e → Apart e c
Apart-sym c e (a, b, x, y) = (b, a, y, x)

-- The others are apart from one of several that are distinct, and distinct among themselves.
Distinct-split :
    (before : List Peer) (c : Peer) (after : List Peer)
    → Distinct (before ++ (c ∷ after))
    → All (Apart c) before × All (Apart c) after × Distinct (before ++ after)
Distinct-split [] c after d = (tt, d.0, d.1)
Distinct-split (e ∷ before) c after d =
    let (hb, ha, rest) = Distinct-split before c after d.1 in
    let front = All-append_left (Apart e) before (c ∷ after) d.0 in
    let back = All-append_right (Apart e) before (c ∷ after) d.0 in
    ((Apart-sym e c back.0, hb), ha, (All-append (Apart e) before after front back.1, rest))

-- A further connection.
Distinct-append :
    (cs : List Peer) (c : Peer) → Distinct cs → All (λ e. Apart e c) cs → Distinct (cs ++ (c ∷ []))
Distinct-append [] c d h = (tt, tt)
Distinct-append (e ∷ cs) c d h =
    (All-append (Apart e) cs (c ∷ []) d.0 (h.0, tt), Distinct-append cs c d.1 h.1)

-- The new connection is apart from the old ones.
new-Apart :
    (d : DeviceDescriptor) (n : ℕ) (cs : List Peer)
    → All (λ c. c.id < n) cs
    → All (λ c. same_descriptor c.descriptor d ≡ false) cs
    → All (λ c. Apart c (record { id = n; descriptor = d })) cs
new-Apart d n [] old new = tt
new-Apart d n (c ∷ cs) old new = (
  (ground arith, ground arith, same_descriptor_sym d c.descriptor ∙ new.0, new.0),
  new-Apart d n cs old.1 new.1,
)

pub connect-IsAligned :
    (d : DeviceDescriptor) (s : Devices)
    → All (λ e. same_descriptor e d ≡ false) s.descriptors
    → IsAligned s
    → IsAligned (connect d s)
unfolding connect add_descriptor
connect-IsAligned d s new a =
    let peer : Peer = record { id = s.next_id; descriptor = d } in
    let others =
      All-unmap (λ c. c.descriptor) (λ e. same_descriptor e d ≡ false) s.connections
        (subst (All (λ e. same_descriptor e d ≡ false)) a.descriptors new) in
    record {
      descriptors =
          ap (λ z. z ++ (d ∷ [])) a.descriptors
          ∙ sym (map-append (λ c. c.descriptor) s.connections (peer ∷ []));
      distinct =
          Distinct-append s.connections peer a.distinct
            (new-Apart d s.next_id s.connections a.old_ids others);
      old_ids =
          All-append (λ c. c.id < suc s.next_id) s.connections (peer ∷ [])
            (All-weaken (λ c. c.id < s.next_id) (λ c. c.id < suc s.next_id) s.connections
              (λ c h. omega arith) a.old_ids)
            (omega arith, tt);
    }

same_descriptor_refl : (d : DeviceDescriptor) → same_descriptor d d ≡ true
unfolding same_descriptor
same_descriptor_refl d = rw (equal_bytes_refl d.rtsp_url, equal_bytes_refl d.device_name) refl

pub disconnect-IsAligned :
    (before after : List Peer) (peer : Peer) (clears : Bool) (s s' : Devices)
    → s.connections ≡ before ++ (peer ∷ after)
    → disconnect peer s ≡ some (clears, s')
    → IsAligned s
    → IsAligned s'
unfolding disconnect remove_descriptor
disconnect-IsAligned before after peer clears s s' splits e a =
    let (hb, ha, distinct) = Distinct-split before peer after (subst Distinct splits a.distinct) in
    let (cleared, _, e1) = bind-eq_some (clears_canvas peer.descriptor s) _ e in
    let (descriptors, removed, e2) =
      bind-eq_some (remove_descriptor peer.descriptor s.descriptors) _ e1 in
    let f : Peer → DeviceDescriptor = λ c. c.descriptor in
    let p : DeviceDescriptor → Bool = λ d. same_descriptor d peer.descriptor in
    let kept : remove_all p s.descriptors ≡ descriptors = ground arith in
    let all : s.descriptors ≡ map f before ++ (peer.descriptor ∷ map f after) =
      a.descriptors ∙ ap (map f) splits ∙ map-append f before (peer ∷ after) in
    let left : remove_all p (map f before ++ (peer.descriptor ∷ map f after))
        ≡ map f before ++ map f after =
      remove_all-one p (map f before) peer.descriptor (map f after)
        (All-map f (λ d. p d ≡ false) before (All-weaken (Apart peer) _ before (λ c h. h.2) hb))
        (same_descriptor_refl peer.descriptor)
        (All-map f (λ d. p d ≡ false) after (All-weaken (Apart peer) _ after (λ c h. h.2) ha)) in
    let connections : remove_all (λ c. c.id == peer.id) s.connections ≡ before ++ after =
      ap (remove_all (λ c. c.id == peer.id)) splits
      ∙ remove_all-one (λ c. c.id == peer.id) before peer after
          (All-weaken (Apart peer) _ before (λ c h. h.0) hb) (ground arith)
          (All-weaken (Apart peer) _ after (λ c h. h.0) ha) in
    let ids = subst (All (λ c. c.id < s.next_id)) splits a.old_ids in
    let result : IsAligned (record s { connections = before ++ after; descriptors = descriptors }) =
      record {
        descriptors = sym kept ∙ ap (remove_all p) all ∙ left ∙ sym (map-append f before after);
        distinct = distinct;
        old_ids =
            All-append (λ c. c.id < s.next_id) before after
              (All-append_left (λ c. c.id < s.next_id) before (peer ∷ after) ids)
              (All-append_right (λ c. c.id < s.next_id) before (peer ∷ after) ids).1;
      } in
    let same : record s { connections = before ++ after; descriptors = descriptors } ≡ s' =
      ap (λ z. record s { connections = z; descriptors = descriptors }) (sym connections) ∙ cc e2 in
    subst IsAligned same result
