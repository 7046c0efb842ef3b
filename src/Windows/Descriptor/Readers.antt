-- ===== src/Windows/Descriptor/Readers.antt =====
-- The readers of the Windows deserializer against those of the Linux parser.
use open_cam.Prelude.{
  ℕ, zero, suc, ◌≤◌, ◌≡◌, refl, sym, ap, ◌∙◌, Bool, true, false, [], ◌∷◌, Bytes, length, take, drop,
  arith, le→ltb, length-take,
}
use open_cam.Descriptor
use open_cam.Descriptor.Layout.Texts
use open_cam.Descriptor.{Resolution, Filter, is_empty}
use open_cam.Windows.Reader.{
  Reason, Result, ok, ◌>>=◌, ◌>>◌, throw_if, u16, string, string_of_length, valid_utf8,
}
use open_cam.Windows.Reader.Cut.{bind-eq_ok, ok-injective}
use open_cam.Windows.Descriptor.{read_resolution, resolution_loop, read_resolutions}

-- Where the one reader gives a value, the other gives one that it stands for, and conversely.
pub record Matches {ℓ κ} {A : Type ℓ} {B : Type κ} (w : Result A) (l : Descriptor.Result B)
    (R : B → A → Type (ℓ ⊔ κ)) : Type (ℓ ⊔ κ) where
  pub to : (a : A) → w ≡ ok a → (b : B) × (l ≡ Descriptor.ok b) × R b a
  pub from : (a : A) (b : B) → l ≡ Descriptor.ok b → R b a → w ≡ ok a

ok-same : {A : Type 0} (a : A) → Matches (ok a) (Descriptor.ok a) (λ b a. (a ≡ b) × Unit {0})
ok-same a = record {
  to = λ a' e. (a, refl, (sym (ok-injective e), tt));
  from = λ a' b' e r. ap (λ z. ok z) (Descriptor.Layout.Texts.ok-injective e ∙ sym r.0);
}

-- A test that the Linux program makes too.
pub throw-matches :
    {A B : Type 0} (test : Bool) (reason : Reason) (error : Descriptor.Error) (w : Result A)
    (l : Descriptor.Result B) (R : B → A → Type 0)
    → Matches w l R
    → Matches (throw_if test reason >> w) (Descriptor.◌>>◌ (Descriptor.throw_if test error) l) R
throw-matches true reason error w l R m = record {
  to = λ a e. absurd (cc e);
  from = λ a b e r. absurd (cc e);
}
throw-matches false reason error w l R m = m

-- A chain whose first steps give the same value, with a property that the later value tells.
pub bind-matches :
    {A B C : Type 0} (w : Result A) (l : Descriptor.Result A) (P : A → Type 0) (f : A → Result B)
    (g : A → Descriptor.Result C) (R : C → B → Type 0)
    → Matches w l (λ b a. (a ≡ b) × P b)
    → ((a : A) (b : B) (c : C) → g a ≡ Descriptor.ok c → R c b → P a)
    → ((a : A) → P a → Matches (f a) (g a) R)
    → Matches (w >>= f) (Descriptor.◌>>=◌ l g) R
bind-matches {A} {B} {C} w l P f g R first told later = record {
  to = λ b e.
      let (a, e1, e2) = bind-eq_ok w f e in
      let (a', l1, (same, p)) = first.to a e1 in
      let (c, l2, r) = (later a' p).to b (ap f (sym same) ∙ e2) in (c, rw l1 l2, r);
  from = λ b c e r.
      let (a, l1, l2) = Descriptor.Layout.Texts.bind-eq_ok l g e in
      let p = told a b c l2 r in rw (first.from a a l1 (refl, p)) ((later a p).from b c l2 r);
}

pub u16-matches :
    (x : Bytes) → Matches (u16 x) (Descriptor.read_uint16 x) (λ b a. (a ≡ b) × Unit {0})
unfolding u16 Descriptor.read_uint16
u16-matches [] = record { to = λ a e. absurd (cc e); from = λ a b e r. absurd (cc e) }
u16-matches (h ∷ []) = record { to = λ a e. absurd (cc e); from = λ a b e r. absurd (cc e) }
u16-matches (h ∷ k ∷ x) = record {
  to = λ a e. (a, cc e, (refl, tt));
  from = λ a b e r. cc (e, r.0);
}

abbrev pub IsWithin : ℕ → Bytes × Bytes → Type 0
IsWithin limit p = length p.0 ≤ limit

string_of_length-matches :
    (limit n : ℕ) (x : Bytes)
    → limit ≤ 2048
    → Matches
        (string_of_length limit n x)
        (Descriptor.string_of_length n x)
        (λ b a. (a ≡ b) × IsWithin limit b)
unfolding string_of_length valid_utf8 Descriptor.string_of_length
string_of_length-matches limit n x small = record {
  to = λ a e.
      let within : n ≤ limit = ground arith in
      let enough : n ≤ length x = ground arith in
      let value : a ≡ (take n x, drop n x) = ground arith in
      (a, ground arith, (refl, rw value (omega (arith, length-take n x))));
  from = λ a b e r.
      let enough : n ≤ length x = ground arith in
      let value : b ≡ (take n x, drop n x) = ground arith in
      let size : length b.0 ≡ length (take n x) = ap (λ p. length p.0) value in
      let within : n ≤ limit = omega (arith, length-take n x, size, r.1) in
      let utf8 : Descriptor.Utf8.is_valid_utf8 (take n x) ≡ true = ground arith in
      let printable : Descriptor.has_control (take n x) ≡ false = ground arith in
      rw (le→ltb limit n within, le→ltb (length x) n enough, utf8, printable, r.0, value) refl;
}

pub string-matches :
    (limit : ℕ) (x : Bytes)
    → limit ≤ 2048
    → Matches (string limit x) (Descriptor.read_string x) (λ b a. (a ≡ b) × IsWithin limit b)
unfolding string Descriptor.read_string
string-matches limit x small =
    bind-matches (u16 x) (Descriptor.read_uint16 x) _ _ _ _ (u16-matches x) (λ a b c e r. tt)
      (λ a _. string_of_length-matches limit a.0 a.1 small)

resolution-matches :
    (x : Bytes)
    → Matches (read_resolution x) (Descriptor.read_resolution x) (λ b a. (a ≡ b) × Unit {0})
unfolding read_resolution Descriptor.read_resolution
resolution-matches x =
    bind-matches (u16 x) (Descriptor.read_uint16 x) _ _ _ _ (u16-matches x) (λ a b c e r. tt)
      (λ a _.
        bind-matches (u16 a.1) (Descriptor.read_uint16 a.1) _ _ _ _ (u16-matches a.1)
          (λ a b c e r. tt) (λ b _. throw-matches _ _ _ _ _ _ (ok-same _)))

loop-matches :
    (rounds : ℕ) (x : Bytes)
    → Matches
        (resolution_loop rounds x)
        (Descriptor.resolution_loop rounds x)
        (λ b a. (a ≡ b) × Unit {0})
unfolding resolution_loop Descriptor.resolution_loop
loop-matches zero x = ok-same _
loop-matches (suc rounds) x =
    bind-matches (read_resolution x) (Descriptor.read_resolution x) _ _ _ _ (resolution-matches x)
      (λ a b c e r. tt)
      (λ a _.
        bind-matches (resolution_loop rounds a.1) (Descriptor.resolution_loop rounds a.1) _ _ _ _
          (loop-matches rounds a.1) (λ a b c e r. tt) (λ b _. ok-same _))

pub resolutions-matches :
    (x : Bytes)
    → Matches (read_resolutions x) (Descriptor.read_resolutions x) (λ b a. (a ≡ b) × Unit {0})
unfolding read_resolutions Descriptor.read_resolutions
resolutions-matches x =
    bind-matches (u16 x) (Descriptor.read_uint16 x) _ _ _ _ (u16-matches x) (λ a b c e r. tt)
      (λ a _. throw-matches _ _ _ _ _ _ (loop-matches a.0 a.1))

-- The limit of a URL is the Linux program's.
pub url-matches :
    (x : Bytes) → Matches (string 2048 x) (Descriptor.read_string x) (λ b a. (a ≡ b) × Unit {0})
unfolding Descriptor.read_string Descriptor.string_of_length
url-matches x = record {
  to = λ a e.
      let (b, l, (same, _)) = (string-matches 2048 x (omega arith)).to a e in (b, l, (same, tt));
  from = λ a b e r.
      let (p, count, e1) = Descriptor.Layout.Texts.bind-eq_ok (Descriptor.read_uint16 x) _ e in
      let within : p.0 ≤ 2048 = ground arith in
      let value : b ≡ (take p.0 p.1, drop p.0 p.1) = ground arith in
      let size : length b.0 ≤ 2048 =
        omega (arith, ap (λ z. length z.0) value, length-take p.0 p.1) in
      (string-matches 2048 x (omega arith)).from a b e (r.0, size);
}
