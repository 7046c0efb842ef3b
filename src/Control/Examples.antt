-- ===== src/Control/Examples.antt =====
-- A small operating system and a small cipher on which the control protocol runs, and instances of
-- its theorems there.
mod Transfers
mod Channels
use Prim.Native.Nat.{bit_and, bit_or}
use open_cam.Prelude.{
  ℕ, suc, ◌+◌, ◌%◌, ◌≤◌, ◌<◌, ◌≡◌, ◌≢◌, refl, sym, ap, ◌∙◌, subst, inl, inr, Bool, true, false,
  List, [], ◌∷◌, ◌++◌, append-nil, Bytes, equal_bytes, equal_bytes_iff, length, take, drop,
  take-append-drop, replicate, min, length-take, length-replicate, if◌then◌else◌, Option, none,
  some, arith, Bool-cases,
}
use open_cam.Prelude.Int.{ℤ}
use open_cam.Control.Os.{
  Errno, Os, PollAnswer, ready, SendAnswer, accepted, send_failed, RecvAnswer, got, recv_failed,
  Progress, Stream,
}
use open_cam.Control.Evp.{Evp, HkdfMode}
use open_cam.Control.Gcm.Law.{AesGcm}

pub record Machine : Type 0 where
  pub time : ℕ
  pub sent : Bytes
  pub inbox : Bytes

-- One stream, which takes and gives at most 30 bytes at a time; a poll takes a nanosecond.
abbrev pub small_os : Os
small_os = record {
  World = Machine;
  now = λ w. (w.time, w);
  poll = λ fd events timeout w. (ready 5, record w { time = suc w.time });
  send = λ fd bytes w. (
    accepted (min 30 (length bytes)),
    record w { sent = w.sent ++ take (min 30 (length bytes)) bytes },
  );
  recv = λ fd size w.
      (got (take (min 30 size) w.inbox), record w { inbox = drop (min 30 size) w.inbox });
}

abbrev pub small_progress : Progress small_os
small_progress = record {
  time = λ w. w.time;
  now_time = λ w. refl;
  after_now = λ w. omega arith;
  after_poll = λ fd events timeout w. omega arith;
  after_send = λ fd bytes w. omega arith;
  after_recv = λ fd size w. omega arith;
}

pub send_accepted_part :
    (bytes before : Bytes) (n : ℕ)
    → accepted (min 30 (length bytes)) ≡ accepted n
    → (n ≤ length bytes) × (before ++ take (min 30 (length bytes)) bytes ≡ before ++ take n bytes)
send_accepted_part bytes before n e =
    let same : min 30 (length bytes) ≡ n = cc in
    (omega (arith, same), ap (λ k. before ++ take k bytes) same)

pub recv_got_part :
    (size : ℕ) (inbox bytes : Bytes)
    → got (take (min 30 size) inbox) ≡ got bytes
    → (length bytes ≤ size) × (inbox ≡ bytes ++ drop (min 30 size) inbox)
recv_got_part size inbox bytes e =
    let same : take (min 30 size) inbox ≡ bytes = cc in
    (
      omega (arith, ap length same, length-take (min 30 size) inbox),
      sym (take-append-drop (min 30 size) inbox) ∙ ap (λ t. t ++ drop (min 30 size) inbox) same,
    )

abbrev pub small_stream : (fd : ℕ) → Stream small_os fd
small_stream fd = record {
  sent = λ w. w.sent;
  inbox = λ w. w.inbox;
  now_sent = λ w. refl;
  now_inbox = λ w. refl;
  poll_sent = λ events timeout w. refl;
  poll_inbox = λ events timeout w. refl;
  send_accepted = λ bytes w n e. send_accepted_part bytes w.sent n e;
  send_rejected = λ bytes w x e. absurd (cc);
  send_inbox = λ bytes w. refl;
  recv_got = λ size w bytes e. recv_got_part size w.inbox bytes e;
  recv_rejected = λ size w x e. absurd (cc);
  recv_sent = λ size w. refl;
}

-- What a cipher context has taken, with the expected tag.
pub record Context : Type 0 where
  pub key : Bytes
  pub nonce : Bytes
  pub aad : Bytes
  pub body : Bytes
  pub expected : Bytes

abbrev empty_context : Context
empty_context = record { key = []; nonce = []; aad = []; body = []; expected = [] }

abbrev small_tag : Bytes → Bytes
small_tag body = replicate 16 (length body)

-- Hashes that count, and a cipher that leaves the text and tags it with its length.
abbrev pub small_evp : Evp
small_evp = record {
  hmac = λ key input. some (replicate 32 (length input));
  Kdf = Bytes;
  kdf_new = some [];
  derive_init = λ k. some k;
  set_mode = λ m k. some k;
  set_md = λ k. some k;
  set_salt = λ salt k. some k;
  set_key = λ key k. some k;
  add_info = λ info k. some (k ++ info);
  derive = λ n k. some (replicate n (length k));
  Cipher = Context;
  cipher_new = some empty_context;
  encrypt_init = λ c. some c;
  decrypt_init = λ c. some c;
  set_iv_length = λ n c. some c;
  encrypt_key =
      λ key nonce c. some (record { key = key; nonce = nonce; aad = []; body = []; expected = [] });
  decrypt_key =
      λ key nonce c. some (record { key = key; nonce = nonce; aad = []; body = []; expected = [] });
  encrypt_aad = λ aad c. some (record c { aad = aad });
  decrypt_aad = λ aad c. some (record c { aad = aad });
  encrypt_update = λ text c. some (text, record c { body = text });
  decrypt_update = λ text c. some (text, record c { body = text });
  encrypt_final = λ c. some ([], c);
  decrypt_final = λ c. if equal_bytes c.expected (small_tag c.body) then some ([], c) else none;
  get_tag = λ n c. some (small_tag c.body);
  set_tag = λ n t c. some (record c { expected = t });
}

-- A context has taken exactly this.
abbrev Took : Context → Bytes → Bytes → Bytes → Bytes → Type 0
Took c key nonce aad body = (c.key ≡ key) × (c.nonce ≡ nonce) × (c.aad ≡ aad) × (c.body ≡ body)

pub final_accepts :
    (c : Context) (body t : Bytes)
    → c.body ≡ body
    → c.expected ≡ t
    → t ≡ small_tag body
    → (c' : Context) × (small_evp.decrypt_final c ≡ some ([], c'))
final_accepts c body t b x e =
    let same : equal_bytes c.expected (small_tag c.body) ≡ true =
      (equal_bytes_iff c.expected (small_tag c.body)).1 (x ∙ e ∙ ap small_tag (sym b)) in
    (c, rw same)

pub final_rejects :
    (c : Context) (body t : Bytes)
    → c.body ≡ body
    → c.expected ≡ t
    → t ≢ small_tag body
    → small_evp.decrypt_final c ≡ none
final_rejects c body t b x h = elim (Bool-cases (equal_bytes c.expected (small_tag c.body))) [
  | inl same ↦
      absurd (h (sym x ∙ (equal_bytes_iff c.expected (small_tag c.body)).0 same ∙ ap small_tag b))
  | inr other ↦ rw other
]

pub small_gcm : AesGcm small_evp
small_gcm = record {
  stream = λ key nonce text. text;
  tag = λ key nonce aad text. small_tag text;
  stream_twice = λ key nonce text. refl;
  length-stream = λ key nonce text. refl;
  length-tag = λ key nonce aad text. length-replicate 16 (length text);
  Sealing = λ c key nonce aad body. Took c key nonce aad body;
  Opening = λ c key nonce aad body. Took c key nonce aad body;
  Tagged = λ c key nonce aad body t. Took c key nonce aad body × (c.expected ≡ t);
  sealing_key = λ key nonce c c' e. ground arith;
  sealing_aad = λ key nonce aad c c' s e. ground arith;
  sealing_update = λ key nonce aad text body c c' s e. ground arith;
  sealing_final = λ key nonce aad body last c c' s e. ground arith;
  sealing_tag = λ key nonce aad body t c s e. ground (arith, ap small_tag s.3);
  new_context = (empty_context, refl);
  opening_init = λ c. (c, refl);
  opening_iv = λ c. (c, refl);
  opening_key = λ key nonce c. (
    record { key = key; nonce = nonce; aad = []; body = []; expected = [] },
    refl,
    (refl, refl, refl, refl),
  );
  opening_aad = λ key nonce aad c s. (record c { aad = aad }, refl, ground arith);
  opening_update = λ key nonce aad body c s. (record c { body = body }, refl, ground arith);
  opening_tag = λ key nonce aad body t c s. (record c { expected = t }, refl, (s, refl));
  opening_final = λ key nonce aad body t c s e. final_accepts c body t s.0.3 s.1 e;
  opening_reject = λ key nonce aad body t c s h. final_rejects c body t s.0.3 s.1 h;
}
