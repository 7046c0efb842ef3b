-- ===== src/MediaPipeline/Coherence.antt =====
-- What the fields of the pipeline tell the controller, in every order of the two threads' steps.
use open_cam.Prelude.{
  ◌||◌, Bool, true, ◌≡◌, refl, ◌⊎◌, inl, inr, Option, none, some, Bytes, Bool-cases,
}
use open_cam.Host.{PipelineState, starting, running, stopped, failed}
use open_cam.MediaPipeline.Output.{Failure}
use open_cam.MediaPipeline.{
  MediaPipeline, Phase, absent, preparing, streaming, failing, finished, is_joinable, is_empty,
  start, request_stop, after_join, store_message, store_failed, new_pipeline, Step, starts,
  requests, joins, passes, streams, gives_up, breaks_off, fails, returns_early, returns, Reach,
  here, next,
}

abbrev pub HasMessage : Option Failure → Type 0
HasMessage message = (e : Failure) × (message ≡ some e)

-- It has failed, with a message.
abbrev pub Failed : PipelineState → Option Failure → Type 0
Failed state message = (state ≡ failed) × HasMessage message

-- The state and the message in each phase of the worker.
abbrev pub Agrees : Phase → Bool → PipelineState → Option Failure → Type 0
Agrees absent stop state message = ((state ≡ stopped) × (message ≡ none)) ⊎ Failed state message
Agrees preparing stop state message = (state ≡ starting) × (message ≡ none)
Agrees streaming stop state message = (state ≡ running) × (message ≡ none)
Agrees failing stop state message = ((state ≡ starting) ⊎ (state ≡ running)) × HasMessage message
Agrees finished stop state message =
    ((stop ≡ true) × (((state ≡ starting) ⊎ (state ≡ running)) × (message ≡ none)))
    ⊎ Failed state message

abbrev pub IsCoherent : MediaPipeline → Type 0
IsCoherent p = Agrees p.phase p.stop_requested p.state p.error_message

start-IsCoherent :
    (url device : Bytes) (p : MediaPipeline)
    → (start url device p).0 ≡ true
    → IsCoherent (start url device p).1
unfolding start
start-IsCoherent url device p e =
    elim (Bool-cases (is_joinable p.phase || is_empty url || is_empty device)) [
      | inl refused ↦ absurd (cc (rw (refused, start) at e))
      | inr accepted ↦ rw accepted (refl, refl)
    ]

request_stop-Agrees :
    (phase : Phase) (stop : Bool) (state : PipelineState) (message : Option Failure)
    → Agrees phase stop state message
    → Agrees phase true state message
request_stop-Agrees absent stop state message c = c
request_stop-Agrees preparing stop state message c = c
request_stop-Agrees streaming stop state message c = c
request_stop-Agrees failing stop state message c = c
request_stop-Agrees finished stop state message (inl c) = inl (refl, c.1)
request_stop-Agrees finished stop state message (inr c) = inr c

Step-IsCoherent : {p q : MediaPipeline} → Step p q → IsCoherent p → IsCoherent q
unfolding request_stop after_join store_message store_failed
Step-IsCoherent (starts url device p e) c = start-IsCoherent url device p e
Step-IsCoherent (requests p) c =
    request_stop-Agrees p.phase p.stop_requested p.state p.error_message c
Step-IsCoherent (joins p stop h) c = elim (rw h at c) [
  | inl (_, (inl before, quiet)) ↦ inl (rw before refl, quiet)
  | inl (_, (inr before, quiet)) ↦ inl (rw before refl, quiet)
  | inr (before, message) ↦ inr (rw before refl, message)
]
Step-IsCoherent (passes p stop h) c = elim (rw h at c) [
  | inl (before, quiet) ↦ inl (rw before refl, quiet)
  | inr (before, message) ↦ inr (rw before refl, message)
]
Step-IsCoherent (streams p h) c = (refl, (rw h at c).1)
Step-IsCoherent (gives_up p e h) c = (inl (rw h at c).0, (e, refl))
Step-IsCoherent (breaks_off p e h) c = (inr (rw h at c).0, (e, refl))
Step-IsCoherent (fails p h) c = inr (refl, (rw h at c).1)
Step-IsCoherent (returns_early p h stop) c = inl (stop, (inl (rw h at c).0, (rw h at c).1))
Step-IsCoherent (returns p h stop) c = inl (stop, (inr (rw h at c).0, (rw h at c).1))

-- In every order of the two threads' steps from a new pipeline, the state and the message agree with
-- where the worker stands: a pipeline that reads as failed has its message, one that has no worker is
-- stopped or failed, and one whose worker returned without a failure was asked to stop.
pub Reach-IsCoherent : {p : MediaPipeline} → Reach new_pipeline p → IsCoherent p
Reach-IsCoherent here = inl (refl, refl)
Reach-IsCoherent (next r s) = Step-IsCoherent s (Reach-IsCoherent r)
