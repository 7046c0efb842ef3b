-- ===== src/MediaPipeline.antt =====
-- The state of linux/src/media_pipeline.cpp: `start`, `stop`, `state`, `errorMessage`, `setFailure`,
-- and the worker's thread next to them. The worker itself is in Worker.
pub mod Media
pub mod Output
pub mod Packing
pub mod Writing
pub mod Worker
pub mod Coherence
mod Examples
use open_cam.Prelude.{
  ℕ, zero, suc, Bool, true, false, not, ◌||◌, ◌≡◌, List, [], ◌∷◌, Option, none, some, if◌then◌else◌,
  Bytes,
}
use open_cam.Host.{PipelineState, starting, running, stopped, failed}
use open_cam.MediaPipeline.Output.{Failure}
use open_cam.MediaPipeline.Worker.{Outcome}

-- Where the worker stands: not running, before or after it stored `Running`, between the two stores
-- of `setFailure`, or returned and not yet joined.
pub data Phase : Type 0 where
  absent preparing streaming failing finished : Phase

-- The fields, and the worker's phase. `errorMessage_` is empty where `message` is `none`.
pub record MediaPipeline : Type 0 where
  pub stop_requested : Bool
  pub state : PipelineState
  pub error_message : Option Failure
  pub phase : Phase

abbrev pub new_pipeline : MediaPipeline
new_pipeline = record {
  stop_requested = false;
  state = stopped;
  error_message = none;
  phase = absent;
}

-- `worker_.joinable()`: a thread that has returned is joinable until it is joined.
unfoldable pub is_joinable : Phase → Bool
is_joinable absent = false
is_joinable preparing = true
is_joinable streaming = true
is_joinable failing = true
is_joinable finished = true

unfoldable pub is_empty : Bytes → Bool
is_empty [] = true
is_empty (_ ∷ _) = false

unfoldable pub start : Bytes → Bytes → MediaPipeline → Bool × MediaPipeline
start url device p =
    if is_joinable p.phase || is_empty url || is_empty device then (false, p) else (
      true,
      record { stop_requested = false; state = starting; error_message = none; phase = preparing },
    )

-- `stop`, the part before the worker is joined and the part after. Joining waits until the worker
-- has returned.
unfoldable pub request_stop : MediaPipeline → MediaPipeline
request_stop p = record p { stop_requested = true }

unfoldable pub after_join : MediaPipeline → MediaPipeline
after_join p =
    let state' : PipelineState = elim p.state [
      | failed ↦ failed
      | starting ↦ stopped
      | running ↦ stopped
      | stopped ↦ stopped
    ] in
    record p { state = state'; phase = absent }

-- The two stores of `setFailure`.
unfoldable pub store_message : Failure → MediaPipeline → MediaPipeline
store_message e p = record p { error_message = some e; phase = failing }

unfoldable pub store_failed : MediaPipeline → MediaPipeline
store_failed p = record p { state = failed; phase = finished }

-- One step of the controller's thread or of the worker's. The worker returns without a message only
-- where it has read the stop flag as set.
pub data Step : MediaPipeline → MediaPipeline → Type 0 where
  starts :
      (url device : Bytes) (p : MediaPipeline)
      → (start url device p).0 ≡ true
      → Step p (start url device p).1
  requests : (p : MediaPipeline) → Step p (request_stop p)
  joins : (p : MediaPipeline) → p.stop_requested ≡ true → p.phase ≡ finished → Step p (after_join p)
  passes : (p : MediaPipeline) → p.stop_requested ≡ true → p.phase ≡ absent → Step p (after_join p)
  streams :
      (p : MediaPipeline)
      → p.phase ≡ preparing
      → Step p (record p { state = running; phase = streaming })
  gives_up : (p : MediaPipeline) (e : Failure) → p.phase ≡ preparing → Step p (store_message e p)
  breaks_off : (p : MediaPipeline) (e : Failure) → p.phase ≡ streaming → Step p (store_message e p)
  fails : (p : MediaPipeline) → p.phase ≡ failing → Step p (store_failed p)
  returns_early :
      (p : MediaPipeline)
      → p.phase ≡ preparing
      → p.stop_requested ≡ true
      → Step p (record p { phase = finished })
  returns :
      (p : MediaPipeline)
      → p.phase ≡ streaming
      → p.stop_requested ≡ true
      → Step p (record p { phase = finished })

pub data Reach (p : MediaPipeline) : MediaPipeline → Type 0 where
  here : Reach p p
  next : {q r : MediaPipeline} → Reach p q → Step q r → Reach p r
