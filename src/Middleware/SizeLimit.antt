-- ===== src/Middleware/SizeLimit.antt =====
-- crates/g2-middleware/src/size_limit.rs: the declared and the counted size of a request body.
--
-- A body is the list of its frames: data of some length, or trailers. A frame that the body itself
-- fails with is passed on. The length that the request declares is an argument: the first
-- `Content-Length`, where it parses as a `u64`.
pub mod Counted
pub mod Tests
use g2way.Common.{
  ℕ, ◌-◌, Bool, true, false, List, [], ◌∷◌, Option, none, some, Text, ltb, if◌then◌else◌,
}

pub data Frame : Type 0 where
  data_frame : ℕ → Frame
  trailers : Frame

-- What a poll of a body gives: a frame, the body's own error, or `RequestTooLarge`.
pub data Polled : Type 0 where
  frame : Frame → Polled
  failed : Polled
  too_large : ℕ → Polled

pub record LimitedBody : Type 0 where
  pub inner : List (Option Frame)
  pub limit : ℕ
  pub remaining : ℕ

-- `poll_frame`, once the inner body is ready; `none` is the end of the body.
pub poll_frame : LimitedBody → Option Polled × LimitedBody
poll_frame body = elim body.inner [
  | [] ↦ (none, body)
  | f ∷ rest ↦ elim f [
    | none ↦ (some failed, record body { inner = rest })
    | some g ↦ elim g [
      | trailers ↦ (some (frame trailers), record body { inner = rest })
      | data_frame len ↦
          if ltb body.remaining len
          then (some (too_large body.limit), record body { inner = rest; remaining = 0 })
          else (
            some (frame (data_frame len)),
            record body { inner = rest; remaining = body.remaining - len },
          )
    ]
  ]
]

abbrev pub over : Option ℕ → ℕ → Bool
over none limit = false
over (some len) limit = ltb limit len

-- A 413 at once, or the inner service with the body counted.
pub call : ℕ → Option ℕ → List (Option Frame) → Option LimitedBody
call limit declared inner =
    if over declared limit
    then none
    else some (record { inner = inner; limit = limit; remaining = limit })
