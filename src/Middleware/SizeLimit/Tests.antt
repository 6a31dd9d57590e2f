-- ===== src/Middleware/SizeLimit/Tests.antt =====
-- The body limit of size_limit.rs at concrete inputs.
use g2way.Common.{◌≡◌, refl, List, [], ◌∷◌, Option, none, some}
use g2way.Middleware.SizeLimit.{
  Frame, data_frame, trailers, Polled, frame, too_large, poll_frame, call,
}
use g2way.Middleware.SizeLimit.Counted.{read, IsLimited, call-IsLimited}

-- Two chunks of six bytes.
abbrev chunks : List (Option Frame)
chunks = some (data_frame 6) ∷ some (data_frame 6) ∷ some trailers ∷ []

abbrev limited : List (Option Frame) → Option (List Polled)
limited inner = elim (call 10 none inner) [ none ↦ none | some body ↦ some (read inner body) ]

cut :
    (call 10 (some 11) chunks ≡ none)
    × (limited chunks ≡ some (frame (data_frame 6) ∷ too_large 10 ∷ []))
    × (limited (some (data_frame 10) ∷ some trailers ∷ [])
        ≡ some (frame (data_frame 10) ∷ frame trailers ∷ []))
unfolding call poll_frame
cut = (refl, refl, refl)

call-IsLimited_example : IsLimited 10 none chunks (call 10 none chunks)
call-IsLimited_example = call-IsLimited 10 none chunks
