-- ===== src/Middleware/SizeLimit/Counted.antt =====
-- How much of a body the inner service can read past the limit of size_limit.rs.
use g2way.Common.{
  ℕ, ◌+◌, ◌-◌, ◌≡◌, ◌⊎◌, inl, inr, refl, ap, ◌≤◌, ◌<◌, true, false, List, [], ◌∷◌, ◌++◌, Option,
  none, some, arith, ltb, Bool-cases,
}
use g2way.Middleware.SizeLimit.{
  Frame, data_frame, trailers, Polled, frame, failed, too_large, LimitedBody, poll_frame, over,
  call,
}

-- A reader stops at the end of the body and at the first error.
abbrev pub read : List (Option Frame) → LimitedBody → List Polled
read [] body = []
read (f ∷ fuel) body =
    let r = poll_frame body in
    let rest = read fuel r.1 in
    elim r.0 [
      | none ↦ []
      | some p ↦ elim p [
        | frame g ↦ frame g ∷ rest
        | failed ↦ failed ∷ []
        | too_large n ↦ too_large n ∷ []
      ]
    ]

-- The bytes of what was read.
abbrev pub bytes : List Polled → ℕ
bytes [] = 0
bytes (p ∷ ps) =
    let rest = bytes ps in
    elim p [
      | frame g ↦ elim g [ data_frame len ↦ len + rest | trailers ↦ rest ]
      | failed ↦ rest
      | too_large n ↦ rest
    ]

-- The bytes that a body holds before its own error, if it has one.
abbrev pub held : List (Option Frame) → ℕ
held [] = 0
held (f ∷ fs) =
    let rest = held fs in
    elim f [ none ↦ 0 | some g ↦ elim g [ data_frame len ↦ len + rest | trailers ↦ rest ] ]

-- What a reader of the body gets without the layer.
abbrev pub plain : List (Option Frame) → List Polled
plain [] = []
plain (f ∷ fs) = let rest = plain fs in elim f [ none ↦ failed ∷ [] | some g ↦ frame g ∷ rest ]

abbrev pub IsTooLarge : ℕ → List Polled → Type 0
IsTooLarge limit ps = (before : List Polled) × (ps ≡ before ++ too_large limit ∷ [])

read_big :
    (len : ℕ) (rest : List (Option Frame)) (limit remaining : ℕ)
    → ltb remaining len ≡ true
    → read
        (some (data_frame len) ∷ rest)
        (record { inner = some (data_frame len) ∷ rest; limit = limit; remaining = remaining })
      ≡ too_large limit ∷ []
unfolding poll_frame
read_big len rest limit remaining h = rw (h, read, poll_frame) refl

read_fits :
    (len : ℕ) (rest : List (Option Frame)) (limit remaining : ℕ)
    → ltb remaining len ≡ false
    → read
        (some (data_frame len) ∷ rest)
        (record { inner = some (data_frame len) ∷ rest; limit = limit; remaining = remaining })
      ≡ frame (data_frame len)
        ∷ read rest (record { inner = rest; limit = limit; remaining = remaining - len })
unfolding poll_frame
read_fits len rest limit remaining h = rw (h, read, poll_frame) (rw (h, poll_frame) refl)

read_lem :
    (inner : List (Option Frame)) (limit remaining : ℕ)
    → let ps = read inner (record { inner = inner; limit = limit; remaining = remaining }) in
      (bytes ps ≤ remaining)
      × (((held inner ≤ remaining) × (ps ≡ plain inner))
          ⊎ ((remaining < held inner) × IsTooLarge limit ps))
unfolding poll_frame
read_lem [] limit remaining = (omega arith, inl (omega arith, refl))
read_lem (none ∷ rest) limit remaining = (omega arith, inl (omega arith, refl))
read_lem (some trailers ∷ rest) limit remaining =
    let (few, why) = read_lem rest limit remaining in
    (
      few,
      elim why [
        | inl (fits, same) ↦ inl (fits, ap (λ ps. frame trailers ∷ ps) same)
        | inr (big, (before, ends)) ↦
            inr (big, (frame trailers ∷ before, ap (λ ps. frame trailers ∷ ps) ends))
      ],
    )
read_lem (some (data_frame len) ∷ rest) limit remaining = elim (Bool-cases (ltb remaining len)) [
  | inl big ↦
      let stops = read_big len rest limit remaining big in
      rw stops (omega arith, inr (ground arith, ([], refl)))
  | inr fits ↦
      let (few, why) = read_lem rest limit (remaining - len) in
      let within : len ≤ remaining = ground arith in
      rw (read_fits len rest limit remaining fits) (
        omega arith,
        elim why [
          | inl (small, same) ↦ inl (omega arith, ap (λ ps. frame (data_frame len) ∷ ps) same)
          | inr (big, (before, ends)) ↦ inr (
            omega arith,
            (frame (data_frame len) ∷ before, ap (λ ps. frame (data_frame len) ∷ ps) ends),
          )
        ],
      )
]

-- What becomes of a request: a 413, or a body for the inner service to read.
abbrev pub IsLimited : ℕ → Option ℕ → List (Option Frame) → Option LimitedBody → Type 0
IsLimited limit declared inner none = over declared limit ≡ true
IsLimited limit declared inner (some body) =
    (over declared limit ≡ false)
    × (bytes (read inner body) ≤ limit)
    × (((held inner ≤ limit) × (read inner body ≡ plain inner))
        ⊎ ((limit < held inner) × IsTooLarge limit (read inner body)))

-- Whatever body a request has, the inner service reads no more than the limit of it. A body within
-- the limit it reads as it is, up to the body's own end or error; a larger one ends in the error of
-- the layer. It is not called at all exactly when a length over the limit is declared.
pub call-IsLimited :
    (limit : ℕ) (declared : Option ℕ) (inner : List (Option Frame))
    → IsLimited limit declared inner (call limit declared inner)
unfolding call
call-IsLimited limit declared inner = elim (Bool-cases (over declared limit)) [
  | inl large ↦ rw large large
  | inr small ↦ let (few, why) = read_lem inner limit limit in rw small (small, few, why)
]
