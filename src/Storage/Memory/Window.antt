-- ===== src/Storage/Memory/Window.antt =====
-- The sliding-window log of `check_rate` in memory.rs, against the list of all admitted requests.
use g2way.Common.{
  ℕ, zero, suc, ◌+◌, ◌-◌, ◌≡◌, inl, inr, refl, sym, ap, ◌∙◌, ◌≤◌, ◌<◌, List, [], ◌∷◌, ◌++◌, some,
  arith, All, All-append, All-map, length, length-append, get_elem?, get_elem?_total, leb,
  Bool-cases, subst,
}
use mathlib.Core.List.{append_assoc}
use native.Mathlib.Decide.{dec_lt}
use g2way.Storage.Memory.{slide, reset_of}

-- The request number `limit` after any admitted one comes at least a whole window later.
abbrev pub Spaced : (limit window : ℕ) → List ℕ → Type 0
Spaced limit window h =
    (i x y : ℕ) → get_elem? h i ≡ some x → get_elem? h (i + limit) ≡ some y → x + window ≤ y

-- The log is what is left of the admitted requests once the expired ones are dropped.
pub record Logs (limit window now : ℕ) (h log : List ℕ) : Type 0 where
  pub gone : List ℕ
  pub split : h ≡ gone ++ log
  pub over : All (λ t. t + window ≤ now) gone
  pub few : length log ≤ limit
  pub past : All (λ t. t ≤ now) log

get_elem?-append_left :
    (xs ys : List ℕ) (i : ℕ) → i < length xs → get_elem? (xs ++ ys) i ≡ get_elem? xs i
get_elem?-append_left [] ys i h = absurd (omega arith)
get_elem?-append_left (x ∷ xs) ys zero h = refl
get_elem?-append_left (x ∷ xs) ys (suc i) h = get_elem?-append_left xs ys i (omega arith)

get_elem?-snoc :
    (xs : List ℕ) (a i y : ℕ)
    → length xs ≤ i
    → get_elem? (xs ++ a ∷ []) i ≡ some y
    → (i ≡ length xs) × (y ≡ a)
get_elem?-snoc [] a zero y h e = (refl, ground arith)
get_elem?-snoc [] a (suc i) y h e = cc
get_elem?-snoc (x ∷ xs) a zero y h e = absurd (omega arith)
get_elem?-snoc (x ∷ xs) a (suc i) y h e =
    let (at, same) = get_elem?-snoc xs a i y (omega arith) e in (ap suc at, same)

get_elem?-append_right :
    (xs ys : List ℕ) (i : ℕ) → get_elem? (xs ++ ys) (length xs + i) ≡ get_elem? ys i
get_elem?-append_right [] ys i = ap (get_elem? ys) (omega arith)
get_elem?-append_right (x ∷ xs) ys i =
    ap (get_elem? ((x ∷ xs) ++ ys)) (suc_add (length xs) i) ∙ get_elem?-append_right xs ys i
  where
    suc_add : (n m : ℕ) → suc n + m ≡ suc (n + m)
    suc_add n m = omega arith

get_elem?-All : (P : ℕ → Type 0) (xs : List ℕ) (i x : ℕ) → All P xs → get_elem? xs i ≡ some x → P x
get_elem?-All P [] i x h e = cc
get_elem?-All P (y ∷ xs) zero x (p, h) e = subst P (ground arith) p
get_elem?-All P (y ∷ xs) (suc i) x (p, h) e = get_elem?-All P xs i x h e

pub later-Logs :
    (limit window now later : ℕ) (h log : List ℕ)
    → now ≤ later
    → Logs limit window now h log
    → Logs limit window later h log
later-Logs limit window now later h log le v = record {
  gone = v.gone;
  split = v.split;
  over = All-map (λ t. t + window ≤ now) _ (λ t p. omega arith) v.gone v.over;
  few = v.few;
  past = All-map (λ t. t ≤ now) _ (λ t p. omega arith) log v.past;
}

-- What `slide` drops is over.
pub slide-Logs :
    (limit window now : ℕ) (h log : List ℕ)
    → Logs limit window now h log
    → Logs limit window now h (slide window now log)
unfolding slide
slide-Logs limit window now h [] v = v
slide-Logs limit window now h (t ∷ log) v = elim (Bool-cases (leb window (now - t))) [
  | inl out ↦ rw out (
      slide-Logs limit window now h log (record {
        gone = v.gone ++ t ∷ [];
        split = v.split ∙ sym (append_assoc v.gone (t ∷ []) log);
        over =
            All-append (λ u. u + window ≤ now) v.gone (t ∷ []) v.over
              (ground (arith, v.past.0), tt);
        few = omega (arith, v.few);
        past = v.past.1;
      }))
  | inr live ↦ rw live v
]

-- What `slide` leaves starts with a request that still counts.
pub slide-head :
    (window now x : ℕ) (log : List ℕ)
    → get_elem? (slide window now log) 0 ≡ some x
    → now < x + window
unfolding slide
slide-head window now x [] e = cc
slide-head window now x (t ∷ log) e = ground (arith, slide-head window now x log)

-- The new request is recorded.
pub push-Logs :
    (limit window now : ℕ) (h log : List ℕ)
    → Logs limit window now h log
    → length log < limit
    → Logs limit window now (h ++ now ∷ []) (log ++ now ∷ [])
push-Logs limit window now h log v lt = record {
  gone = v.gone;
  split = rw v.split (append_assoc v.gone log (now ∷ []));
  over = v.over;
  few = omega (arith, length-append log (now ∷ []));
  past = All-append (λ t. t ≤ now) log (now ∷ []) v.past (omega arith, tt);
}

-- And keeps the requests spaced.
pub push-Spaced :
    (limit window now : ℕ) (h log : List ℕ)
    → Logs limit window now h log
    → length log < limit
    → Spaced limit window h
    → Spaced limit window (h ++ now ∷ [])
push-Spaced limit window now h log v lt sp i x y ex ey = elim (dec_lt (i + limit) (length h)) [
  | yes inside ↦
      sp i x y (sym (get_elem?-append_left h (now ∷ []) i (omega arith)) ∙ ex)
        (sym (get_elem?-append_left h (now ∷ []) (i + limit) inside) ∙ ey)
  | no outside ↦
      let (last, is_now) = get_elem?-snoc h now (i + limit) y (omega arith) ey in
      let whole = ap length v.split ∙ length-append v.gone log in
      let in_h = sym (get_elem?-append_left h (now ∷ []) i (omega arith)) ∙ ex in
      let in_gone =
        sym (get_elem?-append_left v.gone log i (omega arith))
        ∙ (sym (ap (λ (l : List ℕ). get_elem? l i) v.split) ∙ in_h) in
      rw is_now (get_elem?-All (λ t. t + window ≤ now) v.gone i x v.over in_gone)
]

-- A log with no room left starts with the request that came `limit` before the next one.
pub full-Logs :
    (limit window now x : ℕ) (h log : List ℕ)
    → Logs limit window now h log
    → limit ≤ length log
    → get_elem? h (length h - limit) ≡ some x
    → get_elem? log 0 ≡ some x
full-Logs limit window now x h log v full e =
    let whole = ap length v.split ∙ length-append v.gone log in
    let at : length h - limit ≡ length v.gone + 0 = omega (arith, v.few) in
    sym (get_elem?-append_right v.gone log 0)
    ∙ (ap (get_elem? (v.gone ++ log)) (sym at)
        ∙ (sym (ap (λ (l : List ℕ). get_elem? l (length h - limit)) v.split) ∙ e))

-- With room left, the request that came `limit` before is over.
pub room-Logs :
    (limit window now : ℕ) (h log : List ℕ)
    → Logs limit window now h log
    → length log < limit
    → limit ≤ length h
    → (x : ℕ) × (get_elem? h (length h - limit) ≡ some x) × (x + window ≤ now)
room-Logs limit window now h log v room many =
    let whole = ap length v.split ∙ length-append v.gone log in
    let (x, found) = get_elem?_total v.gone (length h - limit) (omega arith) in
    (
      x,
      ap (λ (l : List ℕ). get_elem? l (length h - limit)) v.split
          ∙ (get_elem?-append_left v.gone log (length h - limit) (omega arith) ∙ found),
      get_elem?-All (λ t. t + window ≤ now) v.gone (length h - limit) x v.over found,
    )

length-slide-le : (window now : ℕ) (log : List ℕ) → length (slide window now log) ≤ length log
unfolding slide
length-slide-le window now [] = omega arith
length-slide-le window now (t ∷ log) = ground (arith, length-slide-le window now log)

-- A full log has room once its oldest request has slid out.
pub slide-reset :
    (limit window now : ℕ) (h log : List ℕ)
    → 0 < limit
    → Logs limit window now h log
    → limit ≤ length log
    → ((x : ℕ) → get_elem? log 0 ≡ some x → now < x + window)
    → length (slide window (now + reset_of window now log) log) < limit
unfolding slide
slide-reset limit window now h [] pos v full live = absurd (omega arith)
slide-reset limit window now h (x ∷ log) pos v full live =
    ground
      (arith, live x refl, v.past.0, v.few, length-slide-le window (now + (window - (now - x))) log)
