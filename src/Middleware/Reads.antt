-- ===== src/Middleware/Reads.antt =====
-- The async functions of crates/g2-middleware that read a store on their way and may reject: the
-- `?` operator with the state of the store passed along.
use g2way.Common.{◌≡◌, refl, ap, Bool, true, false, Option, none, some, Result, ok, err}

abbrev pub Reads : Type 0 → Type 0 → Type 0 → Type 0
Reads S E A = S → Result A E × S

module _ {S E : Type 0} where
  infixl 5 ◌>>=◌ ◌>>◌
  abbrev pub return_ok : {A : Type 0} → A → Reads S E A
  return_ok a = λ s. (ok a, s)

  abbrev pub reject : {A : Type 0} → E → Reads S E A
  reject e = λ s. (err e, s)

  abbrev pub continue : {A B : Type 0} → Result A E × S → (A → Reads S E B) → Result B E × S
  continue (err e, s') k = (err e, s')
  continue (ok a, s') k = k a s'

  unfoldable pub ◌>>=◌ : {A B : Type 0} → Reads S E A → (A → Reads S E B) → Reads S E B
  m >>= k = λ s. continue (m s) k

  unfoldable pub ◌>>◌ : {A B : Type 0} → Reads S E A → Reads S E B → Reads S E B
  unfolding ◌>>=◌
  m >> k = m >>= λ _. k

  -- `let Some(a) = o else { return Err(e) }`, and `ok_or_else(|| e)?`.
  unfoldable pub some_or : {A : Type 0} → Option A → E → Reads S E A
  some_or none e = reject e
  some_or (some a) e = return_ok a

  unfoldable pub reject_if : Bool → E → Reads S E (Unit {0})
  reject_if b e = elim b [ true ↦ reject e | false ↦ return_ok tt ]

  -- What a call that began in `s` has come to: `Good` of what it returns and of the state it
  -- leaves, or `Bad` of its rejection.
  abbrev pub Ends : {A : Type 0} → (A → S → Type 0) → (E → Type 0) → Result A E × S → Type 0
  Ends Good Bad (ok a, s') = Good a s'
  Ends Good Bad (err e, s') = Bad e

  pub >>=-Ends :
      {A B : Type 0} (Mid : A → S → Type 0) (Good : B → S → Type 0) (Bad : E → Type 0)
      (m : Reads S E A) (k : A → Reads S E B) (s : S)
      → Ends Mid Bad (m s)
      → ((a : A) (s' : S) → Mid a s' → Ends Good Bad (k a s'))
      → Ends Good Bad ((m >>= k) s)
  unfolding ◌>>=◌
  >>=-Ends Mid Good Bad m k s h step = by_result (m s) h
    where
      by_result : (r : Result _ E × S) → Ends Mid Bad r → Ends Good Bad (continue r k)
      by_result (ok a, s') h = step a s' h
      by_result (err e, s') h = h

  pub some_or-Ends :
      {A B : Type 0} (Good : B → S → Type 0) (Bad : E → Type 0) (o : Option A) (e : E)
      (k : A → Reads S E B) (s : S)
      → (o ≡ none → Bad e)
      → ((a : A) → o ≡ some a → Ends Good Bad (k a s))
      → Ends Good Bad ((some_or o e >>= k) s)
  unfolding ◌>>=◌ some_or
  some_or-Ends Good Bad none e k s bad good = bad refl
  some_or-Ends Good Bad (some a) e k s bad good = good a refl

  pub reject_if-Ends :
      {B : Type 0} (Good : B → S → Type 0) (Bad : E → Type 0) (b : Bool) (e : E) (k : Reads S E B)
      (s : S)
      → (b ≡ true → Bad e)
      → (b ≡ false → Ends Good Bad (k s))
      → Ends Good Bad ((reject_if b e >> k) s)
  unfolding ◌>>=◌ ◌>>◌ reject_if
  reject_if-Ends Good Bad true e k s bad good = bad refl
  reject_if-Ends Good Bad false e k s bad good = good refl

  pub Ends-map :
      {A : Type 0} (Good Good' : A → S → Type 0) (Bad Bad' : E → Type 0)
      → ((a : A) (s : S) → Good a s → Good' a s)
      → ((e : E) → Bad e → Bad' e)
      → (r : Result A E × S) → Ends Good Bad r
      → Ends Good' Bad' r
  Ends-map Good Good' Bad Bad' g f (ok a, s') h = g a s' h
  Ends-map Good Good' Bad Bad' g f (err e, s') h = f e h

  -- The same steps where they succeed.
  pub >>=-ok :
      {A B : Type 0} (m : Reads S E A) (k : A → Reads S E B) (s : S) (a : A) (s' : S)
      → m s ≡ (ok a, s')
      → (m >>= k) s ≡ k a s'
  unfolding ◌>>=◌
  >>=-ok m k s a s' e = ap (λ r. continue r k) e

  pub some_or-ok :
      {A B : Type 0} (o : Option A) (e : E) (k : A → Reads S E B) (s : S) (a : A)
      → o ≡ some a
      → (some_or o e >>= k) s ≡ k a s
  unfolding ◌>>=◌ some_or
  some_or-ok o e k s a h = rw h refl

  pub reject_if-ok :
      {B : Type 0} (b : Bool) (e : E) (k : Reads S E B) (s : S)
      → b ≡ false
      → (reject_if b e >> k) s ≡ k s
  unfolding ◌>>=◌ ◌>>◌ reject_if
  reject_if-ok b e k s h = rw h refl
