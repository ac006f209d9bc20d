-- ===== src/Result.antt =====
-- What a call of the program gives: `Result<T, Error>`, or a panic (`expect`, a date out of range).
use onym_discovery.Prelude.{
  Bool, true, false, ◌≡◌, ◌≢◌, ◌⊎◌, inl, inr, if◌then◌else◌, refl, Option, none, some,
}
use onym_discovery.Error.{Error}

pub data Result {ℓ} (A : Type ℓ) : Type ℓ where
  panic : Result A
  err : Error → Result A
  ok : A → Result A

module _ {ℓ κ} {A : Type ℓ} {B : Type κ} where
  infixl 5 ◌>>=◌ ◌>>◌
  -- `?`, and what follows
  abbrev pub ◌>>=◌ : Result A → (A → Result B) → Result B
  panic >>= next = panic
  err why >>= next = err why
  ok value >>= next = next value

  abbrev pub ◌>>◌ : Result A → Result B → Result B
  first >> then_do = first >>= λ _. then_do

-- `if test { return Err(why) }`, and its opposite
abbrev pub fail_if : Bool → Error → Result (Unit {0})
fail_if test why = if test then err why else ok tt

abbrev pub guard : Bool → Error → Result (Unit {0})
guard test why = if test then ok tt else err why

module _ {ℓ} {A : Type ℓ} where
  -- `map_err`
  abbrev pub map_err : (Error → Error) → Result A → Result A
  map_err f (ok a) = ok a
  map_err f (err e) = err (f e)
  map_err f panic = panic

  -- `ok_or_else`
  abbrev pub ok_or : Option A → Error → Result A
  ok_or none e = err e
  ok_or (some a) e = ok a

  -- `expect`
  abbrev pub expect : Option A → Result A
  expect none = panic
  expect (some a) = ok a

  -- The call returns a value, or it returns an error: it does not panic.
  abbrev pub Returns : Result A → Type ℓ
  Returns r = r ≢ panic

pub map_err-eq-ok {ℓ} :
    {A : Type ℓ} (f : Error → Error) (r : Result A) {a : A} → map_err f r ≡ ok a → r ≡ ok a
map_err-eq-ok f (ok a) h = h
map_err-eq-ok f (err e) h = cc
map_err-eq-ok f panic h = cc

module _ {ℓ κ} {A : Type ℓ} {B : Type κ} (run : Result A) (next : A → Result B) where
  -- A chain that succeeds: the value of its first step, and the rest at that value.
  abbrev pub Succeeds : B → Type (ℓ ⊔ κ)
  Succeeds b = (value : A) × (run ≡ ok value) × (next value ≡ ok b)

  -- A chain that fails does so in its first step or in the rest.
  abbrev pub Fails : Error → Type (ℓ ⊔ κ)
  Fails e = (run ≡ err e) ⊎ ((value : A) × (run ≡ ok value) × (next value ≡ err e))

module _ {ℓ κ} {A : Type ℓ} {B : Type κ} where
  pub >>=-eq-ok :
      (run : Result A) (next : A → Result B) {b : B} → run >>= next ≡ ok b → Succeeds run next b
  >>=-eq-ok panic next q = cc
  >>=-eq-ok (err why) next q = cc
  >>=-eq-ok (ok value) next q = (value, refl, q)

  pub >>=-eq-err :
      (run : Result A) (next : A → Result B) {e : Error} → run >>= next ≡ err e → Fails run next e
  >>=-eq-err panic next q = cc
  >>=-eq-err (err why) next q = inl (cc)
  >>=-eq-err (ok value) next q = inr (value, refl, q)

  -- A chain does not panic if its parts do not.
  pub Returns-bind :
      (m : Result A) (f : A → Result B)
      → Returns m
      → ((a : A) → m ≡ ok a → Returns (f a))
      → Returns (m >>= f)
  Returns-bind (ok a) f hm hf = hf a refl
  Returns-bind (err e) f hm hf = λ p. cc
  Returns-bind panic f hm hf = λ p. hm refl

module _ {ℓ} {A : Type ℓ} where
  pub Returns-map_err : (f : Error → Error) (r : Result A) → Returns r → Returns (map_err f r)
  Returns-map_err f (ok a) h = λ p. cc
  Returns-map_err f (err e) h = λ p. cc
  Returns-map_err f panic h = λ p. h refl

  pub Returns-ok_or : (o : Option A) (e : Error) → Returns (ok_or o e)
  Returns-ok_or none e = λ p. cc
  Returns-ok_or (some a) e = λ p. cc

  pub Returns-ok : (a : A) → Returns (ok a)
  Returns-ok a = λ p. cc

pub Returns-fail_if : (b : Bool) (e : Error) → Returns (fail_if b e)
Returns-fail_if true e = λ p. cc
Returns-fail_if false e = λ p. cc

pub Returns-guard : (b : Bool) (e : Error) → Returns (guard b e)
Returns-guard true e = λ p. cc
Returns-guard false e = λ p. cc

pub ruleset returns_rules =
    (Returns-bind, Returns-map_err, Returns-ok_or, Returns-ok, Returns-fail_if, Returns-guard)

-- A call succeeds or not.
pub ok-cases {ℓ} :
    {A : Type ℓ} (r : Result A) → ((value : A) × (r ≡ ok value)) ⊎ ((value : A) → r ≢ ok value)
ok-cases panic = inr (λ value q. cc)
ok-cases (err why) = inr (λ value q. cc)
ok-cases (ok value) = inl (value, refl)

pub Result-cases {ℓ} :
    {A : Type ℓ} (r : Result A)
    → ((value : A) × (r ≡ ok value)) ⊎ ((r ≡ panic) ⊎ ((why : Error) × (r ≡ err why)))
Result-cases panic = inr (inl refl)
Result-cases (err why) = inr (inr (why, refl))
Result-cases (ok value) = inl (value, refl)
