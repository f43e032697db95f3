-- ===== src/Base/Action.antt =====
-- Asynchronous code: a state that is kept when an error is thrown, and the result or the error.
use mathlib.Core.Bool.{Bool, true, false}
use Prim.Native.String.{String}
use mathlib.Core.Path.{◌≡◌, refl, ap}
use mathlib.Core.Logic.{◌⊎◌, inl, inr}
use boostpow_api.Base.Tests.{if◌then◌else◌}

-- What a rejected promise carries: an error of a library or of the network, a `TypeError` of the
-- language, or an `Error` that the code constructs.
pub data Error : Type 0 where
  external : String → Error
  type_error : Error
  message : String → Error

pub data Result {ℓ} (A : Type ℓ) : Type ℓ where
  ok : A → Result A
  err : Error → Result A

abbrev pub Action : Type 0 → Type 0 → Type 0
Action S A = S → Result A × S

module _ {S : Type 0} where
  abbrev pub pure : {A : Type 0} → A → Action S A
  pure a s = (ok a, s)

  abbrev pub throw : {A : Type 0} → Error → Action S A
  throw e s = (err e, s)

  abbrev pub lift : {A : Type 0} → Result A → Action S A
  lift r s = (r, s)

  abbrev pub gets : {A : Type 0} → (S → A) → Action S A
  gets f s = (ok (f s), s)

  abbrev pub modify : (S → S) → Action S (Unit {0})
  modify f s = (ok tt, f s)

  -- `if (test) { body }`
  abbrev pub when : Bool → Action S (Unit {0}) → Action S (Unit {0})
  when b m s = if b then m s else (ok tt, s)

  -- `try { m } catch (e) { h(e) }`
  abbrev pub catch : {A : Type 0} → Action S A → (Error → Action S A) → Action S A
  catch m h s = let (r, s') = m s in elim r [ ok a ↦ (ok a, s') | err e ↦ h e s' ]

  infixl 5 ◌>>=◌ ◌>>◌
  abbrev pub ◌>>=◌ : {A B : Type 0} → Action S A → (A → Action S B) → Action S B
  ◌>>=◌ m f s = let (r, s') = m s in elim r [ ok a ↦ f a s' | err e ↦ (err e, s') ]

  abbrev pub ◌>>◌ : {B : Type 0} → Action S (Unit {0}) → Action S B → Action S B
  m >> k = m >>= λ _. k

  -- A statement whose value is not used.
  abbrev pub ignore : {A : Type 0} → Action S A → Action S (Unit {0})
  ignore m = m >>= λ _. pure tt

pub Result-cases {ℓ} :
    {A : Type ℓ} (r : Result A) → ((a : A) × (r ≡ ok a)) ⊎ ((e : Error) × (r ≡ err e))
Result-cases (ok a) = inl (a, refl)
Result-cases (err e) = inr (e, refl)

abbrev pub map_result {ℓ κ} : {A : Type ℓ} {B : Type κ} → (A → B) → Result A → Result B
map_result f (ok a) = ok (f a)
map_result f (err e) = err e

module _ {S A B : Type 0} (m : Action S A) (s : S) where
  pub >>=-ok : (f : A → Action S B) {a : A} {s' : S} → m s ≡ (ok a, s') → (m >>= f) s ≡ f a s'
  >>=-ok f e = ap (λ (x : Result A × S). elim x.0 [ ok b ↦ f b x.1 | err h ↦ (err h, x.1) ]) e

  pub >>=-err :
      (f : A → Action S B) {e : Error} {s' : S} → m s ≡ (err e, s') → (m >>= f) s ≡ (err e, s')
  >>=-err f h = ap (λ (x : Result A × S). elim x.0 [ ok b ↦ f b x.1 | err e ↦ (err e, x.1) ]) h

  pub >>=-pure : (f : A → B) → (m >>= λ a. pure (f a)) s ≡ (map_result f (m s).0, (m s).1)
  >>=-pure f = elim (Result-cases (m s).0) [
    | inl (a, e) ↦ rw (e, ◌>>=◌)
    | inr (e, h) ↦ rw (h, ◌>>=◌)
  ]

-- What the state satisfies before, it satisfies afterwards, whatever the result.
abbrev pub Keeps : {S A : Type 0} → (S → Type 0) → Action S A → Type 0
Keeps {S} P m = (s : S) → P s → P (m s).1

pub >>=-Keeps :
    {S A B : Type 0} (P : S → Type 0) (m : Action S A) (f : A → Action S B)
    → Keeps P m
    → ((a : A) → Keeps P (f a))
    → Keeps P (m >>= f)
>>=-Keeps P m f h k s p = elim (Result-cases (m s).0) [
  | inl (a, e) ↦ rw (e, ◌>>=◌) (k a (m s).1 (h s p))
  | inr (x, e) ↦ rw (e, ◌>>=◌) (h s p)
]

pub when-Keeps :
    {S : Type 0} (P : S → Type 0) (b : Bool) (m : Action S (Unit {0}))
    → Keeps P m
    → Keeps P (when b m)
when-Keeps P true m h s p = h s p
when-Keeps P false m h s p = p

pub ok≢err {ℓ} : {A : Type ℓ} {a : A} {e : Error} → ◌≡◌ {A = Result A} (ok a) (err e) → ⊥
ok≢err h = cc

pub ok_injective {ℓ} : {A : Type ℓ} {a b : A} → ◌≡◌ {A = Result A} (ok a) (ok b) → a ≡ b
ok_injective h = cc

-- What holds of a result that is not an error, and of the state with it.
abbrev pub Outcome : {S A : Type 0} → (A → S → Type 0) → Result A × S → Type 0
Outcome Q (ok a, s) = Q a s
Outcome Q (err e, s) = Unit

-- From a state with the first property the action throws, or ends with the second.
abbrev pub Ensures : {S A : Type 0} → (S → Type 0) → Action S A → (A → S → Type 0) → Type 0
Ensures {S} P m Q = (s : S) → P s → Outcome Q (m s)

pub >>=-Ensures :
    {S A B : Type 0} (P : S → Type 0) (Q : A → S → Type 0) (R : B → S → Type 0) (m : Action S A)
    (f : A → Action S B)
    → Ensures P m Q
    → ((a : A) → Ensures (Q a) (f a) R)
    → Ensures P (m >>= f) R
>>=-Ensures P Q R m f h k s p = elim (Result-cases (m s).0) [
  | inl (a, e) ↦ rw (e, ◌>>=◌) (k a (m s).1 (rw e at (h s p)))
  | inr (x, e) ↦ rw (e, ◌>>=◌) tt
]

pub catch-Ensures :
    {S A : Type 0} (P : S → Type 0) (Q : A → S → Type 0) (m : Action S A)
    (handler : Error → Action S A)
    → Ensures P m Q
    → ((e : Error) → Ensures (λ s. Unit {0}) (handler e) Q)
    → Ensures P (catch m handler) Q
catch-Ensures P Q m handler h k s p = elim (Result-cases (m s).0) [
  | inl (a, e) ↦ rw (e, catch) (rw e at (h s p))
  | inr (x, e) ↦ rw (e, catch) (k x (m s).1 tt)
]

pub lift-Ensures : {S A : Type 0} (P : S → Type 0) (r : Result A) → Ensures P (lift r) (λ a s. P s)
lift-Ensures P (ok a) s p = p
lift-Ensures P (err e) s p = tt

pub err_injective {ℓ} : {A : Type ℓ} {e h : Error} → ◌≡◌ {A = Result A} (err e) (err h) → e ≡ h
err_injective k = cc

pub catch-Keeps :
    {S A : Type 0} (P : S → Type 0) (m : Action S A) (handler : Error → Action S A)
    → Keeps P m
    → ((e : Error) → Keeps P (handler e))
    → Keeps P (catch m handler)
catch-Keeps P m handler h k s p = elim (Result-cases (m s).0) [
  | inl (a, e) ↦ rw (e, catch) (h s p)
  | inr (x, e) ↦ rw (e, catch) (k x (m s).1 (h s p))
]
