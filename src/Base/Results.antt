-- ===== src/Base/Results.antt =====
-- Fallible code: Rust's `Result`, with the `?` operator as the bind of a `do` block.
use mathlib.Core.Path.{◌≡◌, refl}
use mathlib.Core.Logic.{◌⊎◌, inl, inr}
use mathlib.Core.Option.{Option, none, some}

pub data Result (A E : Type 0) : Type 0 where
  ok : A → Result A E
  err : E → Result A E

-- `r.ok()`
abbrev pub to_option : {Val Err : Type 0} → Result Val Err → Option Val
to_option r = elim r [ ok v ↦ some v | err _ ↦ none ]

-- `r.map_err(f)`
abbrev pub map_err : {Val Err Err' : Type 0} → (Err → Err') → Result Val Err → Result Val Err'
map_err f r = elim r [ ok v ↦ ok v | err e ↦ err (f e) ]

-- `o.ok_or(e)`
abbrev pub ok_or : {Val Err : Type 0} → Option Val → Err → Result Val Err
ok_or o e = elim o [ none ↦ err e | some v ↦ ok v ]

pub Result-cases :
    {Val Err : Type 0} (r : Result Val Err) → ((v : Val) × (r ≡ ok v)) ⊎ ((e : Err) × (r ≡ err e))
Result-cases (err e) = inr (e, refl)
Result-cases (ok v) = inl (v, refl)

infixl 5 ◌>>=◌
abbrev pub ◌>>=◌ :
    {Val Next Err : Type 0} → Result Val Err → (Val → Result Next Err) → Result Next Err
err e >>= k = err e
ok v >>= k = k v

-- A chain that succeeds has a first step that succeeds.
pub >>=-eq-ok :
    {Val Next Err : Type 0} (r : Result Val Err) (k : Val → Result Next Err) {n : Next}
    → (r >>= k) ≡ ok n
    → (v : Val) × (r ≡ ok v) × (k v ≡ ok n)
>>=-eq-ok (err e) k h = cc
>>=-eq-ok (ok v) k h = (v, refl, h)
