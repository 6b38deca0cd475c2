-- ===== src/Errors.antt =====
-- Exceptions of libs/libcommon/src/libcommon/processing_graph.py and state.py as values, and Python's
-- `dict` with texts for keys, in the order of insertion.
use datasets_server.Prelude.{
  text_eq, ◌==◌, Bool, true, false, String, Option, none, some, List, [], ◌∷◌, map, if◌then◌else◌,
  ◌≡◌, refl, ap, arith,
}

pub data Exception : Type 0 where
  value_error key_error step_does_not_exist multiple_objects : Exception

pub data Outcome (A : Type 0) : Type 0 where
  return : A → Outcome A
  raise : Exception → Outcome A

infixl 5 ◌>>=◌ ◌>>◌
abbrev pub ◌>>=◌ : {A B : Type 0} → Outcome A → (A → Outcome B) → Outcome B
return a >>= f = f a
raise e >>= f = raise e

abbrev pub ◌>>◌ : {B : Type 0} → Outcome (Unit {0}) → Outcome B → Outcome B
m >> k = m >>= λ _. k

-- A sequence that returns is made of two that do.
pub returned :
    {A B : Type 0} {b : B} (m : Outcome A) (f : A → Outcome B)
    → (m >>= f) ≡ return b
    → (a : A) × (m ≡ return a) × (f a ≡ return b)
returned (return a) f h = (a, refl, h)
returned (raise e) f h = ground (arith, h)

abbrev value_or : {A : Type 0} → A → Outcome A → A
value_or d (return a) = a
value_or d (raise _) = d

pub return_injective : {A : Type 0} (a b : A) → return a ≡ return b → a ≡ b
return_injective a b h = ap (value_or a) h

-- `if test: raise e`
abbrev pub raise_if : Bool → Exception → Outcome (Unit {0})
raise_if test e = if test then raise e else return tt

-- `[f(x) for x in xs]`, where `f` may raise
abbrev pub for_each : {A B : Type 0} → (A → Outcome B) → List A → Outcome (List B)
for_each f [] = return []
for_each f (x ∷ xs) = f x >>= λ y. for_each f xs >>= λ ys. return (y ∷ ys)

abbrev pub Dict : Type 0 → Type 0
Dict V = List (String × V)

module _ {V : Type 0} where
  -- `d[k] = v`
  abbrev pub put : String → V → Dict V → Dict V
  put k v [] = (k, v) ∷ []
  put k v ((j, w) ∷ d) = if j == k then (j, v) ∷ d else (j, w) ∷ put k v d

  -- `d[k]`: `none` is the exception `KeyError`.
  abbrev pub get : String → Dict V → Option V
  get k [] = none
  get k ((j, w) ∷ d) = if j == k then some w else get k d

  -- `k in d`
  abbrev pub has_key : String → Dict V → Bool
  has_key k [] = false
  has_key k ((j, w) ∷ d) = if j == k then true else has_key k d

  abbrev pub get_or_raise : String → Dict V → Outcome V
  get_or_raise k d = elim (get k d) [ none ↦ raise key_error | some v ↦ return v ]

  abbrev pub keys : Dict V → List String
  keys d = map (λ (item : String × V). item.0) d

  abbrev pub values : Dict V → List V
  values d = map (λ (item : String × V). item.1) d
