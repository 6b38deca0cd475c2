-- ===== src/Api/JwtToken.antt =====
-- `is_jwt_valid` of services/api/src/api/jwt_token.py. `jwt.decode` is an argument: `none` is its
-- exception, for a token that is not signed with the key, is expired, or lacks a claim.
use Prim.Native.String.{◌++◌ as ◌<>◌}
use Prim.Native.String.append
use Prim.Native.Char.{Char}
use mathlib.Core.Option.{some-injective}
use datasets_server.Prelude.{
  text_eq, ◌==◌, Bool, true, false, ◌||◌, String, Option, none, some, if◌then◌else◌, ◌≡◌, refl, sym,
  ap, ◌∙◌, arith, Bool-cases, inl, inr,
}
use datasets_server.Json.{Json, text, boolean, get_item}

-- `s.removeprefix(prefix)` if `s.startswith(prefix)`
abbrev without_prefix : (prefix s : String) → Option String
without_prefix String.[] s = some s
without_prefix (String.◌∷◌ c p) String.[] = none
without_prefix (String.◌∷◌ c p) (String.◌∷◌ d s) =
    let rest = without_prefix p s in
    if String.◌∷◌ c String.[] == String.◌∷◌ d String.[] then rest else none

-- The test of the claim `sub`
abbrev is_of_dataset : (dataset : String) → Option Json → Bool
is_of_dataset dataset (some (text sub)) = elim (without_prefix "datasets/" sub) [
  | none ↦ false
  | some rest ↦ rest == dataset
]
is_of_dataset dataset _ = false

-- `read is True`
abbrev is_true : Option Json → Bool
is_true (some (boolean b)) = b
is_true _ = false

abbrev are_claims_valid : (dataset : String) → Option Json → Bool
are_claims_valid dataset none = false
are_claims_valid dataset (some decoded) =
    if is_of_dataset dataset (get_item "sub" decoded)
    then is_true (get_item "read" decoded)
    else false

unfoldable pub is_jwt_valid :
    (decode : (token public_key algorithm : String) → Option Json) (dataset token : String)
    → (public_key algorithm : Option String) → Bool
is_jwt_valid decode dataset token (some public_key) (some algorithm) =
    if public_key == "" || algorithm == ""
    then false
    else are_claims_valid dataset (decode token public_key algorithm)
is_jwt_valid decode dataset token _ _ = false

cons_same :
    (c d : Char) (s : String)
    → String.◌∷◌ c String.[] ≡ String.◌∷◌ d String.[]
    → String.◌∷◌ c s ≡ String.◌∷◌ d s
cons_same c d s h =
    ap (λ t. String.◌∷◌ c t) (sym (append.nil s))
    ∙ sym (append.cons c String.[] s)
    ∙ ap (λ t. t <> s) h
    ∙ append.cons d String.[] s
    ∙ ap (λ t. String.◌∷◌ d t) (append.nil s)

without_prefix_lem : (p s rest : String) → without_prefix p s ≡ some rest → s ≡ (p <> rest)
without_prefix_lem String.[] s rest h = some-injective s rest h ∙ sym (append.nil rest)
without_prefix_lem (String.◌∷◌ c p) String.[] rest h = ground (arith, h)
without_prefix_lem (String.◌∷◌ c p) (String.◌∷◌ d s) rest h =
    elim (Bool-cases (String.◌∷◌ c String.[] == String.◌∷◌ d String.[])) [
      | inl same ↦
          let h' = rw same at h in
          sym (cons_same c d s ((text_eq.beq_iff _ _).0 same))
          ∙ ap (λ t. String.◌∷◌ c t) (without_prefix_lem p s rest h')
          ∙ sym (append.cons c p rest)
      | inr other ↦ let h' = rw other at h in ground (arith, h')
    ]

is_of_dataset_lem :
    (dataset : String) (sub : Option Json)
    → is_of_dataset dataset sub ≡ true
    → sub ≡ some (text ("datasets/" <> dataset))
is_of_dataset_lem dataset (some (text sub)) h = from_rest (without_prefix "datasets/" sub) refl h
  where
    from_rest :
        (o : Option String)
        → without_prefix "datasets/" sub ≡ o
        → (elim o [ none ↦ false | some rest ↦ rest == dataset ]) ≡ true
        → some (text sub) ≡ some (text ("datasets/" <> dataset))
    from_rest none e h' = ground (arith, h')
    from_rest (some rest) e h' =
        ap (λ t. some (text t))
          (without_prefix_lem "datasets/" sub rest e
            ∙ ap (λ t. "datasets/" <> t) ((text_eq.beq_iff rest dataset).0 h'))
is_of_dataset_lem dataset (some _) h = ground (arith, h)
is_of_dataset_lem dataset none h = ground (arith, h)

is_true_lem : (read : Option Json) → is_true read ≡ true → read ≡ some (boolean true)
is_true_lem (some (boolean b)) h = ap (λ x. some (boolean x)) h
is_true_lem (some _) h = ground (arith, h)
is_true_lem none h = ground (arith, h)

claims_lem :
    (dataset : String) (decoded : Option Json)
    → are_claims_valid dataset decoded ≡ true
    → (claims : Json) × (decoded ≡ some claims)
      × (get_item "sub" claims ≡ some (text ("datasets/" <> dataset)))
      × (get_item "read" claims ≡ some (boolean true))
claims_lem dataset none h = ground (arith, h)
claims_lem dataset (some claims) h =
    elim (Bool-cases (is_of_dataset dataset (get_item "sub" claims))) [
      | inl e ↦
          let h' = rw e at h in
          (
            claims,
            refl,
            is_of_dataset_lem dataset (get_item "sub" claims) e,
            is_true_lem (get_item "read" claims) h',
          )
      | inr e ↦ let h' = rw e at h in ground (arith, h')
    ]

-- If `is_jwt_valid` accepts a token for a dataset, there are a key and an algorithm, and the token is
-- decoded with them to claims whose `sub` is `datasets/` and the name of the dataset, and whose `read`
-- is true.
pub is_jwt_valid_lem :
    (decode : (token public_key algorithm : String) → Option Json) (dataset token : String)
    (public_key algorithm : Option String)
    → is_jwt_valid decode dataset token public_key algorithm ≡ true
    → (key : String) × (alg : String) × (claims : Json) × (public_key ≡ some key)
      × (algorithm ≡ some alg)
      × (decode token key alg ≡ some claims)
      × (get_item "sub" claims ≡ some (text ("datasets/" <> dataset)))
      × (get_item "read" claims ≡ some (boolean true))
unfolding is_jwt_valid
is_jwt_valid_lem decode dataset token (some key) (some alg) h =
    elim (Bool-cases (key == "" || alg == "")) [
      | inl e ↦ let h' = rw e at h in ground (arith, h')
      | inr e ↦
          let h' = rw e at h in
          let (claims, d, sub, read) = claims_lem dataset (decode token key alg) h' in
          (key, alg, claims, refl, refl, d, sub, read)
    ]
is_jwt_valid_lem decode dataset token (some key) none h = ground (arith, h)
is_jwt_valid_lem decode dataset token none algorithm h = ground (arith, h)
