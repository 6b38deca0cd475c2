-- ===== src/Api/Endpoint/Validators.antt =====
-- Which processing steps the endpoint of services/api/src/api/routes/endpoint.py chooses.
use datasets_server.Prelude.{
  ℕ, suc, ◌≤◌, true, false, String, Option, none, some, List, ◌≡◌, refl, arith, Bool-cases, ◌⊎◌,
  inl, inr, sym, subst, ◌∙◌,
}
use datasets_server.Graph.{InputType, dataset, config, split, ProcessingStep}
use datasets_server.Api.Endpoint.{
  Parameters, are_parameters_sufficient, get_error_message, StepsByInputType, with_steps,
  get_input_type_validators_by_priority, Validated, validator, missing,
  get_input_type_validator_by_parameters,
}

-- How many parameters an input type has.
abbrev pub specificity : InputType → ℕ
specificity dataset = 1
specificity config = 2
specificity split = 3

-- The choice is a supported input type with sufficient parameters, and none with more parameters is; an
-- error means that none is.
abbrev pub Chosen : StepsByInputType → Parameters → Validated → Type 0
Chosen steps p (validator t st) =
    (steps t ≡ some st)
    × (are_parameters_sufficient t p ≡ true)
    × ((u : InputType) (su : List ProcessingStep)
        → steps u ≡ some su
        → are_parameters_sufficient u p ≡ true
        → specificity u ≤ specificity t)
Chosen steps p (missing message) =
    (u : InputType) (su : List ProcessingStep)
    → steps u ≡ some su
    → are_parameters_sufficient u p ≡ false

module _ (steps : StepsByInputType) (p : Parameters) where
  -- What the loop finds among the input types from a number of parameters down.
  abbrev Among : ℕ → Validated → Type 0
  Among n (validator t st) =
      (steps t ≡ some st)
      × (are_parameters_sufficient t p ≡ true)
      × ((u : InputType) (su : List ProcessingStep)
          → specificity u ≤ n
          → steps u ≡ some su
          → are_parameters_sufficient u p ≡ true
          → specificity u ≤ specificity t)
  Among n (missing message) =
      (u : InputType) (su : List ProcessingStep)
      → specificity u ≤ n
      → steps u ≡ some su
      → are_parameters_sufficient u p ≡ false

  module _ (n : ℕ) (t : InputType)
      (split_u : (u : InputType) → specificity u ≤ suc n → (specificity u ≤ n) ⊎ (u ≡ t)) where
    -- An input type that is not supported, or has too few parameters.
    weaken :
        ((su : List ProcessingStep) → steps t ≡ some su → are_parameters_sufficient t p ≡ false)
        → (r : Validated) → Among n r
        → Among (suc n) r
    weaken bad (validator v st) (e, f, rest) = (
      e,
      f,
      λ u su le s h. elim (split_u u le) [
        | inl l ↦ rest u su l s h
        | inr same ↦
            let b = bad su (subst (λ x. steps x ≡ some su) same s) in
            let g = subst (λ x. are_parameters_sufficient x p ≡ true) same h in
            absurd (ground (arith, b, g))
      ],
    )
    weaken bad (missing message) rest = λ u su le s. elim (split_u u le) [
      | inl l ↦ rest u su l s
      | inr same ↦
          subst (λ x. are_parameters_sufficient x p ≡ false) (sym same)
            (bad su (subst (λ x. steps x ≡ some su) same s))
    ]

  -- One more input type in front.
  one_more :
      (n : ℕ) (t : InputType)
      → ((u : InputType) → specificity u ≤ suc n → (specificity u ≤ n) ⊎ (u ≡ t))
      → specificity t ≡ suc n
      → (o : Option (List ProcessingStep)) → steps t ≡ o
      → (message : String) (validators : List (InputType × List ProcessingStep))
      → ((m : String) → Among n (get_input_type_validator_by_parameters m validators p))
      → Among (suc n) (get_input_type_validator_by_parameters message (with_steps t o validators) p)
  unfolding get_input_type_validator_by_parameters
  one_more n t split_u top none e message validators rest =
      weaken n t split_u (λ su h. absurd (ground (arith, sym e ∙ h))) _ (rest message)
  one_more n t split_u top (some st) e message validators rest =
      elim (Bool-cases (are_parameters_sufficient t p)) [
        | inl f ↦ rw (f, get_input_type_validator_by_parameters) (e, f, λ u su le s h. omega arith)
        | inr f ↦
            rw (f, get_input_type_validator_by_parameters)
              (weaken n t split_u (λ su h. f) _ (rest (get_error_message t)))
      ]

  -- The endpoint takes the processing steps of the input type with most parameters among those that it
  -- supports and for which the request has all parameters; it raises an error exactly where there is
  -- none.
  pub get_input_type_validator_by_parameters_lem : Chosen steps p (
      get_input_type_validator_by_parameters "No processing steps supported for parameters"
        (get_input_type_validators_by_priority steps)
        p)
  unfolding get_input_type_validators_by_priority get_input_type_validator_by_parameters
  get_input_type_validator_by_parameters_lem = forget _ (
      one_more 2 split above_config refl (steps split) refl _ _ λ m.
        one_more 1 config above_dataset refl (steps config) refl _ _ λ m'.
          one_more 0 dataset above_none refl (steps dataset) refl _ _
            λ m'' u su le. absurd (no_type u le))
    where
      no_type : (u : InputType) → specificity u ≤ 0 → ⊥
      no_type dataset h = omega arith
      no_type config h = omega arith
      no_type split h = omega arith

      above_none : (u : InputType) → specificity u ≤ 1 → (specificity u ≤ 0) ⊎ (u ≡ dataset)
      above_none dataset h = inr refl
      above_none config h = absurd (omega arith)
      above_none split h = absurd (omega arith)

      above_dataset : (u : InputType) → specificity u ≤ 2 → (specificity u ≤ 1) ⊎ (u ≡ config)
      above_dataset dataset h = inl (omega arith)
      above_dataset config h = inr refl
      above_dataset split h = absurd (omega arith)

      above_config : (u : InputType) → specificity u ≤ 3 → (specificity u ≤ 2) ⊎ (u ≡ split)
      above_config dataset h = inl (omega arith)
      above_config config h = inl (omega arith)
      above_config split h = inr refl

      all_below : (u : InputType) → specificity u ≤ 3
      all_below dataset = omega arith
      all_below config = omega arith
      all_below split = omega arith

      forget : (r : Validated) → Among 3 r → Chosen steps p r
      forget (validator t st) (e, f, rest) = (e, f, λ u su s h. rest u su (all_below u) s h)
      forget (missing m) rest = λ u su s. rest u su (all_below u) s
