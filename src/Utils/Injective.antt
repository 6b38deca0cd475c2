-- ===== src/Utils/Injective.antt =====
-- `inputs_to_string` of libs/libcommon/src/libcommon/utils.py as an identifier of a job's inputs.
use Prim.Native.Char.{Char, code}
use Prim.Native.String.{◌++◌ as ◌<>◌}
use Prim.Native.String.append
use text.Mathlib.TextLemmas.{append_assoc}
use datasets_server.Prelude.{
  nat_eq, ◌==◌, Bool, true, false, String, Option, none, some, ◌≡◌, refl, sym, ◌∙◌, ap, arith, not,
  ◌&&◌,
}
use datasets_server.Utils.{inputs_to_string}

abbrev comma : Char
comma = ","

-- No character of the text is a comma.
abbrev pub comma_free : String → Bool
comma_free String.[] = true
comma_free (String.◌∷◌ c s) = not (code c == code comma) && comma_free s

-- The first comma of a text that begins with one.
comma-cons : (x : String) → ("," <> x) ≡ String.◌∷◌ comma x
comma-cons x = cc (append.cons comma String.[] x, append.nil x)

ruleset appends = (append.nil, append.cons, comma-cons)

not_comma : (c : Char) (s : String) → comma_free (String.◌∷◌ c s) ≡ true → c ≡ comma → ⊥
not_comma c s h e = let k : code c ≡ 44 = ap code e in let g = rw k at h in ground arith

comma_free-tail : (c : Char) (s : String) → comma_free (String.◌∷◌ c s) ≡ true → comma_free s ≡ true
comma_free-tail c s h = ground arith

-- A comma ends a comma-free text: what stands before it and behind it are determined.
pub comma_splits :
    (a b x y : String)
    → comma_free a ≡ true
    → comma_free b ≡ true
    → (a <> ("," <> x)) ≡ (b <> ("," <> y))
    → (a ≡ b) × (x ≡ y)
comma_splits String.[] String.[] x y ha hb h = let e = simp appends at h in (refl, cc)
comma_splits String.[] (String.◌∷◌ c s) x y ha hb h =
    let e = simp appends at h in absurd (not_comma c s hb (cc))
comma_splits (String.◌∷◌ c s) String.[] x y ha hb h =
    let e = simp appends at h in absurd (not_comma c s ha (cc))
comma_splits (String.◌∷◌ c s) (String.◌∷◌ d t) x y ha hb h =
    let e = simp appends at h in
    let (p, q) =
      comma_splits s t x y (comma_free-tail c s ha) (comma_free-tail d t hb)
        (cc (comma-cons x, comma-cons y)) in
    (cc, q)

-- A comma-free text has no comma inside.
pub comma_absent : (a b y : String) → comma_free a ≡ true → a ≡ (b <> ("," <> y)) → ⊥
comma_absent String.[] String.[] y ha h = let e = simp appends at h in cc
comma_absent String.[] (String.◌∷◌ d t) y ha h = let e = simp appends at h in cc
comma_absent (String.◌∷◌ c s) String.[] y ha h = let e = simp appends at h in not_comma c s ha (cc)
comma_absent (String.◌∷◌ c s) (String.◌∷◌ d t) y ha h =
    let e = simp appends at h in comma_absent s t y (comma_free-tail c s ha) (cc (comma-cons y))

abbrev pub comma_free_opt : Option String → Bool
comma_free_opt none = true
comma_free_opt (some s) = comma_free s

-- The inputs that an artifact may have: a split comes with a config.
abbrev pub is_input : Option String → Option String → Bool
is_input none (some s) = false
is_input _ _ = true

-- dataset,config,split from the left and from the right
sized : (d c s : String) → ((d <> ("," <> c)) <> ("," <> s)) ≡ (d <> ("," <> (c <> ("," <> s))))
sized d c s =
    append_assoc d ("," <> c) ("," <> s) ∙ ap (λ t. d <> t) (append_assoc "," c ("," <> s))

-- Two jobs whose types, datasets and configs hold no comma, and that have no split without a
-- config, have the same identifier only if they have the same type, dataset, config and split.
pub inputs_to_string_injective :
    (p d p' d' : String) (c s c' s' : Option String)
    → comma_free p ≡ true
    → comma_free d ≡ true
    → comma_free p' ≡ true
    → comma_free d' ≡ true
    → comma_free_opt c ≡ true
    → comma_free_opt c' ≡ true
    → is_input c s ≡ true
    → is_input c' s' ≡ true
    → inputs_to_string d c s (some p) ≡ inputs_to_string d' c' s' (some p')
    → (p ≡ p') × (d ≡ d') × (c ≡ c') × (s ≡ s')
unfolding inputs_to_string
inputs_to_string_injective p d p' d' none none none none hp hd hp' hd' hc hc' i i' e =
    let (ep, ed) = comma_splits p p' d d' hp hp' e in (ep, ed, refl, refl)
inputs_to_string_injective p d p' d' none none (some c') none hp hd hp' hd' hc hc' i i' e =
    let (ep, ed) = comma_splits p p' _ _ hp hp' e in absurd (comma_absent d d' c' hd ed)
inputs_to_string_injective p d p' d' none none (some c') (some s') hp hd hp' hd' hc hc' i i' e =
    let (ep, ed) = comma_splits p p' _ _ hp hp' e in
    absurd (comma_absent d d' _ hd (ed ∙ sized d' c' s'))
inputs_to_string_injective p d p' d' (some c) none none none hp hd hp' hd' hc hc' i i' e =
    let (ep, ed) = comma_splits p p' _ _ hp hp' e in absurd (comma_absent d' d c hd' (sym ed))
inputs_to_string_injective p d p' d' (some c) (some s) none none hp hd hp' hd' hc hc' i i' e =
    let (ep, ed) = comma_splits p p' _ _ hp hp' e in
    absurd (comma_absent d' d _ hd' (sym ed ∙ sized d c s))
inputs_to_string_injective p d p' d' (some c) none (some c') none hp hd hp' hd' hc hc' i i' e =
    let (ep, ed) = comma_splits p p' _ _ hp hp' e in
    let (ed', ec) = comma_splits d d' _ _ hd hd' ed in (ep, ed', ap some ec, refl)
inputs_to_string_injective p d p' d' (some c) none (some c') (some s') hp hd hp' hd' hc hc' i i' e =
    let (ep, ed) = comma_splits p p' _ _ hp hp' e in
    let (ed', ec) = comma_splits d d' _ _ hd hd' (ed ∙ sized d' c' s') in
    absurd (comma_absent c c' s' hc ec)
inputs_to_string_injective p d p' d' (some c) (some s) (some c') none hp hd hp' hd' hc hc' i i' e =
    let (ep, ed) = comma_splits p p' _ _ hp hp' e in
    let (ed', ec) = comma_splits d d' _ _ hd hd' (sym (sized d c s) ∙ ed) in
    absurd (comma_absent c' c s hc' (sym ec))
inputs_to_string_injective p d p' d' (some c) (some s) (some c') (some s') hp hd hp' hd' hc hc' i i'
      e =
    let (ep, ed) = comma_splits p p' _ _ hp hp' e in
    let (ed', ec) = comma_splits d d' _ _ hd hd' (sym (sized d c s) ∙ ed ∙ sized d' c' s') in
    let (ec', es) = comma_splits c c' s s' hc hc' ec in (ep, ed', ap some ec', ap some es)
inputs_to_string_injective p d p' d' none (some s) c' s' hp hd hp' hd' hc hc' i i' e = cc
inputs_to_string_injective p d p' d' c s none (some s') hp hd hp' hd' hc hc' i i' e = cc
