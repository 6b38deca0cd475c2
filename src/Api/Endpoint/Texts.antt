-- ===== src/Api/Endpoint/Texts.antt =====
-- The test `needle in text` of services/api/src/api/routes/endpoint.py on identifiers of artifacts.
use Prim.Native.Char.{code}
use Prim.Native.String.{◌++◌ as ◌<>◌}
use Prim.Native.String.append
use text.Mathlib.TextLemmas.{append_assoc}
use datasets_server.Prelude.{nat_eq, true, String, none, some, ◌≡◌, refl}
use datasets_server.Utils.{inputs_to_string}
use datasets_server.Api.Endpoint.{starts_with, is_in}

starts_with-append : (s r : String) → starts_with s (s <> r) ≡ true
starts_with-append String.[] r = refl
starts_with-append (String.◌∷◌ c s) r =
    rw (append.cons c s r, (nat_eq.beq_iff (code c) (code c)).1 refl) (starts_with-append s r)

is_in-of-starts_with : (s t : String) → starts_with s t ≡ true → is_in s t ≡ true
is_in-of-starts_with s String.[] h = h
is_in-of-starts_with s (String.◌∷◌ d t) h = rw h refl

-- A text is found in itself with an end.
pub is_in-append : (s r : String) → is_in s (s <> r) ≡ true
is_in-append s r = is_in-of-starts_with s (s <> r) (starts_with-append s r)

-- A longer name of a config makes the identifier longer by its end.
pub inputs_to_string-append :
    (name c r kind : String)
    → inputs_to_string name (some (c <> r)) none (some kind)
      ≡ (inputs_to_string name (some c) none (some kind) <> r)
unfolding inputs_to_string
inputs_to_string-append name c r kind = simp append_assoc
