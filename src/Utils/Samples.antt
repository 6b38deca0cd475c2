-- ===== src/Utils/Samples.antt =====
-- Witness for the theorem about `inputs_to_string` of libs/libcommon/src/libcommon/utils.py.
use datasets_server.Prelude.{String, Option, some, refl}
use datasets_server.Utils.Injective.{inputs_to_string_injective}

inputs_to_string_injective_example :
    (Path String "parquet" "parquet")
    × (Path String "ns/a" "ns/a")
    × (Path (Option String) (some "c") (some "c"))
    × (Path (Option String) (some "s,t") (some "s,t"))
inputs_to_string_injective_example =
    inputs_to_string_injective "parquet" "ns/a" "parquet" "ns/a" (some "c") (some "s,t") (some "c")
      (some "s,t") refl refl refl refl refl refl refl refl refl
