-- ===== src/Connection/Prefix.antt =====
-- `startswith` and the slice behind the prefix.
use Prim.Native.Char.{code}
use danube_py.Prelude.{String, Option, none, some, ◌==◌, if◌then◌else◌}

-- `text[len(prefix):]` if `text.startswith(prefix)`
unfoldable pub drop_prefix? : String → String → Option String
drop_prefix? String.[] text = some text
drop_prefix? (String.◌∷◌ c p) String.[] = none
drop_prefix? (String.◌∷◌ c p) (String.◌∷◌ d text) =
    let rest = drop_prefix? p text in if code c == code d then rest else none
