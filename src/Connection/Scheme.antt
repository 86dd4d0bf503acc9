-- ===== src/Connection/Scheme.antt =====
-- The target that gRPC is given for an address: host and port without the scheme.
use Prim.Native.Char.{Char, code}
use text.Mathlib.TextLemmas.{cons-append, nil-append, append_assoc}
use danube_py.Prelude.{String, ◌<>◌, some, none, ◌≡◌, ◌≢◌, refl, ap, ◌∙◌, arith}
use danube_py.Connection.{strip_scheme}
use danube_py.Connection.Prefix.{drop_prefix?}

drop_prefix?-append : (p text : String) → drop_prefix? p (p <> text) ≡ some text
unfolding drop_prefix?
drop_prefix?-append String.[] text = ap some (nil-append text)
drop_prefix?-append (String.◌∷◌ c p) text =
    rw cons-append (ground (arith, drop_prefix?-append p text))

-- Two texts that part after a common beginning.
drop_prefix?-part :
    (common p text : String) (c d : Char)
    → code c ≢ code d
    → drop_prefix? (common <> String.◌∷◌ c p) (common <> String.◌∷◌ d text) ≡ none
unfolding drop_prefix?
drop_prefix?-part String.[] p text c d h = rw (nil-append, nil-append) (ground arith)
drop_prefix?-part (String.◌∷◌ a common) p text c d h =
    rw (cons-append, cons-append) (ground (arith, drop_prefix?-part common p text c d h))

strip_scheme-https : (rest : String) → strip_scheme ("https://" <> rest) ≡ rest
unfolding strip_scheme
strip_scheme-https rest = rw (drop_prefix?-append "https://" rest, strip_scheme) refl

strip_scheme-http : (rest : String) → strip_scheme ("http://" <> rest) ≡ rest
unfolding strip_scheme
strip_scheme-http rest = rw (not_https, drop_prefix?-append "http://" rest, strip_scheme) refl
  where
    not_https : drop_prefix? "https://" ("http://" <> rest) ≡ none
    not_https =
        ap (drop_prefix? "https://")
          (append_assoc "http" "://" rest ∙ ap (λ t. "http" <> t) (cons-append ":" "//" rest))
        ∙ drop_prefix?-part "http" "://" ("//" <> rest) "s" ":" (omega arith)

-- The scheme https or http is cut off an address once, and the rest is left as it is, also if it
-- begins with a scheme again.
pub strip_scheme_lem :
    (rest : String)
    → (strip_scheme ("https://" <> rest) ≡ rest) × (strip_scheme ("http://" <> rest) ≡ rest)
strip_scheme_lem rest = (strip_scheme-https rest, strip_scheme-http rest)
