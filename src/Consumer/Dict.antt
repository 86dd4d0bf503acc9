-- ===== src/Consumer/Dict.antt =====
-- The dict of topic consumers by partition, and the results of `asyncio.gather`.
use danube_py.Prelude.{ℕ, String, Option, none, some, List, [], ◌∷◌, str_eq, if◌then◌else◌}
use danube_py.Errors.{Result, ok, err, pending}

-- What `asyncio.gather` makes of the first result and of the others.
abbrev pub gather_results : {A : Type 0} → Result A → Result (List A) → Result (List A)
gather_results (ok a) (ok rest) = ok (a ∷ rest)
gather_results (ok a) (err e) = err e
gather_results (ok a) pending = pending
gather_results (err e) rest = err e
gather_results pending (err e) = err e
gather_results pending _ = pending

-- `dict[key] = value`
abbrev pub put_entry : String → ℕ → List (String × ℕ) → List (String × ℕ)
put_entry key value [] = (key, value) ∷ []
put_entry key value ((k, v) ∷ entries) =
    let rest = put_entry key value entries in
    if str_eq k key then (k, value) ∷ entries else (k, v) ∷ rest

-- The dict comprehension over the pairs, after some entries.
abbrev pub dict_of : List (String × ℕ) → List (String × ℕ) → List (String × ℕ)
dict_of entries [] = entries
dict_of entries ((key, value) ∷ pairs) = dict_of (put_entry key value entries) pairs

-- `dict.get`
abbrev pub find_entry : String → List (String × ℕ) → Option ℕ
find_entry key [] = none
find_entry key ((k, v) ∷ entries) =
    let rest = find_entry key entries in if str_eq k key then some v else rest
