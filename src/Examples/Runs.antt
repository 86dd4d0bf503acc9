-- ===== src/Examples/Runs.antt =====
-- Runs of the code.
use danube_py.Prelude.{◌≡◌, refl}
use danube_py.Router.{fnv1a_hash}
use danube_py.Router.Encoding.{encode}
use danube_py.Connection.{strip_scheme}
use danube_py.Connection.Prefix.{drop_prefix?}

-- The published values of the 64-bit FNV-1a hash.
fnv1a_hash_test_a : fnv1a_hash "a" ≡ 0xAF63DC4C8601EC8C
unfolding fnv1a_hash encode
fnv1a_hash_test_a = refl

fnv1a_hash_test_foobar : fnv1a_hash "foobar" ≡ 0x85944171F73967E8
unfolding fnv1a_hash encode
fnv1a_hash_test_foobar = refl

strip_scheme_test : strip_scheme "https://broker:6650" ≡ "broker:6650"
unfolding strip_scheme drop_prefix?
strip_scheme_test = refl
