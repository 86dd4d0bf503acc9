-- ===== src/Router.antt =====
-- danube/message_router.py: the partition of the next message, in turn or by the routing key.
pub mod Encoding
pub mod RoundRobin
pub mod Hash
use Prim.Native.Nat.{bit_and, bit_xor}
use mathlib.Core.List.{foldl}
use danube_py.Prelude.{ℕ, ◌*◌, String, List, ℤ, pos, ◌+ℤ◌, ◌-ℤ◌, mod?}
use danube_py.Errors.{zero_division}
use danube_py.Exec.{Exec, gets, modify, or_raise, ◌>>=◌, ◌>>◌, pure}
use Encoding.{encode}

-- The lock makes `round_robin` one step of the program.
pub record MessageRouter : Type 0 where
  pub partitions : ℤ
  pub last : ℤ

unfoldable pub new : ℤ → MessageRouter
new partitions = record { partitions = partitions; last = partitions -ℤ pos 1 }

unfoldable pub round_robin : Exec MessageRouter ℤ
unfolding gets modify ◌>>=◌ pure
round_robin = do
  next_part ← (gets λ r. mod? (r.last +ℤ pos 1) r.partitions) >>= λ o. or_raise o zero_division
  modify λ r. record r { last = next_part }
  pure next_part

abbrev pub offset_basis : ℕ
offset_basis = 0xCBF29CE484222325

abbrev pub prime : ℕ
prime = 0x100000001B3

abbrev pub mask : ℕ
mask = 0xFFFFFFFFFFFFFFFF

-- One round of the loop in `_fnv1a_hash`.
unfoldable pub hash_byte : ℕ → ℕ → ℕ
hash_byte h byte = bit_and (bit_xor h byte * prime) mask

unfoldable pub fnv1a_hash : String → ℕ
unfolding hash_byte
fnv1a_hash key = foldl hash_byte offset_basis (encode key)

unfoldable pub key_route : String → Exec MessageRouter ℤ
unfolding gets ◌>>=◌ pure fnv1a_hash
key_route routing_key =
    (gets λ r. mod? (pos (fnv1a_hash routing_key)) r.partitions) >>= λ o. or_raise o zero_division
