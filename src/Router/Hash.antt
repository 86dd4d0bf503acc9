-- ===== src/Router/Hash.antt =====
-- The routing hash is FNV-1a, and a key's partition depends on the key alone.
use Prim.Native.Nat.{bit_xor}
use native.Mathlib.Nat.{mod-lt}
use mathlib.Core.List.{foldl}
use danube_py.Prelude.{
  ◌*◌, ◌^◌, ap, ◌∙◌, bit_and-le, bit_and_ones, ℕ, suc, ◌%◌, ◌≤◌, ◌<◌, ◌≡◌, refl, String, List, [],
  ◌∷◌, pos, arith,
}
use danube_py.Errors.{ok}
use danube_py.Router.{offset_basis, prime, mask, hash_byte, fnv1a_hash, key_route}
use danube_py.Router.Encoding.{encode}
use danube_py.Router.RoundRobin.{router_at}

hash_byte-le : (h byte : ℕ) → hash_byte h byte ≤ mask
unfolding hash_byte
hash_byte-le h byte = bit_and-le _ mask

foldl-hash_byte-le : (bytes : List ℕ) (h : ℕ) → h ≤ mask → foldl hash_byte h bytes ≤ mask
foldl-hash_byte-le [] h p = p
foldl-hash_byte-le (b ∷ bytes) h p = foldl-hash_byte-le bytes (hash_byte h b) (hash_byte-le h b)

fnv1a_hash-lt : (key : String) → fnv1a_hash key < 0x10000000000000000
unfolding fnv1a_hash
fnv1a_hash-lt key = omega (arith, foldl-hash_byte-le (encode key) offset_basis (omega arith))

-- FNV-1a as it is published: for each byte, from the first to the last, the exclusive or with the byte
-- and then the product with the prime in 64-bit arithmetic, where what overflows is lost.
abbrev pub fnv1a_64 : ℕ → List ℕ → ℕ
fnv1a_64 h [] = h
fnv1a_64 h (byte ∷ bytes) = fnv1a_64 (bit_xor h byte * 0x100000001B3 % 2 ^ 64) bytes

hash_byte-mod : (h byte : ℕ) → hash_byte h byte ≡ bit_xor h byte * 0x100000001B3 % 2 ^ 64
unfolding hash_byte
hash_byte-mod h byte = bit_and_ones 64 (bit_xor h byte * prime)

foldl-hash_byte : (bytes : List ℕ) (h : ℕ) → foldl hash_byte h bytes ≡ fnv1a_64 h bytes
foldl-hash_byte [] h = refl
foldl-hash_byte (b ∷ bytes) h =
    foldl-hash_byte bytes (hash_byte h b) ∙ ap (λ g. fnv1a_64 g bytes) (hash_byte-mod h b)

-- The hash of a key is the 64-bit FNV-1a hash of its UTF-8 bytes, and fits in 64 bits.
pub fnv1a_hash_lem :
    (key : String)
    → (fnv1a_hash key ≡ fnv1a_64 0xCBF29CE484222325 (encode key)) × (fnv1a_hash key < 2 ^ 64)
unfolding fnv1a_hash
fnv1a_hash_lem key = (foldl-hash_byte (encode key) offset_basis, fnv1a_hash-lt key)

-- With n partitions, n positive, a key goes to partition hash % n, which exists, and the router
-- is left as it was: the same key goes to the same partition whatever was sent before.
pub key_route_lem :
    (key : String) (n last : ℕ)
    → (key_route key (router_at n last) ≡ (ok (pos (fnv1a_hash key % suc n)), router_at n last))
      × (fnv1a_hash key % suc n < suc n)
unfolding key_route
key_route_lem key n last = (refl, mod-lt _ (omega arith))
