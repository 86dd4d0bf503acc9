-- ===== src/Errors.antt =====
-- danube/errors.py and the other exceptions that the client meets or raises, and how a call ends.
use danube_py.Prelude.{ℕ, String, Bool, true, false, ◌≡◌}

-- The status codes that the client names; `other_code` is any other code of gRPC.
pub data StatusCode : Type 0 where
  unavailable deadline_exceeded resource_exhausted already_exists : StatusCode
  other_code : ℕ → StatusCode

-- The three classes of errors.py and Python's own carry their message. `rpc` is grpc's
-- `AioRpcError`: its code, and its text under `str`. `other` is any other `Exception`.
pub data Error : Type 0 where
  danube_error unrecoverable lookup_error value_error : String → Error
  zero_division attribute_error index_error unicode_decode_error : Error
  rpc : StatusCode → String → Error
  other : String → Error

-- `isinstance(err, UnrecoverableError)`
abbrev pub is_unrecoverable : Error → Bool
is_unrecoverable (unrecoverable _) = true
is_unrecoverable _ = false

-- A call returns or raises; `pending` is a loop that has not ended within the rounds it was given.
pub data Result (A : Type 0) : Type 0 where
  ok : A → Result A
  err : Error → Result A
  pending : Result A

pub ok-inj : {A : Type 0} {a b : A} → ◌≡◌ {A = Result A} (ok a) (ok b) → a ≡ b
ok-inj h = cc
