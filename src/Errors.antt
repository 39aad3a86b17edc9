-- ===== src/Errors.antt =====
-- backend/src/api/errors.py: the problems that a handler raises. The kinds are kept with their HTTP
-- status; the free text of `detail` is left out. `internal` is an exception that is no
-- ProblemException and that no handler catches: the server answers 500.
use Prim.Native.Nat.{ℕ}

pub data Problem : Type 0 where
  bad_request unauthorized forbidden not_found conflict unprocessable bad_gateway internal : Problem

unfoldable pub status : Problem → ℕ
status bad_request = 400
status unauthorized = 401
status forbidden = 403
status not_found = 404
status conflict = 409
status unprocessable = 422
status bad_gateway = 502
status internal = 500
