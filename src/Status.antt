-- ===== src/Status.antt =====
-- src/transport/Status.h: the result codes of every non-blocking operation.
use Prim.Native.String.{String}
use esp32_control_logix.Base.{zero, suc, ◌≡◌, refl}
use esp32_control_logix.Base.Int.{ℤ, pos, negsuc}

pub data Status : Type 0 where
  pending ok busy would_block closed timeout not_ready no_memory invalid_arg error : Status

-- `static_cast<int>(status)`.
abbrev pub to_int : Status → ℤ
to_int pending = pos 0
to_int ok = pos 1
to_int busy = pos 2
to_int would_block = pos 3
to_int closed = negsuc 0
to_int timeout = negsuc 1
to_int not_ready = negsuc 2
to_int no_memory = negsuc 3
to_int invalid_arg = negsuc 4
to_int error = negsuc 5

-- `static_cast<Status>(n)`. A number that is no enumerator is read as `error`; the program casts
-- only what `TcpConnection::read` and `write` return.
abbrev pub of_int : ℤ → Status
of_int (pos zero) = pending
of_int (pos (suc zero)) = ok
of_int (pos (suc (suc zero))) = busy
of_int (pos (suc (suc (suc zero)))) = would_block
of_int (negsuc zero) = closed
of_int (negsuc (suc zero)) = timeout
of_int (negsuc (suc (suc zero))) = not_ready
of_int (negsuc (suc (suc (suc zero)))) = no_memory
of_int (negsuc (suc (suc (suc (suc zero))))) = invalid_arg
of_int n = error

-- A status that is cast to `int` and back is the same status.
pub of_int-to_int : (s : Status) → of_int (to_int s) ≡ s
of_int-to_int pending = refl
of_int-to_int ok = refl
of_int-to_int s = refl

pub status_string : Status → String
status_string pending = "pending"
status_string ok = "ok"
status_string busy = "busy"
status_string would_block = "would-block"
status_string closed = "closed"
status_string timeout = "timeout"
status_string not_ready = "not-ready"
status_string no_memory = "no-memory"
status_string invalid_arg = "invalid-argument"
status_string error = "error"
