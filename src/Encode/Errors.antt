-- ===== src/Encode/Errors.antt =====
-- `EncodeError` of services/encode/error.rs, and how an operation on amounts can end.
use tycho_simulation_server.Base.{Text, Result}

pub data EncodeErrorKind : Type 0 where
  invalid_request not_found unavailable simulation encoding internal_error : EncodeErrorKind

pub record EncodeError : Type 0 where
  pub kind : EncodeErrorKind
  pub message : Text

-- A function returns an error, or it panics: the subtraction of `BigUint` panics below 0.
pub data Failure : Type 0 where
  failed : EncodeError → Failure
  panicked : Failure

abbrev pub Encoded : Type 0 → Type 0
Encoded A = Result Failure A

-- EncodeError::invalid
abbrev pub invalid : Text → Failure
invalid message = failed (record { kind = invalid_request; message = message })

-- EncodeError::internal
abbrev pub internal : Text → Failure
internal message = failed (record { kind = internal_error; message = message })
