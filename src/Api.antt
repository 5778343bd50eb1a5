-- ===== src/Api.antt =====
-- internal/api: the handlers of the HTTP API. Routing and the binding of JSON are gin's: a handler takes
-- what was bound and gives the answer. The database is a parameter.
pub mod Protocols
pub mod Trial
pub mod Codes
pub mod Devices
pub mod Categories
pub mod Access
pub mod Stream
pub mod Agent
mod Tests
use quantix_cnnector_go.Prelude.{ℕ, Option, none, some}
use quantix_cnnector_go.Prelude.Text.{Bytes, codes}
use quantix_cnnector_go.Value.{Value, bool, string, object, Fields, end, field}

pub record Response : Type 0 where
  pub status : ℕ
  pub body : Value

-- c.JSON(status, gin.H{"detail": text})
abbrev pub detail : ℕ → Bytes → Response
detail status text = record {
  status = status;
  body = object (field (codes "detail") (string text) end);
}

abbrev pub answer : Fields → Response
answer body = record { status = 200; body = object body }

abbrev pub invalid_id : Response
invalid_id = detail 400 (codes "Invalid ID")
