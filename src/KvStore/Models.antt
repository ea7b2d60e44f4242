-- ===== src/KvStore/Models.antt =====
-- kv-store/app/models.py, the columns of the table of kv-store/init.sql that the handlers write,
-- and the answers of the handlers.
use the_grind.Prelude.{ℕ, String, Option, ℤ}

pub record PutRequest : Type 0 where
  pub value : String
  pub ttl : Option ℤ

pub record KvResponse : Type 0 where
  pub key : String
  pub value : String

pub record ErrorResponse : Type 0 where
  pub detail : String

-- What a client gets: a key with its value, `{"status": "success"}`, an HTTPException with its
-- status code, or a 500 for an exception that the handler lets through.
pub data Response : Type 0 where
  value_response : KvResponse → Response
  success : Response
  http_error : ℕ → ErrorResponse → Response
  server_error : Response

abbrev pub not_found : Response
not_found = http_error 404 (record { detail = "Key not found" })

-- A row under its primary key.
pub record Row : Type 0 where
  pub value : String
  pub expire_at : ℤ
