-- ===== src/Config/Tests.antt =====
-- Effort caps and credentials of a concrete backend.
use anycode.Base.{some}
use anycode.Config.{Backend, default_backend}

abbrev limited : Backend
limited = record default_backend {
  auth_type_str = "bearer";
  api_key = some "k";
  model_opus_max_effort = some "medium";
}
