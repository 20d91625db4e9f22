-- ===== src/Api/Correlation.antt =====
-- CorrelationIdMiddleware of api/middleware/correlation.py. Reading a header of a request and setting
-- one of a response are Starlette's; the rest of the application is `call_next`, which sees the
-- context variable and answers.
use multi_cloud_ai_orchestra.Base.{String, Option, none, some}
use multi_cloud_ai_orchestra.Domain.Entity.{Ambient, fresh_id, after_id}

record Correlated (S : Type 0) : Type 0 where
  state : S
  correlation_id_ctx : String
  ambient : Ambient

abbrev correlation_header : String
correlation_header = "X-Correlation-ID"

unfoldable get_correlation_id : {S : Type 0} → Correlated S → String
get_correlation_id w = w.correlation_id_ctx

abbrev header_or : Option String → String → String
header_or none fresh = fresh
header_or (some text) fresh = text

module _ {S Request Response : Type 0} (get_header : Request → String → Option String)
    (set_header : String → String → Response → Response)
    (call_next : Request → Correlated S → Response × Correlated S) where
  -- The default of `headers.get` is made whether it is used or not.
  unfoldable dispatch : Request → Correlated S → Response × Correlated S
  dispatch request w =
      let correlation_id = header_or (get_header request correlation_header) (fresh_id w.ambient) in
      let (response, w) =
        call_next request
          (record w { correlation_id_ctx = correlation_id; ambient = after_id w.ambient }) in
      (set_header correlation_header correlation_id response, w)
