-- ===== src/Proxy/Forward.antt =====
-- Stage 6 of the pipeline (src/proxy/pipeline/forward.rs), and the errors of the whole pipeline
-- (src/proxy/pipeline/mod.rs). Sending is a parameter: what the attempt of a number gives. The context
-- is kept as far as the end of the request's span goes: whether it is finalized, and how often
-- `finish_error` was called for it. The loop runs on fuel, one round for each attempt.
pub mod Ends
use anycode.Base.{
  ℕ, zero, suc, ◌+◌, ◌-◌, ◌*◌, ◌^◌, ◌%◌, min, ◌≤◌, ◌<◌, ◌≡◌, refl, sym, ap, ◌∙◌, String, Bool, true,
  false, not, ◌&&◌, ◌||◌, Option, none, some, List, [], ◌∷◌, ◌++◌, ltb, length, arith,
  if◌then◌else◌, ◌>>=◌,
}

-- What the client library says of an error.
pub record SendError : Type 0 where
  pub is_connect : Bool
  pub is_timeout : Bool

pub data Sent (R : Type 0) : Type 0 where
  response : R → Sent R
  failed : SendError → Sent R

pub data ForwardError : Type 0 where
  backend_not_configured request_timeout connection_error : ForwardError

pub data Forwarded (R : Type 0) : Type 0 where
  upstream : R → Forwarded R
  error : ForwardError → Forwarded R

pub record PipelineContext : Type 0 where
  pub span_finalized : Bool
  pub finish_errors : ℕ

abbrev pub finish_error : PipelineContext → PipelineContext
finish_error ctx = record { span_finalized = true; finish_errors = ctx.finish_errors + 1 }

-- The result, the context, the number of requests sent, and the waits between them.
pub record Forwarding (R : Type 0) : Type 0 where
  pub result : Forwarded R
  pub ctx : PipelineContext
  pub sent : ℕ
  pub waits : List ℕ

-- `retry_backoff_base.saturating_mul(1u32 << attempt)`, in nanoseconds; the shift is that of a build
-- without overflow checks, which takes the number of places modulo 32.
unfoldable pub backoff_after : ℕ → ℕ → ℕ
backoff_after retry_backoff_base attempt =
    min (retry_backoff_base * 2 ^ (attempt % 32)) 18446744073709551615999999999

-- In `execute_pipeline`: an error of an early stage finishes the span here, forwarding has done so.
unfoldable pub finalize_on_error : PipelineContext → PipelineContext
finalize_on_error ctx = if not ctx.span_finalized then finish_error ctx else ctx

-- The settings of the pool that the loop reads.
module _ {R : Type 0} (send : ℕ → Sent R) (retry_backoff_base max_retries : ℕ) where
  abbrev pub gives_up : PipelineContext → ℕ → SendError → Forwarding R
  gives_up ctx attempt e = record {
    result = error (if e.is_timeout then request_timeout else connection_error);
    ctx = finish_error ctx;
    sent = attempt + 1;
    waits = [];
  }

  abbrev pub retries : ℕ → SendError → Bool
  retries attempt e = (e.is_connect || e.is_timeout) && ltb attempt max_retries

  abbrev pub waited : ℕ → Forwarding R → Forwarding R
  waited attempt f = record f { waits = backoff_after retry_backoff_base attempt ∷ f.waits }

  unfoldable pub forward_loop : ℕ → ℕ → PipelineContext → Option (Forwarding R)
  forward_loop zero attempt ctx = none
  forward_loop (suc fuel) attempt ctx = elim (send attempt) [
    | response r ↦ some (record { result = upstream r; ctx = ctx; sent = attempt + 1; waits = [] })
    | failed e ↦
        let rest = forward_loop fuel (attempt + 1) ctx in
        if retries attempt e
        then (rest >>= λ f. some (waited attempt f))
        else some (gives_up ctx attempt e)
  ]

  -- `configured` is `backend.is_configured()`.
  unfoldable pub forward_with_retry : Bool → PipelineContext → Option (Forwarding R)
  unfolding forward_loop
  forward_with_retry configured ctx =
      if not configured
      then some (record {
        result = error backend_not_configured;
        ctx = finish_error ctx;
        sent = 0;
        waits = [];
      })
      else forward_loop (suc max_retries) 0 ctx
