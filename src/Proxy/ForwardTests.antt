-- ===== src/Proxy/ForwardTests.antt =====
-- Forwarding with concrete answers.
use anycode.Base.{ℕ, suc, zero, ◌≡◌, refl, true, false, some, [], ◌∷◌}
use anycode.Proxy.Forward.{
  Sent, response, failed, upstream, error, request_timeout, PipelineContext, forward_loop,
  forward_with_retry, backoff_after,
}
use anycode.Proxy.Forward.Ends.{Ends}

-- Two timeouts, then an answer.
abbrev third_time : ℕ → Sent ℕ
third_time zero = failed (record { is_connect = false; is_timeout = true })
third_time (suc zero) = failed (record { is_connect = false; is_timeout = true })
third_time (suc (suc n)) = response 200

abbrev fresh : PipelineContext
fresh = record { span_finalized = false; finish_errors = 0 }

retried :
    forward_with_retry third_time 100 3 true fresh
    ≡ some (record { result = upstream 200; ctx = fresh; sent = 3; waits = 100 ∷ 200 ∷ [] })
unfolding forward_with_retry forward_loop backoff_after
retried = refl

given_up :
    forward_with_retry third_time 100 1 true fresh
    ≡ some (record {
      result = error request_timeout;
      ctx = record { span_finalized = true; finish_errors = 1 };
      sent = 2;
      waits = 100 ∷ [];
    })
unfolding forward_with_retry forward_loop backoff_after
given_up = refl
