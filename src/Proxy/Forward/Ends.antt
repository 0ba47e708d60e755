-- ===== src/Proxy/Forward/Ends.antt =====
-- Forwarding ends, and a request that fails is finished once (src/proxy/pipeline/forward.rs,
-- src/proxy/pipeline/mod.rs).
use anycode.Base.{
  ℕ, zero, suc, ◌+◌, ◌≤◌, ◌≡◌, false, ◌&&◌, ◌||◌, Option, some, List, [], ◌∷◌, ◌-◌, ◌*◌, ◌^◌, ◌%◌,
  min, ltb, length, if◌then◌else◌, ◌>>=◌,
}
use anycode.Proxy.Forward.{
  Sent, SendError, request_timeout, connection_error, response, failed, upstream, error,
  backend_not_configured, PipelineContext, finish_error, Forwarding, gives_up, retries, waited,
}

module _ {R : Type 0} (send : ℕ → Sent R) (retry_backoff_base max_retries : ℕ) where
  -- The waits before a number of retries, the first one behind the attempt of a number: the base, times
  -- two to the number of the attempt modulo 32, and the longest duration at most.
  abbrev pub waits_from : (attempt retries : ℕ) → List ℕ
  waits_from attempt zero = []
  waits_from attempt (suc n) =
      min (retry_backoff_base * 2 ^ (attempt % 32)) 18446744073709551615999999999
      ∷ waits_from (attempt + 1) n

  -- An answer is that of the last attempt, and leaves the span open. An error has finished it: the
  -- backend is not configured, or the last attempt failed in a way that is not tried again or as the
  -- last one that is allowed.
  pub data Result (ctx : PipelineContext) (f : Forwarding R) : Type 0 where
    answered :
        (r : R) (last : ℕ)
        → f.result ≡ upstream r
        → last + 1 ≡ f.sent
        → send last ≡ response r
        → f.ctx ≡ ctx
        → Result ctx f
    not_configured :
        f.result ≡ error backend_not_configured
        → f.sent ≡ 0
        → f.ctx ≡ finish_error ctx
        → Result ctx f
    gave_up :
        (e : SendError) (last : ℕ)
        → f.result ≡ error (if e.is_timeout then request_timeout else connection_error)
        → last + 1 ≡ f.sent
        → send last ≡ failed e
        → ((e.is_connect || e.is_timeout) && ltb last max_retries) ≡ false
        → f.ctx ≡ finish_error ctx
        → Result ctx f

  -- From the attempt of a number on.
  record EndsFrom (attempt : ℕ) (ctx : PipelineContext) (f : Forwarding R) : Type 0 where
    ends : Result ctx f
    bounded : f.sent ≤ max_retries + 1
    counted : f.sent ≡ attempt + length f.waits + 1
    waits : f.waits ≡ waits_from attempt (length f.waits)

  -- One round of the loop, given the rounds after it.
  round : ℕ → PipelineContext → Sent R → Option (Forwarding R) → Option (Forwarding R)
  round attempt ctx (response r) rest =
      some (record { result = upstream r; ctx = ctx; sent = attempt + 1; waits = [] })
  round attempt ctx (failed e) rest =
      if retries send retry_backoff_base max_retries attempt e
      then (rest >>= λ f. some (waited send retry_backoff_base max_retries attempt f))
      else some (gives_up send retry_backoff_base max_retries ctx attempt e)

  Ending : ℕ → PipelineContext → Option (Forwarding R) → Type 0
  Ending attempt ctx o = (f : Forwarding R) × (o ≡ some f) × EndsFrom attempt ctx f

  -- How forwarding a request ends.
  pub record Ends (ctx : PipelineContext) (f : Forwarding R) : Type 0 where
    pub ends : Result ctx f
    pub bounded : f.sent ≤ max_retries + 1
    pub waits : f.waits ≡ waits_from 0 (f.sent - 1)
