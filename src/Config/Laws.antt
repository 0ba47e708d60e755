-- ===== src/Config/Laws.antt =====
-- Effort caps and credentials.
use anycode.Base.{
  ℕ, String, ◌≡◌, ◌≢◌, refl, true, Option, none, some, arith, min, inl, inr, ◌↔◌, ◌⊎◌, str_eq_iff,
}
use anycode.Config.{
  Backend, cap_effort, effort_rank, max_effort, AuthType, api_key, bearer, passthrough,
  parse_auth_type, is_configured, resolve_credential, is_resolved, status_for, key_status,
}

-- The effort that is sent: the cap, or what was asked for.
abbrev pub effective : String → Option String → String
effective asked none = asked
effective asked (some capped) = capped

abbrev pub limit_rank : Option String → ℕ → ℕ
limit_rank none n = n
limit_rank (some limit) n = min (effort_rank limit) n

-- The effort sent to a backend has the smaller of the rank asked for and the rank of the limit that
-- is configured for the model's family; with no limit it is what was asked for. Capping what was
-- capped changes nothing.
pub cap_effort-rank :
    (b : Backend) (asked model : String)
    → (effort_rank (effective asked (cap_effort b asked model))
        ≡ limit_rank (max_effort b model) (effort_rank asked))
      × (cap_effort b (effective asked (cap_effort b asked model)) model ≡ none)
unfolding cap_effort
cap_effort-rank b asked model = ground arith

-- A key that is set and not empty.
abbrev pub KeySet : Option String → Type 0
KeySet none = ⊥
KeySet (some key) = key ≢ ""

key_status-KeySet : (k : Option String) → (is_resolved (key_status k) ≡ true) ↔ KeySet k
key_status-KeySet none = (λ h. cc, λ h. elim h [ ])
key_status-KeySet (some key) =
    (λ h e. ground (arith, str_eq_iff key ""), λ h. ground (arith, str_eq_iff key ""))

status_for-KeySet :
    (a : AuthType) (k : Option String)
    → (is_resolved (status_for a k) ≡ true) ↔ ((a ≡ passthrough) ⊎ KeySet k)
status_for-KeySet passthrough k = (λ h. inl refl, λ h. refl)
status_for-KeySet api_key k = (
  λ h. inr ((key_status-KeySet k).0 h),
  λ h. elim h [ inl e ↦ cc | inr s ↦ (key_status-KeySet k).1 s ],
)
status_for-KeySet bearer k = (
  λ h. inr ((key_status-KeySet k).0 h),
  λ h. elim h [ inl e ↦ cc | inr s ↦ (key_status-KeySet k).1 s ],
)

-- A backend counts as configured exactly if it passes the client's credentials through, or its key
-- is set and not empty.
pub is_configured_iff :
    (lower : String → String) (b : Backend)
    → (is_configured lower b ≡ true)
      ↔ ((parse_auth_type lower b.auth_type_str ≡ passthrough) ⊎ KeySet b.api_key)
unfolding is_configured resolve_credential
is_configured_iff lower b = status_for-KeySet (parse_auth_type lower b.auth_type_str) b.api_key
