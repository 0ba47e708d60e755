-- ===== src/Metrics/Tests.antt =====
-- Masking and counting on concrete texts and requests.
use anycode.Base.{
  suc, ◌+◌, ◌≡◌, refl, true, false, none, some, List, [], ◌∷◌, ◌++◌, codes, length, white_space,
  arith,
}
use anycode.Metrics.Redaction.{
  Chars, mask_key_value, mask_loop, mask_value, find, value_of, behind_value, trim_start, trim_end,
}
use anycode.Metrics.Redaction.Scan.{mask_key_value-total}
use anycode.Metrics.Redaction.Hidden.{free, mask_key_value-hidden}
use anycode.Metrics.Aggregator.{RequestRecord, default, update_all, Counts, update_all-Counts}

abbrev key : Chars
key = codes "api_key"

abbrev text : Chars
text = codes "u?api_key=secret-1234&x"

mask_test : mask_key_value text key ≡ some (codes "u?api_key=****1234&x")
unfolding mask_key_value mask_loop mask_value find value_of behind_value trim_start trim_end
    white_space
mask_test = refl

-- A secret of four characters is shown whole.
short_secret_test : mask_value (codes "abcd") ≡ codes "****abcd"
unfolding mask_value trim_start trim_end white_space
short_secret_test = refl

mask_key_value-total_example :
    (t : Chars) × (mask_key_value text key ≡ some t)
    × (mask_loop (suc (length text) + 2) (key ++ 0x3d ∷ []) text ≡ some t)
mask_key_value-total_example = mask_key_value-total text key 2

before_free : free (key ++ 0x3d ∷ []) (codes "u?") ≡ true
unfolding free
before_free = refl

mask_key_value-hidden_example :
    mask_key_value (codes "u?api_key=secret-1234&x") key
    ≡ mask_key_value (codes "u?api_key=other1234&x") key
unfolding white_space
mask_key_value-hidden_example =
    mask_key_value-hidden (codes "u?") key (codes "secret-1234") (codes "other1234") (codes "&x")
      before_free refl refl refl refl (λ e. cc e) (λ e. cc e)

abbrev requests : List RequestRecord
requests =
    record { status = some 200; timed_out = false; latency_ms = some 12; ttfb_ms = none }
    ∷ record { status = some 504; timed_out = false; latency_ms = none; ttfb_ms = none }
    ∷ []

update_all-Counts_example : Counts default (update_all default requests) requests
update_all-Counts_example = update_all-Counts default requests (record {
  total = omega arith;
  success_2xx = omega arith;
  client_error_4xx = omega arith;
  server_error_5xx = omega arith;
  timeouts = omega arith;
})
