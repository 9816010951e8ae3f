-- ===== src/Tests/Auth.antt =====
-- The theorems on API keys, at given inputs.
use drogon_pay.Common.{
  ◌≡◌, refl, ◌↔◌, false, none, some, [], ◌∷◌, ◌++◌, if◌then◌else◌, codes, bytes_eq, starts_with,
  is_empty,
}
use drogon_pay.Common.Find.{bytes_eq_iff}
use drogon_pay.Handlers.AuthCheck.{
  Crypto, HttpRequest, AuthConfig, extract_api_key, resolve_scope, allowed_keys, check_auth,
}
use drogon_pay.Handlers.AuthCheck.Access.{In, MayUse, check_auth-MayUse}
use drogon_pay.Handlers.AuthCheck.Scopes.{resolve_scope-refund}

abbrev crypto : Crypto
crypto = record { memcmp_is_zero = bytes_eq }

-- One key from the configuration, which may query refunds only, and two from the environment.
abbrev config : AuthConfig
config = record {
  api_keys = codes "k1" ∷ [];
  api_key_scopes = some ((codes "k1", some (codes "refund_query" ∷ [])) ∷ []);
  api_key_default_scopes = none;
  pay_api_key = none;
  pay_api_keys = some (codes "k2, k3");
}

abbrev refund_request : HttpRequest
refund_request = record {
  is_options = false;
  path = codes "/pay/refund";
  x_api_key = codes "k1";
  authorization = [];
}

check_auth-MayUse_example : (check_auth crypto config refund_request (codes "/pay") ≡ none) ↔ (
    (is_empty (extract_api_key refund_request) ≡ false)
    × In (extract_api_key refund_request) (allowed_keys config)
    × MayUse config
        (extract_api_key refund_request)
        (resolve_scope (codes "/pay/refund") (codes "/pay")))
check_auth-MayUse_example =
    check_auth-MayUse crypto config refund_request (codes "/pay")
      (λ a b same_length. bytes_eq_iff a b) refl

resolve_scope-refund_example :
    resolve_scope (codes "/pay" ++ (codes "/refund" ++ codes "/query/R1")) (codes "/pay") ≡ (
      if starts_with (codes "/query") (codes "/query/R1")
      then codes "refund_query"
      else codes "refund")
resolve_scope-refund_example = resolve_scope-refund (codes "/pay") (codes "/query/R1")
