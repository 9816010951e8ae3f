-- ===== src/Handlers/AuthCheck/Scopes.antt =====
-- The scope of a path under the base path.
use drogon_pay.Common.{
  ◌≡◌, refl, true, [], ◌∷◌, ◌++◌, arith, if◌then◌else◌, Bytes, codes, length, drop, starts_with,
}
use drogon_pay.Handlers.AuthCheck.{resolve_scope}

starts_with-append : (base rest : Bytes) → starts_with base (base ++ rest) ≡ true
unfolding starts_with
starts_with-append [] rest = refl
starts_with-append (c ∷ base) rest = ground (arith, starts_with-append base rest)

drop-append : (base rest : Bytes) → drop (length base) (base ++ rest) ≡ rest
drop-append [] rest = refl
drop-append (c ∷ base) rest = drop-append base rest

-- Under any base path, the paths that begin with /refund have the scope refund, but those that begin
-- with /refund/query have refund_query.
pub resolve_scope-refund :
    (base rest : Bytes)
    → resolve_scope (base ++ (codes "/refund" ++ rest)) base
      ≡ (if starts_with (codes "/query") rest then codes "refund_query" else codes "refund")
unfolding resolve_scope
resolve_scope-refund base rest =
    rw
      (
        starts_with-append base (codes "/refund" ++ rest),
        drop-append base (codes "/refund" ++ rest),
      )
      (unfold starts_with in refl)
