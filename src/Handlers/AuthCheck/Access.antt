-- ===== src/Handlers/AuthCheck/Access.antt =====
-- Who passes `checkAuth`.
use drogon_pay.Common.{
  ◌≡◌, refl, ap, ◌↔◌, ◌⊎◌, inl, inr, true, false, Option, none, some, List, [], ◌∷◌, arith, ◌==◌,
  ==_iff, Bool-cases, Option-cases, Bytes, length, any, bytes_eq, is_empty,
}
use drogon_pay.Common.Find.{bytes_eq_iff}
use drogon_pay.Handlers.AuthCheck.{
  Crypto, constant_time_equals, contains_key_from, contains_key_constant_time, HttpRequest,
  AuthConfig, extract_api_key, resolve_scope, allowed_keys, scopes_of, lists_scope, is_nil,
  check_scope, check_auth,
}

abbrev pub In : Bytes → List Bytes → Type 0
In key [] = ⊥
In key (x ∷ xs) = (x ≡ key) ⊎ In key xs

-- The scopes that a key has, where it is restricted: its own list, or the default one. What is
-- configured as something other than a list grants nothing.
abbrev pub listed : Option (List Bytes) → List Bytes
listed none = []
listed (some scopes) = scopes

abbrev pub granted : AuthConfig → Bytes → Option (List Bytes)
granted config key = elim config.api_key_scopes [
  | none ↦ none
  | some scope_config ↦ elim (scopes_of key scope_config) [
    | some scopes ↦ some (listed scopes)
    | none ↦ elim config.api_key_default_scopes [ some scopes ↦ some (listed scopes) | none ↦ none ]
  ]
]

-- A key may use a scope that it is granted, a path without a scope, and everything if it is not
-- restricted.
abbrev pub MayUse : AuthConfig → Bytes → Bytes → Type 0
MayUse config key scope = elim (granted config key) [
  | none ↦ Unit {0}
  | some scopes ↦ (is_empty scope ≡ true) ⊎ In scope scopes
]

-- What OpenSSL says of CRYPTO_memcmp.
abbrev pub ComparesTexts : Crypto → Type 0
ComparesTexts crypto =
    (a b : Bytes) → length a ≡ length b → (crypto.memcmp_is_zero a b ≡ true) ↔ (a ≡ b)

constant_time_equals_iff :
    (crypto : Crypto)
    → ComparesTexts crypto
    → (a b : Bytes) → (constant_time_equals crypto a b ≡ true) ↔ (a ≡ b)
unfolding constant_time_equals
constant_time_equals_iff crypto law a b = elim (Bool-cases (length a == length b)) [
  | inl same ↦ rw same (law a b ((==_iff (length a) (length b)).0 same))
  | inr other ↦ rw other ((λ e. cc), λ e. absurd (differ e other))
]
  where
    differ : a ≡ b → length a == length b ≡ false → ⊥
    differ e other = ground (arith, ap length e, other)

contains_key_from_found :
    (crypto : Crypto) (keys : List Bytes) (key : Bytes)
    → contains_key_from crypto true keys key ≡ true
unfolding contains_key_from
contains_key_from_found crypto [] key = refl
contains_key_from_found crypto (allowed ∷ keys) key =
    ground (arith, contains_key_from_found crypto keys key)

contains_key_iff :
    (crypto : Crypto)
    → ComparesTexts crypto
    → (keys : List Bytes) (key : Bytes)
    → (contains_key_from crypto false keys key ≡ true) ↔ In key keys
unfolding contains_key_from
contains_key_iff crypto law [] key = ground arith
contains_key_iff crypto law (allowed ∷ keys) key =
    elim (Bool-cases (constant_time_equals crypto allowed key)) [
      | inl same ↦ rw same (
        (λ h. inl ((constant_time_equals_iff crypto law allowed key).0 same)),
        λ h. contains_key_from_found crypto keys key,
      )
      | inr other ↦ rw other (
        (λ h. inr ((contains_key_iff crypto law keys key).0 h)),
        λ h. elim h [
          | inl e ↦ cc ((constant_time_equals_iff crypto law allowed key).1 e, other)
          | inr later ↦ (contains_key_iff crypto law keys key).1 later
        ],
      )
    ]

any_iff :
    (scope : Bytes) (scopes : List Bytes)
    → (any (λ item. bytes_eq item scope) scopes ≡ true) ↔ In scope scopes
any_iff scope [] = ground arith
any_iff scope (x ∷ scopes) = ground (arith, bytes_eq_iff x scope, any_iff scope scopes)

lists_scope_iff :
    (scope : Bytes) (scopes : Option (List Bytes))
    → (lists_scope scope scopes ≡ true) ↔ In scope (listed scopes)
unfolding lists_scope
lists_scope_iff scope none = ground arith
lists_scope_iff scope (some scopes) = any_iff scope scopes

check_scope-MayUse :
    (config : AuthConfig) (key scope : Bytes)
    → (check_scope config key scope ≡ none) ↔ MayUse config key scope
unfolding check_scope
check_scope-MayUse config key scope = elim (Option-cases config.api_key_scopes) [
  | inl open_keys ↦ rw open_keys (ground arith)
  | inr (scope_config, e) ↦ elim (Option-cases (scopes_of key scope_config)) [
    | inr (scopes, own) ↦ rw (e, own) (ground (arith, lists_scope_iff scope scopes))
    | inl no_own ↦ elim (Option-cases config.api_key_default_scopes) [
      | inl no_default ↦ rw (e, no_own, no_default) (ground arith)
      | inr (defaults, d) ↦ rw (e, no_own, d) (ground (arith, lists_scope_iff scope defaults))
    ]
  ]
]

-- With a comparison of texts as OpenSSL documents it: a request that is no OPTIONS request passes just
-- when its key is not empty, is one of the configured keys, and may use the scope of the path.
pub check_auth-MayUse :
    (crypto : Crypto) (config : AuthConfig) (req : HttpRequest) (base_path : Bytes)
    → ComparesTexts crypto
    → req.is_options ≡ false
    → (check_auth crypto config req base_path ≡ none) ↔ (
        (is_empty (extract_api_key req) ≡ false)
        × In (extract_api_key req) (allowed_keys config)
        × MayUse config (extract_api_key req) (resolve_scope req.path base_path))
unfolding check_auth contains_key_constant_time extract_api_key
check_auth-MayUse crypto config req base_path law plain =
    elim (Bool-cases (is_nil (allowed_keys config))) [
      | inl nobody ↦
          rw (plain, nobody)
            ((λ e. absurd (cc e)), λ h. absurd (not_nil (allowed_keys config) nobody h.1))
      | inr somebody ↦ elim (Bool-cases (is_empty (extract_api_key req))) [
        | inl missing ↦ rw (plain, somebody, missing) ((λ e. absurd (cc e)), λ h. absurd (cc h.0))
        | inr named ↦
            elim (Bool-cases
              (contains_key_from crypto false (allowed_keys config) (extract_api_key req))) [
                | inr unknown ↦
                    rw (plain, somebody, named, unknown)
                      (
                        (λ e. absurd (cc e)),
                        λ h. absurd (
                            cc (
                              (contains_key_iff crypto law (allowed_keys config)
                                    (extract_api_key req)).1
                                  h.1,
                              unknown,
                            )),
                      )
                | inl known ↦
                    rw (plain, somebody, named, known)
                      (
                        (λ e. (
                          refl,
                          (contains_key_iff crypto law (allowed_keys config)
                                (extract_api_key req)).0
                              known,
                          (check_scope-MayUse config (extract_api_key req)
                                (resolve_scope req.path base_path)).0
                              e,
                        )),
                        λ h.
                            (check_scope-MayUse config (extract_api_key req)
                                (resolve_scope req.path base_path)).1
                              h.2,
                      )
              ]
      ]
    ]
  where
    not_nil : (keys : List Bytes) → is_nil keys ≡ true → In (extract_api_key req) keys → ⊥
    not_nil [] e h = h
    not_nil (k ∷ keys) e h = cc
