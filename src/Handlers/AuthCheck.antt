-- ===== src/Handlers/AuthCheck.antt =====
-- handlers/AuthCheck.cc: the API key of a request and its scope. Metrics and log lines are left out.
pub mod Access
pub mod Scopes
use drogon_pay.Common.{
  ℕ, suc, ◌+◌, ◌-◌, ◌*◌, Bool, true, false, not, ◌&&◌, ◌||◌, Option, none, some, List, [], ◌∷◌,
  ◌++◌, ltb, ◌==◌, if◌then◌else◌, Bytes, codes, length, drop, any, substr, find_first, bytes_eq,
  starts_with, is_empty,
}

-- `CRYPTO_memcmp(a, b, n) == 0`, for texts of one length.
pub record Crypto : Type 0 where
  pub memcmp_is_zero : Bytes → Bytes → Bool

unfoldable pub constant_time_equals : Crypto → Bytes → Bytes → Bool
constant_time_equals crypto a b =
    if not (length a == length b) then false else crypto.memcmp_is_zero a b

-- The loop of `containsKeyConstantTime`: it has no early return.
unfoldable pub contains_key_from : Crypto → Bool → List Bytes → Bytes → Bool
contains_key_from crypto found [] key = found
contains_key_from crypto found (allowed ∷ keys) key =
    contains_key_from crypto (if constant_time_equals crypto allowed key then true else found) keys
      key

unfoldable pub contains_key_constant_time : Crypto → List Bytes → Bytes → Bool
contains_key_constant_time crypto keys key = contains_key_from crypto false keys key

abbrev pub is_blank : ℕ → Bool
is_blank c = c == b' ' || c == 9

-- `find_last_not_of(" \t")`
unfoldable pub find_last_not_blank : Bytes → Option ℕ
find_last_not_blank [] = none
find_last_not_blank (c ∷ s) = elim (find_last_not_blank s) [
  | some i ↦ some (suc i)
  | none ↦ if is_blank c then none else some 0
]

unfoldable pub trim : Bytes → Bytes
trim value = elim (find_first (λ c. not (is_blank c)) value) [
  | none ↦ []
  | some start ↦ elim (find_last_not_blank value) [
    | none ↦ []
    | some end_index ↦ substr start (end_index - start + 1) value
  ]
]

abbrev pub prepend : ℕ → List Bytes → List Bytes
prepend c [] = (c ∷ []) ∷ []
prepend c (token ∷ tokens) = (c ∷ token) ∷ tokens

-- The tokens of `getline` at ','; an empty one is dropped by the caller.
unfoldable pub tokens : Bytes → List Bytes
tokens [] = [] ∷ []
tokens (c ∷ s) = if c == b',' then [] ∷ tokens s else prepend c (tokens s)

abbrev pub keep_named : List Bytes → List Bytes
keep_named [] = []
keep_named (key ∷ keys) = if is_empty key then keep_named keys else key ∷ keep_named keys

abbrev pub trim_all : List Bytes → List Bytes
trim_all [] = []
trim_all (token ∷ rest) = trim token ∷ trim_all rest

unfoldable pub split_keys : Bytes → List Bytes
split_keys value = keep_named (trim_all (tokens value))

pub record HttpRequest : Type 0 where
  pub is_options : Bool
  pub path : Bytes
  pub x_api_key : Bytes
  pub authorization : Bytes

-- The member `pay` of the configuration, and the environment. A scope list that is no array is `none`;
-- so are members that are missing.
pub record AuthConfig : Type 0 where
  pub api_keys : List Bytes
  pub api_key_scopes : Option (List (Bytes × Option (List Bytes)))
  pub api_key_default_scopes : Option (Option (List Bytes))
  pub pay_api_key : Option Bytes
  pub pay_api_keys : Option Bytes

unfoldable pub extract_api_key : HttpRequest → Bytes
extract_api_key req =
    if not (is_empty req.x_api_key)
    then req.x_api_key
    else if starts_with (codes "Bearer ") req.authorization && ltb 7 (length req.authorization)
    then drop 7 req.authorization
    else req.authorization

-- The scope of a path; the empty text for a path that has none.
unfoldable pub resolve_scope : Bytes → Bytes → Bytes
resolve_scope path base_path =
    let rel : Bytes = drop (length base_path) path in
    if not (starts_with base_path path)
    then []
    else if starts_with (codes "/refund/query") rel
    then codes "refund_query"
    else if starts_with (codes "/refund") rel
    then codes "refund"
    else if starts_with (codes "/query") rel
    then codes "order_query"
    else if starts_with (codes "/reconcile") rel
    then codes "reconcile"
    else []

unfoldable pub allowed_keys : AuthConfig → List Bytes
allowed_keys config =
    keep_named config.api_keys
    ++ ((elim config.pay_api_key [ none ↦ [] | some key ↦ keep_named (trim key ∷ []) ])
        ++ (elim config.pay_api_keys [ none ↦ [] | some keys ↦ split_keys keys ]))

-- `scopeConfig.isMember(key)` and `scopeConfig[key]`.
unfoldable pub scopes_of : Bytes → List (Bytes × Option (List Bytes)) → Option (Option (List Bytes))
scopes_of key [] = none
scopes_of key ((name, scopes) ∷ rest) =
    if bytes_eq name key then some scopes else scopes_of key rest

-- The loop over a list of scopes.
unfoldable pub lists_scope : Bytes → Option (List Bytes) → Bool
lists_scope scope none = false
lists_scope scope (some scopes) = any (λ item. bytes_eq item scope) scopes

-- The refusals: 503, 401, 401 and 403.
pub data Refusal : Type 0 where
  not_configured missing_key invalid_key scope_denied : Refusal

abbrev pub is_nil : List Bytes → Bool
is_nil [] = true
is_nil (key ∷ keys) = false

unfoldable pub check_scope : AuthConfig → Bytes → Bytes → Option Refusal
check_scope config key scope = if is_empty scope then none else elim config.api_key_scopes [
  | none ↦ none
  | some scope_config ↦ elim (scopes_of key scope_config) [
    | some scopes ↦ if lists_scope scope scopes then none else some scope_denied
    | none ↦ elim config.api_key_default_scopes [
      | none ↦ none
      | some defaults ↦ if lists_scope scope defaults then none else some scope_denied
    ]
  ]
]

unfoldable pub check_auth : Crypto → AuthConfig → HttpRequest → Bytes → Option Refusal
check_auth crypto config req base_path =
    let key : Bytes = extract_api_key req in
    if req.is_options
    then none
    else if is_nil (allowed_keys config)
    then some not_configured
    else if is_empty key
    then some missing_key
    else if not (contains_key_constant_time crypto (allowed_keys config) key)
    then some invalid_key
    else check_scope config key (resolve_scope req.path base_path)
