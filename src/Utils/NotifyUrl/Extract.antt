-- ===== src/Utils/NotifyUrl/Extract.antt =====
-- About `extractUrlHost`, on URLs that are put together from their parts.

use mathlib.Core.List.{append-nil, append_assoc}
use drogon_pay.Common.{
  ℕ, suc, ◌+◌, ◌-◌, ◌<◌, ◌≡◌, refl, sym, ap, ◌∙◌, ◌≢◌, ◌⊎◌, inl, inr, Bool, true, false, not,
  Option, none, some, [], ◌∷◌, ◌++◌, arith, leb, ◌==◌, Bytes, codes, length, take, any, find_first,
  find_sub,
}
use drogon_pay.Common.Find.{
  find_first-none, find_first-append, take-append_self, drop-append_self, Lacks, any-append,
  take-length_add, rfind-none, rfind-append, get_or-append, length-append, find_first_from-length,
}
use drogon_pay.Utils.NotifyUrl.{
  is_authority_end, is_host_end, authority_end, skip_userinfo, host_at, extract_url_host,
}

-- `s` is empty or begins with a byte that passes.
abbrev pub begins : (ℕ → Bool) → Bytes → Bool
begins p [] = true
begins p (c ∷ s) = p c

-- A byte string in front of a text that begins at `p`: where a search for `p` stops.
stop_at : (p : ℕ → Bool) (s t : Bytes) → Option ℕ
stop_at p s [] = none
stop_at p s (c ∷ t) = some (length s)

find_first-begins :
    (p : ℕ → Bool) (s t : Bytes)
    → any p s ≡ false
    → begins p t ≡ true
    → find_first p (s ++ t) ≡ stop_at p s t
unfolding stop_at
find_first-begins p s [] h k = rw (append-nil s) (find_first-none p s h)
find_first-begins p s (c ∷ t) h k = find_first-append p s c t h k

-- The end of an authority `auth` that starts behind `pre`.
authority_end-append :
    (pre auth path : Bytes)
    → any is_authority_end auth ≡ false
    → begins is_authority_end path ≡ true
    → authority_end (pre ++ (auth ++ path)) (length pre) ≡ length pre + length auth
unfolding authority_end stop_at
authority_end-append pre auth [] h k =
    rw
      (
        find_first_from-length is_authority_end pre (auth ++ []),
        find_first-begins is_authority_end auth [] h refl,
        authority_end,
        append-nil auth,
      )
      (length-append pre auth)
authority_end-append pre auth (c ∷ path) h k = rw (
  find_first_from-length is_authority_end pre (auth ++ c ∷ path),
  find_first-begins is_authority_end auth (c ∷ path) h k,
  authority_end,
)

-- The bytes that `rfind` looks at.
authority_bytes :
    (pre auth path : Bytes) → take (length pre + length auth) (pre ++ (auth ++ path)) ≡ pre ++ auth
authority_bytes pre auth path =
    rw (take-length_add pre (auth ++ path) (length auth), take-append_self auth path)

skip_userinfo-none :
    (pre auth path : Bytes)
    → any is_authority_end auth ≡ false
    → begins is_authority_end path ≡ true
    → Lacks b'@' pre
    → Lacks b'@' auth
    → skip_userinfo (pre ++ (auth ++ path)) (length pre) ≡ length pre
unfolding skip_userinfo
skip_userinfo-none pre auth path h k l m =
    rw
      (
        authority_end-append pre auth path h k,
        authority_bytes pre auth path,
        rfind-none b'@' (pre ++ auth) (any-append (λ d. d == b'@') pre auth l m),
      )
      (ground arith)

skip_userinfo-some :
    (pre info rest path : Bytes)
    → any is_authority_end info ≡ false
    → any is_authority_end rest ≡ false
    → begins is_authority_end path ≡ true
    → Lacks b'@' rest
    → skip_userinfo (pre ++ ((info ++ b'@' ∷ rest) ++ path)) (length pre)
      ≡ length (pre ++ (info ++ b'@' ∷ []))
unfolding skip_userinfo
skip_userinfo-some pre info rest path h g k m =
    rw
      (
        authority_end-append pre (info ++ b'@' ∷ rest) path
            (any-append is_authority_end info (b'@' ∷ rest) h g) k,
        authority_bytes pre (info ++ b'@' ∷ rest) path,
        ← append_assoc pre info (b'@' ∷ rest),
        rfind-append b'@' (pre ++ info) rest m,
      )
      (ground (
        arith,
        length-append pre info,
        length-append info (b'@' ∷ rest),
        length-append pre (info ++ b'@' ∷ []),
        length-append info (b'@' ∷ []),
      ))

host_at-append :
    (pre : Bytes) (c : ℕ) (host rest : Bytes)
    → c ≢ b'['
    → any is_host_end (c ∷ host) ≡ false
    → begins is_host_end rest ≡ true
    → host_at (pre ++ (c ∷ host ++ rest)) (length pre) ≡ c ∷ host
unfolding host_at stop_at
host_at-append pre c host [] n h k =
    rw
      (
        get_or-append pre c (host ++ []),
        find_first_from-length is_host_end pre (c ∷ host ++ []),
        find_first-begins is_host_end (c ∷ host) [] h refl,
        host_at,
        drop-append_self pre (c ∷ host ++ []),
      )
      (ground (arith, append-nil host))
host_at-append pre c host (d ∷ rest) n h k =
    rw
      (
        get_or-append pre c (host ++ d ∷ rest),
        find_first_from-length is_host_end pre (c ∷ host ++ d ∷ rest),
        find_first-begins is_host_end (c ∷ host) (d ∷ rest) h k,
        host_at,
        drop-append_self pre (c ∷ host ++ d ∷ rest),
      )
      (ground (arith, takes, take-append_self (c ∷ host) (d ∷ rest)))
  where
    takes : length pre + suc (length host) - length pre ≡ suc (length host)
    takes = omega arith

-- The parts of a callback URL, as RFC 3986 names them. The userinfo keeps its '@' and the port its
-- ':'.
pub record Url : Type 0 where
  pub scheme : Bytes
  pub userinfo : Bytes
  pub host : Bytes
  pub port : Bytes
  pub path : Bytes

abbrev pub url_text : Url → Bytes
url_text u = u.scheme ++ ((u.userinfo ++ (u.host ++ u.port)) ++ u.path)

abbrev pub starts_host : Bytes → Bool
starts_host [] = false
starts_host (c ∷ s) = not (c == b'[')

pub record IsUrl (u : Url) : Type 0 where
  pub known_scheme : (u.scheme ≡ codes "http://") ⊎ (u.scheme ≡ codes "https://")
  pub user_part :
      (u.userinfo ≡ [])
      ⊎ ((info : Bytes) × (u.userinfo ≡ info ++ b'@' ∷ []) × (any is_authority_end info ≡ false))
  pub host_head : starts_host u.host ≡ true
  pub host_body : any is_host_end u.host ≡ false
  pub host_no_at : Lacks b'@' u.host
  pub port_head : begins (λ c. c == b':') u.port ≡ true
  pub port_body : any is_authority_end u.port ≡ false
  pub port_no_at : Lacks b'@' u.port
  pub path_head : begins is_authority_end u.path ≡ true

scheme_found :
    (scheme rest : Bytes)
    → (scheme ≡ codes "http://") ⊎ (scheme ≡ codes "https://")
    → (i : ℕ) × (find_sub (codes "://") (scheme ++ rest) ≡ some i)
      × (i + 3 ≡ length scheme)
      × Lacks b'@' scheme
unfolding find_sub
scheme_found scheme rest (inl e) = rw e (4, refl, refl, refl)
scheme_found scheme rest (inr e) = rw e (5, refl, refl, refl)

host_no_authority_end : (s : Bytes) → any is_host_end s ≡ false → any is_authority_end s ≡ false
host_no_authority_end [] h = refl
host_no_authority_end (c ∷ s) h = ground (arith, host_no_authority_end s)

tail_begins :
    (port path : Bytes)
    → begins (λ c. c == b':') port ≡ true
    → begins is_authority_end path ≡ true
    → begins is_host_end (port ++ path) ≡ true
tail_begins [] [] h k = refl
tail_begins [] (c ∷ path) h k = ground arith
tail_begins (c ∷ port) path h k = ground arith

host_of_text :
    (pre host rest : Bytes)
    → starts_host host ≡ true
    → any is_host_end host ≡ false
    → begins is_host_end rest ≡ true
    → host_at (pre ++ (host ++ rest)) (length pre) ≡ host
host_of_text pre [] rest n h k = cc
host_of_text pre (c ∷ host) rest n h k = host_at-append pre c host rest (λ e. ground arith) h k

skip_userinfo_lem :
    (pre userinfo rest path : Bytes)
    → (userinfo ≡ [])
      ⊎ ((info : Bytes) × (userinfo ≡ info ++ b'@' ∷ []) × (any is_authority_end info ≡ false))
    → any is_authority_end rest ≡ false
    → begins is_authority_end path ≡ true
    → Lacks b'@' pre
    → Lacks b'@' rest
    → skip_userinfo (pre ++ ((userinfo ++ rest) ++ path)) (length pre) ≡ length (pre ++ userinfo)
skip_userinfo_lem pre userinfo rest path (inl e) h k l m =
    rw e (skip_userinfo-none pre rest path h k l m ∙ ap length (sym (append-nil pre)))
skip_userinfo_lem pre userinfo rest path (inr (info, e, g)) h k l m =
    rw (e, append_assoc info (b'@' ∷ []) rest) (skip_userinfo-some pre info rest path g h k m)

host_length : (s : Bytes) → starts_host s ≡ true → 0 < length s
host_length [] h = cc
host_length (c ∷ s) h = omega arith

module _ (u : Url) (v : IsUrl u) where
  open u use {scheme, userinfo, host, port, path}

  host_port_body : any is_authority_end (host ++ port) ≡ false
  host_port_body =
      any-append is_authority_end host port (host_no_authority_end host v.host_body) v.port_body

  host_port_no_at : Lacks b'@' (host ++ port)
  host_port_no_at = any-append (λ d. d == b'@') host port v.host_no_at v.port_no_at

  -- Behind the userinfo stands the host.
  skipped : skip_userinfo (url_text u) (length scheme) ≡ length (scheme ++ userinfo)
  skipped =
      skip_userinfo_lem scheme userinfo (host ++ port) path v.user_part host_port_body v.path_head
        (scheme_found scheme [] v.known_scheme).3 host_port_no_at

  regroup : url_text u ≡ (scheme ++ userinfo) ++ (host ++ (port ++ path))
  regroup = simp append_assoc

  extracted : host_at (url_text u) (length (scheme ++ userinfo)) ≡ host
  extracted = rw regroup (
      host_of_text (scheme ++ userinfo) host (port ++ path) v.host_head v.host_body
        (tail_begins port path v.port_head v.path_head))

  long_enough : leb (length (url_text u)) (length scheme) ≡ false
  long_enough = ground (
    arith,
    ap length regroup,
    length-append (scheme ++ userinfo) (host ++ (port ++ path)),
    length-append scheme userinfo,
    length-append host (port ++ path),
    host_length host v.host_head,
  )

-- Of a well-formed http or https URL whose host is no bracketed literal, `extractUrlHost` answers the
-- host: the text behind the userinfo, whatever ":", "." and "@" that holds, and before the port, the
-- path, the query and the fragment.
pub extract_url_host-url_text : (u : Url) → IsUrl u → extract_url_host (url_text u) ≡ u.host
unfolding extract_url_host
extract_url_host-url_text u v =
    let (i, found, three, no_at) =
      scheme_found u.scheme ((u.userinfo ++ (u.host ++ u.port)) ++ u.path) v.known_scheme in
    rw (found, extract_url_host, three, long_enough u v, skipped u v) (extracted u v)
