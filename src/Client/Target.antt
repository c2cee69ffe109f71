-- ===== src/Client/Target.antt =====
-- internal/client/client.go: the URL of a request at the local target.
use gatelet.Prelude.{
  ℕ, Bool, not, ◌&&◌, Option, [], ◌∷◌, ◌++◌, if◌then◌else◌, ◌==◌, nat_eq, Result, ok, ◌>>=◌, ◌>>◌,
  fail_if, or_fail, Bytes, codes, bytes_eq, is_empty, trim_left, trim_right, has_substring,
}

-- A URL as far as `targetRequestURL` reads and sets it.
pub record Url : Type 0 where
  pub scheme : Bytes
  pub host : Bytes
  pub path : Bytes
  pub raw_query : Bytes
  pub fragment : Bytes

pub data TargetError : Type 0 where
  bad_url : TargetError
  unsupported_scheme : Bytes → TargetError
  host_required : TargetError

abbrev pub is_slash : ℕ → Bool
is_slash c = c == b'/'

abbrev pub with_scheme : Bytes → Bytes
with_scheme target =
    if has_substring (codes "://") target then target else codes "http://" ++ target

-- The URL before it is printed; `parse` is `url.Parse`.
unfoldable pub target_request_url : (Bytes → Option Url) → Bytes → Bytes → Result TargetError Url
target_request_url parse target request_uri = do
  base ← or_fail (parse (with_scheme target)) bad_url
  fail_if (not (base.scheme == codes "http") && not (base.scheme == codes "https"))
      (unsupported_scheme base.scheme)
  fail_if (is_empty base.host) host_required
  request ← or_fail (parse request_uri) bad_url
  ok (record base {
    path = trim_right is_slash base.path ++ (b'/' ∷ trim_left is_slash request.path);
    raw_query = request.raw_query;
    fragment = [];
  })
