-- ===== src/Client/Replay.antt =====
-- internal/client/replay.go: the curl command of a captured request, and the body and the URL that a
-- replay uses.
pub mod Shell
pub mod Command
pub mod Request
use gatelet.Prelude.{
  ℕ, Bool, not, Option, none, some, List, [], ◌∷◌, ◌++◌, if◌then◌else◌, ◌==◌, nat_eq, length,
  Result, ok, err, ◌>>=◌, ◌>>◌, Bytes, codes, bytes_eq, is_empty, starts_with, trim_right,
}
use gatelet.Client.Preview.{BodyPreview}

-- What the functions read of a `RequestEvent`; `headers` lists each key with its values in the order
-- of `sort.Strings`.
pub record Captured : Type 0 where
  pub method : Bytes
  pub request_uri : Bytes
  pub headers : List (Bytes × List Bytes)
  pub request_preview : BodyPreview

pub data ReplayError : Type 0 where
  body_unavailable : Bytes → ReplayError
  body_incomplete : ReplayError

-- The body, or `none` for a request without one.
unfoldable pub replay_body : BodyPreview → Result ReplayError (Option Bytes)
replay_body p =
    if p.omitted
    then err (body_unavailable p.reason)
    else if p.size == 0
    then ok none
    else if not (length p.text == p.size)
    then err body_incomplete
    else ok (some p.text)

is_slash : ℕ → Bool
is_slash c = c == b'/'

abbrev with_slash : Bytes → Bytes
with_slash uri = if starts_with (codes "/") uri then uri else b'/' ∷ uri

unfoldable pub public_request_url : Bytes → Bytes → Bytes
unfolding is_slash
public_request_url public_url uri = trim_right is_slash public_url ++ with_slash uri

-- `strings.ReplaceAll(value, "'", "'\\''")`.
escape_quotes : Bytes → Bytes
escape_quotes [] = []
escape_quotes (c ∷ cs) =
    if c == b'\'' then b'\'' ∷ b'\\' ∷ b'\'' ∷ b'\'' ∷ escape_quotes cs else c ∷ escape_quotes cs

unfoldable pub shell_quote : Bytes → Bytes
unfolding escape_quotes
shell_quote value =
    if is_empty value then codes "''" else b'\'' ∷ (escape_quotes value ++ b'\'' ∷ [])

abbrev method_or_get : Bytes → Bytes
method_or_get method = if is_empty method then codes "GET" else method

value_parts : Bytes → List Bytes → List Bytes
value_parts key [] = []
value_parts key (v ∷ vs) = codes "-H" ∷ shell_quote (key ++ (codes ": " ++ v)) ∷ value_parts key vs

header_parts : List (Bytes × List Bytes) → List Bytes
header_parts [] = []
header_parts ((key, vs) ∷ hs) = value_parts key vs ++ header_parts hs

abbrev body_parts : Option Bytes → List Bytes
body_parts none = []
body_parts (some body) = codes "--data-binary" ∷ shell_quote body ∷ []

-- `strings.Join(parts, " ")`.
abbrev pub join : List Bytes → Bytes
join [] = []
join (p ∷ []) = p
join (p ∷ q ∷ ps) = p ++ (b' ' ∷ join (q ∷ ps))

curl_parts : Captured → Bytes → Option Bytes → List Bytes
curl_parts e public_url body =
    codes "curl"
    ∷ codes "-X"
    ∷ method_or_get e.method
    ∷ shell_quote (public_request_url public_url e.request_uri)
    ∷ (header_parts e.headers ++ body_parts body)

unfoldable pub curl_command : Captured → Bytes → Result ReplayError Bytes
unfolding curl_parts header_parts value_parts
curl_command e public_url = do
  body ← replay_body e.request_preview
  ok (join (curl_parts e public_url body))
