-- ===== src/Client/Replay/Command.antt =====
-- The curl command of a captured request as a shell reads it.
use gatelet.Prelude.{
  ◌≡◌, refl, sym, ap, ◌∙◌, true, Option, none, some, List, [], ◌∷◌, ◌++◌, append-nil, All, ok,
  ◌>>=◌, Bytes, codes,
}
use gatelet.Client.Replay.{
  Captured, replay_body, public_request_url, method_or_get, value_parts, header_parts, body_parts,
  join, curl_parts, curl_command,
}
use gatelet.Client.Replay.Shell.{
  is_plain, between, emit, shell_words, Reads, shell_quote-Reads, plain-Reads, plain_text-Reads,
}

-- The parts read, in order, as the words.
data ReadAll : List Bytes → List Bytes → Type 0 where
  no_parts : ReadAll [] []
  one_more :
      (p w : Bytes) → (ps ws : List Bytes) → Reads p w → ReadAll ps ws → ReadAll (p ∷ ps) (w ∷ ws)

ReadAll-append :
    (ps ws qs vs : List Bytes) → ReadAll ps ws → ReadAll qs vs → ReadAll (ps ++ qs) (ws ++ vs)
ReadAll-append _ _ qs vs no_parts more = more
ReadAll-append _ _ qs vs (one_more p w ps ws reads rest) more =
    one_more p w (ps ++ qs) (ws ++ vs) reads (ReadAll-append ps ws qs vs rest more)

shell_words-join : (ps ws : List Bytes) → ReadAll ps ws → shell_words between (join ps) ≡ some ws
unfolding shell_words
shell_words-join _ _ no_parts = refl
shell_words-join _ _ (one_more p w _ _ reads no_parts) =
    ap (shell_words between) (sym (append-nil p)) ∙ reads []
shell_words-join _ _ (one_more p w _ _ reads (one_more q v ps ws reads' rest)) =
    reads (b' ' ∷ join (q ∷ ps))
    ∙ ap (emit (w ∷ [])) (shell_words-join (q ∷ ps) (v ∷ ws) (one_more q v ps ws reads' rest))

-- The words of the command: the headers of one key, those of all keys, and the body's.
abbrev pub value_words : Bytes → List Bytes → List Bytes
value_words key [] = []
value_words key (v ∷ vs) = codes "-H" ∷ (key ++ (codes ": " ++ v)) ∷ value_words key vs

abbrev pub header_words : List (Bytes × List Bytes) → List Bytes
header_words [] = []
header_words ((key, vs) ∷ hs) = value_words key vs ++ header_words hs

abbrev pub body_words : Option Bytes → List Bytes
body_words none = []
body_words (some body) = codes "--data-binary" ∷ body ∷ []

-- The arguments that curl is run with.
abbrev pub curl_words : Captured → Bytes → Option Bytes → List Bytes
curl_words e public_url body =
    codes "curl"
    ∷ codes "-X"
    ∷ method_or_get e.method
    ∷ public_request_url public_url e.request_uri
    ∷ (header_words e.headers ++ body_words body)

value_parts-ReadAll :
    (key : Bytes) → (vs : List Bytes) → ReadAll (value_parts key vs) (value_words key vs)
unfolding value_parts
value_parts-ReadAll key [] = no_parts
value_parts-ReadAll key (v ∷ vs) =
    one_more _ _ _ _ (plain_text-Reads b'-' (codes "H") refl)
      (one_more _ _ _ _ (shell_quote-Reads (key ++ (codes ": " ++ v))) (value_parts-ReadAll key vs))

header_parts-ReadAll :
    (hs : List (Bytes × List Bytes)) → ReadAll (header_parts hs) (header_words hs)
unfolding header_parts
header_parts-ReadAll [] = no_parts
header_parts-ReadAll ((key, vs) ∷ hs) =
    ReadAll-append _ _ _ _ (value_parts-ReadAll key vs) (header_parts-ReadAll hs)

body_parts-ReadAll : (b : Option Bytes) → ReadAll (body_parts b) (body_words b)
body_parts-ReadAll none = no_parts
body_parts-ReadAll (some body) =
    one_more _ _ _ _ (plain_text-Reads b'-' (codes "-data-binary") refl)
      (one_more _ _ _ _ (shell_quote-Reads body) no_parts)

method_or_get-Reads :
    (m : Bytes) → All (λ c. is_plain c ≡ true) m → Reads (method_or_get m) (method_or_get m)
method_or_get-Reads [] _ = plain_text-Reads b'G' (codes "ET") refl
method_or_get-Reads (c ∷ m) plain = plain-Reads c m plain

-- Where the captured body is whole and the method is letters, digits and dashes, the command that is
-- shown is read by a POSIX shell as exactly the words curl, -X, the method (GET for none), the request's
-- URL, -H with `key: value` for each header value in order, and --data-binary with the body if there is
-- one, whatever bytes the URL, the headers and the body hold.
pub curl_command-shell_words :
    (e : Captured)
    → (public_url : Bytes) → (body : Option Bytes) → All (λ c. is_plain c ≡ true) e.method
    → replay_body e.request_preview ≡ ok body
    → (command : Bytes) × (curl_command e public_url ≡ ok command)
      × (shell_words between command ≡ some (curl_words e public_url body))
unfolding curl_command curl_parts
curl_command-shell_words e public_url body plain whole = (
  join (curl_parts e public_url body),
  ap (λ r. r >>= λ b. ok (join (curl_parts e public_url b))) whole,
  shell_words-join _ _ (
      one_more (codes "curl") (codes "curl") _ _ (plain_text-Reads b'c' (codes "url") refl) (
        one_more (codes "-X") (codes "-X") _ _ (plain_text-Reads b'-' (codes "X") refl) (
          one_more _ _ _ _ (method_or_get-Reads e.method plain) (
            one_more _ _ _ _ (shell_quote-Reads (public_request_url public_url e.request_uri)) (
              ReadAll-append _ _ _ _ (header_parts-ReadAll e.headers)
                (body_parts-ReadAll body)))))),
)
