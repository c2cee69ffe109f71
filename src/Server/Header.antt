-- ===== src/Server/Header.antt =====
-- `copyHeader` of internal/server/server.go, which internal/client/client.go has as well and calls for its
-- `cloneHeader`. The keys of a header that was read are in canonical form, so `Add` leaves them.
pub mod Copied
use gatelet.Prelude.{List, [], ◌∷◌, ◌++◌, nat_eq, GoMap, lookup, insert, Bytes, bytes_eq, or_else}

abbrev pub Header : Type 0
Header = GoMap Bytes (List Bytes)

-- `http.Header.Add`.
unfoldable pub add_value : Header → Bytes → Bytes → Header
add_value h key value = insert key (or_else (lookup key h) [] ++ value ∷ []) h

add_values : Header → Bytes → List Bytes → Header
add_values h key [] = h
add_values h key (value ∷ values) = add_values (add_value h key value) key values

unfoldable pub copy_header : Header → Header → Header
unfolding add_values
copy_header dst [] = dst
copy_header dst ((key, values) ∷ src) = copy_header (add_values dst key values) src

unfoldable pub clone_header : Header → Header
unfolding copy_header
clone_header src = copy_header [] src
