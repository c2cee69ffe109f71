-- ===== src/Server/Names/Laws.antt =====
-- The configured tokens and names, as lookups see them.
use gatelet.Prelude.{
  ◌≡◌, refl, ap, ◌∙◌, ◌↔◌, ◌⊎◌, Bool, true, false, not, ◌&&◌, ◌||◌, Option, none, some, List, [],
  ◌∷◌, map, arith, if◌then◌else◌, ◌==◌, nat_eq, ==_iff, contains, GoMap, lookup, insert,
  lookup-insert, Bytes, codes, bytes_beq_iff, bytes_eq, is_empty, trim_space,
}
use gatelet.Server.Names.{
  Token, Config, NameSet, normalize_name, add_names, normalize_name_set, add_reserved,
  built_in_names, normalize_reserved_names, add_tokens, default_token, new_settings, only_active,
  token, is_some, is_nil, name_allowed,
}

-- The last entry of a list with an id that is usable, described from the end of the list.
abbrev pub last_usable : Bytes → List Token → Option Token
last_usable id [] = none
last_usable id (t ∷ ts) = elim (last_usable id ts) [
  | some u ↦ some u
  | none ↦ if not (is_empty t.id) && not (is_empty t.value) && t.id == id then some t else none
]

abbrev or_last : Option Token → Option Token → Option Token
or_last none o = o
or_last (some t) o = some t

lookup-add_tokens :
    (id : Bytes) (m : GoMap Bytes Token) (ts : List Token)
    → lookup id (add_tokens m ts) ≡ or_last (last_usable id ts) (lookup id m)
unfolding add_tokens
lookup-add_tokens id m [] = refl
lookup-add_tokens id m (t ∷ ts) = ground (
  arith,
  lookup-add_tokens id m ts,
  lookup-add_tokens id (insert t.id t m) ts,
  lookup-insert t.id id t m,
)

-- A token id authenticates by the last usable entry of the configuration that carries it, the single
-- shared token being an entry "default" before the list, and only if that entry is active.
pub token-new_settings :
    (c : Config) (action id : Bytes)
    → token (new_settings c action) id
      ≡ only_active (last_usable id (default_token c.token ∷ c.tokens))
unfolding token new_settings lookup insert
token-new_settings c action id =
    ap only_active (lookup-add_tokens id _ c.tokens ∙ ground (arith, ==_iff (codes "default") id))

lookup-add_names :
    (k : Bytes) (set : NameSet) (ns : List Bytes)
    → is_some (lookup k (add_names set ns))
      ≡ (is_some (lookup k set) || (not (is_empty k) && contains k (map normalize_name ns)))
unfolding add_names
lookup-add_names k set [] = ground arith
lookup-add_names k set (n ∷ ns) =
    let name = normalize_name n in
    ground (
      arith,
      bytes_beq_iff name k,
      lookup-add_names k set ns,
      lookup-add_names k (insert name tt set) ns,
      lookup-insert name k tt set,
    )

lookup-add_reserved :
    (k : Bytes) (set : NameSet) (ns : List Bytes)
    → is_some (lookup k (add_reserved set ns))
      ≡ (is_some (lookup k set) || (not (is_empty k) && contains k ns))
unfolding add_reserved
lookup-add_reserved k set [] = ground arith
lookup-add_reserved k set (n ∷ ns) = ground (
  arith,
  bytes_beq_iff n k,
  lookup-add_reserved k set ns,
  lookup-add_reserved k (insert n tt set) ns,
  lookup-insert n k tt set,
)

is_nil-insert : (k : Bytes) (set : NameSet) → is_nil (insert k tt set) ≡ false
unfolding insert
is_nil-insert k [] = refl
is_nil-insert k ((j, v) ∷ m) = ground arith

-- Every entry is blank: white space only.
abbrev pub all_blank : List Bytes → Bool
all_blank [] = true
all_blank (n ∷ ns) = is_empty (normalize_name n) && all_blank ns

is_nil-add_names :
    (set : NameSet) (ns : List Bytes) → is_nil (add_names set ns) ≡ (is_nil set && all_blank ns)
unfolding add_names
is_nil-add_names set [] = ground arith
is_nil-add_names set (n ∷ ns) =
    let name = normalize_name n in
    ground (
      arith,
      is_nil-add_names set ns,
      is_nil-add_names (insert name tt set) ns,
      is_nil-insert name set,
    )

lookup-reserved :
    (name : Bytes) (bs ns : List Bytes)
    → is_empty name ≡ false
    → is_some (lookup name (add_reserved (add_names [] bs) ns))
      ≡ (contains name (map normalize_name bs) || contains name ns)
unfolding lookup
lookup-reserved name bs ns h =
    ground (arith, lookup-add_reserved name (add_names [] bs) ns, lookup-add_names name [] bs)

lookup-allowed :
    (name : Bytes) (ns : List Bytes)
    → is_empty name ≡ false
    → is_some (lookup name (add_names [] ns)) ≡ contains name (map normalize_name ns)
unfolding lookup
lookup-allowed name ns h = ground (arith, lookup-add_names name [] ns)

built_in_normal : map normalize_name built_in_names ≡ built_in_names
unfolding trim_space
built_in_normal = refl

-- What `normalizeReservedNames` refuses.
lookup-reserved_names :
    (name : Bytes) (ns : List Bytes)
    → is_empty name ≡ false
    → is_some (lookup name (normalize_reserved_names ns))
      ≡ (contains name built_in_names || contains name ns)
unfolding normalize_reserved_names
lookup-reserved_names name ns h =
    lookup-reserved name built_in_names ns h
    ∙ ap (λ (bs : List Bytes). contains name bs || contains name ns) built_in_normal

name_allowed_cases :
    (name : Bytes) (built_in reserved : Bool) (allow : List Bytes) (set : NameSet)
    (found : Option (Unit {0}))
    → is_some found ≡ (built_in || reserved)
    → is_nil set ≡ all_blank allow
    → is_some (lookup name set) ≡ contains name (map normalize_name allow)
    → ((if is_some found then false else if is_nil set then true else is_some (lookup name set))
        ≡ true)
      ↔ ((built_in ≡ false)
          × (reserved ≡ false)
          × ((all_blank allow ≡ true) ⊎ (contains name (map normalize_name allow) ≡ true)))
name_allowed_cases name built_in reserved allow set found e f g = ground arith

-- A name that is not empty is allowed exactly if it is none of the built-in names, none of the
-- configured reserved names as they are spelled, and either the allow list has only blank entries or
-- one of its entries is the name once trimmed and in lower case.
pub name_allowed-new_settings :
    (c : Config) (action name : Bytes)
    → is_empty name ≡ false
    → (name_allowed (new_settings c action) name ≡ true) ↔ (
        (contains name built_in_names ≡ false)
        × (contains name c.reserved_names ≡ false)
        × ((all_blank c.allow_names ≡ true)
            ⊎ (contains name (map normalize_name c.allow_names) ≡ true)))
unfolding name_allowed new_settings normalize_name_set
name_allowed-new_settings c action name h =
    name_allowed_cases name (contains name built_in_names) (contains name c.reserved_names)
      c.allow_names (add_names [] c.allow_names)
      (lookup name (normalize_reserved_names c.reserved_names))
      (lookup-reserved_names name c.reserved_names h) (is_nil-add_names [] c.allow_names)
      (lookup-allowed name c.allow_names h)
