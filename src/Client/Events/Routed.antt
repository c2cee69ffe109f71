-- ===== src/Client/Events/Routed.antt =====
-- The public URL and the relay's routing.
use gatelet.Prelude.{
  ℕ, ◌≡◌, refl, sym, ap, subst, ◌∙◌, ◌≢◌, Bool, false, ◌&&◌, some, [], ◌∷◌, ◌++◌, arith,
  if◌then◌else◌, has_byte, has_byte-append, All, All-append, ok, Bytes, codes, is_empty, trim,
  trim_prefix, trim_suffix, trim_left, trim_right, lower_byte, to_lower,
}
use gatelet.Protocol.Name.{validate_name, IsLabel, IsLabelByte, validate_name-IsLabel}
use gatelet.Protocol.Hello.Accepts.{filled}
use gatelet.Server.Names.{Config, normalize_dns_name, new_settings}
use gatelet.Server.Host.{split_host_port, canonical_host, name_from_host}
use gatelet.Server.Host.Laws.{
  IsDomain, IsHostByte, ends_with_dot, cut_last-none, label_host, no_address_byte,
  public_host_normal, normal_host, name_from_host_iff,
}
use gatelet.Client.Events.{is_dot, trim_dots, host_without_port, public_url}

-- A byte that is no part of an address's syntax.
abbrev pub IsPlainByte : ℕ → Type 0
IsPlainByte c = (c ≢ b':') × (c ≢ b'[') × (c ≢ b']')

-- The domain that the client shows: the one given, or the one of the relay's address.
abbrev pub shown_domain : (Bytes → Bytes) → Bytes → Bytes → Bytes
shown_domain parse_host domain server_addr =
    trim_dots (if is_empty domain then host_without_port parse_host server_addr else domain)

lower-IsHostByte : (c : ℕ) → IsPlainByte c → IsHostByte (lower_byte c)
lower-IsHostByte c h = ground arith

to_lower-All : (d : Bytes) → All IsPlainByte d → All IsHostByte (to_lower d)
to_lower-All [] a = tt
to_lower-All (c ∷ d) a = (lower-IsHostByte c a.0, to_lower-All d a.1)

to_lower-append : (s t : Bytes) → to_lower (s ++ t) ≡ to_lower s ++ to_lower t
to_lower-append [] t = refl
to_lower-append (c ∷ s) t = ap (◌∷◌ (lower_byte c)) (to_lower-append s t)

ends_with_dot-lower : (s : Bytes) → ends_with_dot (to_lower s) ≡ ends_with_dot s
ends_with_dot-lower [] = refl
ends_with_dot-lower (c ∷ []) = ground arith
ends_with_dot-lower (c ∷ e ∷ s) = ends_with_dot-lower (e ∷ s)

kept_end :
    (c : ℕ) (rest : Bytes)
    → ends_with_dot rest ≡ false
    → ends_with_dot (if is_empty rest && is_dot c then [] else c ∷ rest) ≡ false
kept_end c [] h = ground arith
kept_end c (x ∷ rest) h = h

ends_with_dot-trim_right : (s : Bytes) → ends_with_dot (trim_right is_dot s) ≡ false
unfolding trim_right
ends_with_dot-trim_right [] = refl
ends_with_dot-trim_right (c ∷ s) = kept_end c (trim_right is_dot s) (ends_with_dot-trim_right s)

no_colon : (s : Bytes) → All IsPlainByte s → has_byte b':' s ≡ false
no_colon [] a = refl
no_colon (c ∷ s) a = ground (arith, no_colon s a.1)

abbrev starts_with_dot : Bytes → Bool
starts_with_dot [] = false
starts_with_dot (c ∷ s) = is_dot c

kept_start :
    (c : ℕ) (rest : Bytes)
    → is_dot c ≡ false
    → starts_with_dot (if is_empty rest && is_dot c then [] else c ∷ rest) ≡ false
kept_start c rest h = ground (arith, h)

starts_with_dot-trim_right :
    (s : Bytes) → starts_with_dot s ≡ false → starts_with_dot (trim_right is_dot s) ≡ false
unfolding trim_right
starts_with_dot-trim_right [] h = refl
starts_with_dot-trim_right (c ∷ s) h = kept_start c (trim_right is_dot s) h

starts_with_dot-trim_left : (s : Bytes) → starts_with_dot (trim_left is_dot s) ≡ false
unfolding trim_left
starts_with_dot-trim_left [] = refl
starts_with_dot-trim_left (c ∷ s) = ground (arith, starts_with_dot-trim_left s)

trim_dots-ends :
    (s : Bytes) → (ends_with_dot (trim_dots s) ≡ false) × (starts_with_dot (trim_dots s) ≡ false)
unfolding trim
trim_dots-ends s = (
  ends_with_dot-trim_right (trim_left is_dot s),
  starts_with_dot-trim_right (trim_left is_dot s) (starts_with_dot-trim_left s),
)

-- The normal form sees the lower case only.
normalize-lower :
    (s t : Bytes) → to_lower s ≡ t → All IsHostByte t → normalize_dns_name s ≡ normalize_dns_name t
unfolding normalize_dns_name
normalize-lower s t e a =
    ap (λ x. trim_suffix (codes ".") (trim_prefix (codes ".") x)) (e ∙ sym (no_address_byte t a).3)

-- The relay's normal form of a domain that the client shows.
domain_normal :
    (d : Bytes)
    → d ≢ []
    → All IsPlainByte d
    → ends_with_dot d ≡ false
    → starts_with_dot d ≡ false
    → normalize_dns_name d ≡ to_lower d
domain_normal [] some_d a ends starts = absurd (some_d refl)
domain_normal (c ∷ d) some_d a ends starts =
    normalize-lower (c ∷ d) (to_lower (c ∷ d)) refl (to_lower-All (c ∷ d) a)
    ∙ normal_host (lower_byte c) (to_lower d) (ground (arith, starts))
        (ends_with_dot-lower (c ∷ d) ∙ ends) (to_lower-All (c ∷ d) a)

lower-IsDomain :
    (d : Bytes) → d ≢ [] → All IsPlainByte d → ends_with_dot d ≡ false → IsDomain (to_lower d)
lower-IsDomain d some_d a ends = record {
  nonempty = lower_some d some_d;
  bytes = to_lower-All d a;
  ends = ends_with_dot-lower d ∙ ends;
}
  where
    lower_some : (d : Bytes) → d ≢ [] → to_lower d ≢ []
    lower_some [] h = absurd (h refl)
    lower_some (c ∷ d) h = λ e. cc

host_lower :
    (n d : Bytes) → All IsLabelByte n → to_lower (n ++ (b'.' ∷ d)) ≡ n ++ (b'.' ∷ to_lower d)
host_lower n d l =
    to_lower-append n (b'.' ∷ d)
    ∙ ap (λ x. x ++ (b'.' ∷ to_lower d)) (no_address_byte n (label_host n l)).3

canonical_host_shown :
    (n d : Bytes)
    → IsLabel n
    → IsDomain (to_lower d)
    → has_byte b':' d ≡ false
    → canonical_host (n ++ (b'.' ∷ d)) ≡ n ++ (b'.' ∷ to_lower d)
unfolding canonical_host split_host_port
canonical_host_shown n d l m colon =
    let host : Bytes = n ++ (b'.' ∷ d) in
    let bytes =
      All-append IsHostByte n (b'.' ∷ to_lower d) (label_host n l.bytes) (ground arith, m.bytes) in
    let no_port : has_byte b':' host ≡ false =
      has_byte-append b':' n (b'.' ∷ d)
      ∙ ground (arith, (no_address_byte n (label_host n l.bytes)).0, colon) in
    let plain : canonical_host host ≡ normalize_dns_name host =
      rw (cut_last-none b':' host no_port, split_host_port, canonical_host) refl in
    plain
    ∙ normalize-lower host (n ++ (b'.' ∷ to_lower d)) (host_lower n d l.bytes) bytes
    ∙ public_host_normal n (to_lower d) l m

-- If the domain that the client shows, the given one or the one of the relay's address without the dots around
-- it, is not empty and holds no colon and no bracket: the URL that the client shows for a valid name has a
-- host, and a relay that was configured with that domain, in any case, routes the host back to the name.
pub public_url_routed :
    (parse_host : Bytes → Bytes) (name domain server_addr : Bytes) (config : Config)
    (action_token : Bytes)
    → shown_domain parse_host domain server_addr ≢ []
    → All IsPlainByte (shown_domain parse_host domain server_addr)
    → to_lower config.domain ≡ to_lower (shown_domain parse_host domain server_addr)
    → validate_name name ≡ ok tt
    → (host : Bytes) × (public_url parse_host name domain server_addr ≡ codes "https://" ++ host)
      × (name_from_host (new_settings config action_token).domain host ≡ some name)
unfolding public_url new_settings normalize_dns_name
public_url_routed parse_host name domain server_addr config action_token some_d a same valid =
    let d : Bytes = shown_domain parse_host domain server_addr in
    let (ends, starts) =
      trim_dots-ends
        (if is_empty domain then host_without_port parse_host server_addr else domain) in
    let l = (validate_name-IsLabel name).0 valid in
    let m = lower-IsDomain d some_d a ends in
    let configured : (new_settings config action_token).domain ≡ to_lower d =
      ap (λ x. trim_suffix (codes ".") (trim_prefix (codes ".") x)) same
      ∙ domain_normal d some_d a ends starts in
    (
      name ++ (b'.' ∷ d),
      rw (filled d some_d, public_url) refl,
      subst (λ r. name_from_host r (name ++ (b'.' ∷ d)) ≡ some name) (sym configured)
          ((name_from_host_iff (to_lower d) _ name).1
            (valid, canonical_host_shown name d l m (no_colon d a))),
    )
