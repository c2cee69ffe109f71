-- ===== src/Server/Host/Laws.antt =====
-- Which hosts name a tunnel, and that the host of a tunnel's public URL names it.
use mathlib.Core.Path.{ap₂}
use gatelet.Prelude.{
  has_byte-append, ℕ, ◌≡◌, refl, sym, ap, ◌∙◌, ◌≢◌, ◌↔◌, inl, inr, Bool, true, false, none, some,
  [], ◌∷◌, ◌++◌, arith, if◌then◌else◌, ◌==◌, nat_eq, ==_iff, Option-cases, All, All-append, length,
  length-append, ok, Bytes, codes, bytes_eq, starts_with, strip_suffix, trim_prefix, trim_suffix,
  lower_byte, to_lower, has_byte, cut_last, strip_suffix_sound, strip_suffix_iff,
}
use gatelet.Protocol.Name.{validate_name, IsLabel, IsLabelByte, validate_name-IsLabel}
use gatelet.Server.Names.{normalize_dns_name}
use gatelet.Server.Host.{split_host_port, canonical_host, is_valid, name_from_host, is_admin_host}

label_no_dot : (name : Bytes) → All IsLabelByte name → has_byte b'.' name ≡ false
label_no_dot [] h = refl
label_no_dot (c ∷ cs) h = ground (arith, label_no_dot cs)

valid_no_dot : (name : Bytes) → validate_name name ≡ ok tt → has_byte b'.' name ≡ false
valid_no_dot name h = label_no_dot name ((validate_name-IsLabel name).0 h).bytes

name_of_stripped :
    (name n : Bytes)
    → ((if has_byte b'.' name
          then none
          else if is_valid (validate_name name)
          then some name
          else none)
        ≡ some n)
      ↔ ((validate_name n ≡ ok tt) × (name ≡ n))
unfolding is_valid
name_of_stripped name n = ground (arith, valid_no_dot n)

-- `nameFromHost` finds the name n exactly if n is valid and the host, without its port, in lower
-- case and without one leading and one trailing dot, is n, a dot and the server's domain.
pub name_from_host_iff :
    (domain host n : Bytes)
    → (name_from_host domain host ≡ some n)
      ↔ ((validate_name n ≡ ok tt) × (canonical_host host ≡ n ++ (b'.' ∷ domain)))
unfolding name_from_host
name_from_host_iff domain host n =
    elim (Option-cases (strip_suffix (b'.' ∷ domain) (canonical_host host))) [
      | inl e ↦
          rw (e, name_from_host)
            (
              (λ h. absurd (cc)),
              λ h. absurd (cc ((strip_suffix_iff (b'.' ∷ domain) (canonical_host host) n).1 h.1)),
            )
      | inr (name, e) ↦
          rw (e, name_from_host)
            (
              (λ h.
                  let (valid, same) = (name_of_stripped name n).0 h in
                  (valid, (strip_suffix_iff _ _ n).0 (e ∙ ap some same))),
              λ h.
                  (name_of_stripped name n).1 (
                    h.0,
                    (cc (e, (strip_suffix_iff (b'.' ∷ domain) (canonical_host host) n).1 h.1)),
                  ),
            )
    ]

append-cons-ne : (n : Bytes) (c : ℕ) (d : Bytes) → n ++ (c ∷ d) ≢ d
append-cons-ne n c d e = absurd (omega (arith, ap length e, length-append n (c ∷ d)))

-- No host names both the admin pages and a tunnel.
pub is_admin_host-name_from_host :
    (domain host : Bytes) → is_admin_host domain host ≡ true → name_from_host domain host ≡ none
unfolding is_admin_host
is_admin_host-name_from_host domain host h = elim (Option-cases (name_from_host domain host)) [
  | inl e ↦ e
  | inr (n, e) ↦ absurd (
      append-cons-ne n b'.' domain
        (sym ((name_from_host_iff domain host n).0 e).1 ∙ (==_iff _ _).0 h))
]

pub cut_last-none : (c : ℕ) (s : Bytes) → has_byte c s ≡ false → cut_last c s ≡ none
unfolding cut_last
cut_last-none c [] h = refl
cut_last-none c (x ∷ s) h = ground (arith, cut_last-none c s)

cut_last-append :
    (c : ℕ) (s t : Bytes) → has_byte c t ≡ false → cut_last c (s ++ (c ∷ t)) ≡ some (s, t)
unfolding cut_last
cut_last-append c [] t h = ground (arith, cut_last-none c t h)
cut_last-append c (x ∷ s) t h = rw (cut_last-append c s t h)

-- A byte of a host name as the normal form has it: no capital and no byte of an address's syntax.
abbrev pub IsHostByte : ℕ → Type 0
IsHostByte c = (lower_byte c ≡ c) × (c ≢ b':') × (c ≢ b'[') × (c ≢ b']')

abbrev pub ends_with_dot : Bytes → Bool
ends_with_dot [] = false
ends_with_dot (c ∷ []) = c == b'.'
ends_with_dot (c ∷ d ∷ cs) = ends_with_dot (d ∷ cs)

pub no_address_byte :
    (s : Bytes)
    → All IsHostByte s
    → (has_byte b':' s ≡ false)
      × (has_byte b'[' s ≡ false)
      × (has_byte b']' s ≡ false)
      × (to_lower s ≡ s)
no_address_byte [] h = (refl, refl, refl, refl)
no_address_byte (c ∷ s) h =
    let (a, b, d, e) = no_address_byte s h.1 in
    (ground arith, ground arith, ground arith, ap₂ ◌∷◌ h.0.0 e)

ends_with_dot-append : (s : Bytes) → ends_with_dot (s ++ b'.' ∷ []) ≡ true
ends_with_dot-append [] = refl
ends_with_dot-append (c ∷ []) = refl
ends_with_dot-append (c ∷ d ∷ s) = ends_with_dot-append (d ∷ s)

pub trim_suffix_dot : (s : Bytes) → ends_with_dot s ≡ false → trim_suffix (codes ".") s ≡ s
trim_suffix_dot s h = elim (Option-cases (strip_suffix (codes ".") s)) [
  | inl e ↦ rw e
  | inr (r, e) ↦ absurd (cc (ends_with_dot-append r, strip_suffix_sound (codes ".") s r e, h))
]

pub trim_prefix_ne : (c : ℕ) (s : Bytes) → c ≢ b'.' → trim_prefix (codes ".") (c ∷ s) ≡ c ∷ s
trim_prefix_ne c s h = ground arith

pub normal_host :
    (c : ℕ) (s : Bytes)
    → c ≢ b'.'
    → ends_with_dot (c ∷ s) ≡ false
    → All IsHostByte (c ∷ s)
    → normalize_dns_name (c ∷ s) ≡ c ∷ s
unfolding normalize_dns_name
normal_host c s h k a =
    ap (λ (t : Bytes). trim_suffix (codes ".") (trim_prefix (codes ".") t))
      (no_address_byte (c ∷ s) a).3
    ∙ ap (trim_suffix (codes ".")) (trim_prefix_ne c s h)
    ∙ trim_suffix_dot (c ∷ s) k

starts_with_bracket_no : (s : Bytes) → has_byte b'[' s ≡ false → starts_with (codes "[") s ≡ false
starts_with_bracket_no [] h = refl
starts_with_bracket_no (c ∷ s) h = ground arith

split_plain-append :
    (h port : Bytes)
    → has_byte b':' h ≡ false
    → has_byte b':' port ≡ false
    → has_byte b'[' (h ++ (b':' ∷ port)) ≡ false
    → has_byte b']' (h ++ (b':' ∷ port)) ≡ false
    → split_host_port (h ++ (b':' ∷ port)) ≡ some (h, port)
unfolding split_host_port
split_plain-append h port a b c d =
    rw (cut_last-append b':' h port b, split_host_port)
      (ground (arith, starts_with_bracket_no (h ++ (b':' ∷ port)) c))

canonical_host-port :
    (h port : Bytes)
    → All IsHostByte h
    → All IsHostByte port
    → canonical_host (h ++ (b':' ∷ port)) ≡ normalize_dns_name h
unfolding canonical_host
canonical_host-port h port a b =
    let (colon, open_h, close_h, _) = no_address_byte h a in
    let (colon_p, open_p, close_p, _) = no_address_byte port b in
    let e : split_host_port (h ++ (b':' ∷ port)) ≡ some (h, port) =
      split_plain-append h port colon colon_p (has_byte-append b'[' h (b':' ∷ port) ∙ ground arith)
        (has_byte-append b']' h (b':' ∷ port) ∙ ground arith) in
    rw (e, canonical_host)

canonical_host_plain : (h : Bytes) → All IsHostByte h → canonical_host h ≡ normalize_dns_name h
unfolding canonical_host split_host_port
canonical_host_plain h a =
    let e = cut_last-none b':' h (no_address_byte h a).0 in rw (e, split_host_port, canonical_host)

pub label_byte_allowed : (c : ℕ) → IsLabelByte c → IsHostByte c × (c ≢ b'.')
label_byte_allowed c h = ground arith

pub label_host : (n : Bytes) → All IsLabelByte n → All IsHostByte n
label_host [] h = tt
label_host (c ∷ n) h = ((label_byte_allowed c h.0).0, label_host n h.1)

pub ends_with_dot-tail : (n d : Bytes) → d ≢ [] → ends_with_dot (n ++ (b'.' ∷ d)) ≡ ends_with_dot d
ends_with_dot-tail n [] h = absurd (h refl)
ends_with_dot-tail [] (x ∷ d) h = refl
ends_with_dot-tail (c ∷ []) (x ∷ d) h = refl
ends_with_dot-tail (c ∷ e ∷ n) (x ∷ d) h = ends_with_dot-tail (e ∷ n) (x ∷ d) h

-- A configured domain in normal form.
pub record IsDomain (d : Bytes) : Type 0 where
  pub nonempty : d ≢ []
  pub bytes : All IsHostByte d
  pub ends : ends_with_dot d ≡ false

pub public_host_normal :
    (n d : Bytes) → IsLabel n → IsDomain d → normalize_dns_name (n ++ (b'.' ∷ d)) ≡ n ++ (b'.' ∷ d)
public_host_normal [] d l m = absurd (omega (arith, l.nonempty))
public_host_normal (c ∷ n) d l m =
    normal_host c (n ++ (b'.' ∷ d)) (label_byte_allowed c l.bytes.0).1
      (ends_with_dot-tail (c ∷ n) d m.nonempty ∙ m.ends)
      (All-append IsHostByte (c ∷ n) (b'.' ∷ d) (label_host (c ∷ n) l.bytes)
        (ground arith, m.bytes))

-- The host of a tunnel's public URL, with or without a port, reaches the tunnel: `nameFromHost` of
-- the name, a dot and the domain is the name.
name_from_host_public :
    (d n port : Bytes)
    → IsDomain d
    → validate_name n ≡ ok tt
    → All IsHostByte port
    → (name_from_host d (n ++ (b'.' ∷ d)) ≡ some n)
      × (name_from_host d ((n ++ (b'.' ∷ d)) ++ (b':' ∷ port)) ≡ some n)
name_from_host_public d n port m valid p =
    let l = (validate_name-IsLabel n).0 valid in
    let bytes = All-append IsHostByte n (b'.' ∷ d) (label_host n l.bytes) (ground arith, m.bytes) in
    let normal = public_host_normal n d l m in
    (
      (name_from_host_iff d _ n).1 (valid, canonical_host_plain _ bytes ∙ normal),
      (name_from_host_iff d _ n).1 (valid, canonical_host-port _ port bytes p ∙ normal),
    )
