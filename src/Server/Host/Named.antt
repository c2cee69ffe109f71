-- ===== src/Server/Host/Named.antt =====
-- Which hosts name a tunnel, in terms of the host alone.
use gatelet.Prelude.{
  ◌≡◌, refl, sym, ap, ◌∙◌, ◌≢◌, ◌↔◌, ◌⊎◌, inl, inr, Bool, true, false, none, some, [], ◌∷◌, ◌++◌,
  append-nil, append_assoc, arith, ◌==◌, nat_eq, Bool-cases, Option-cases, Bytes, codes, bytes_eq,
  strip_suffix, trim_prefix, trim_suffix, to_lower, strip_suffix_sound, strip_suffix_iff,
}
use gatelet.Protocol.Name.{IsLabel, validate_name-IsLabel}
use gatelet.Server.Names.{normalize_dns_name}
use gatelet.Server.Host.{split_host_port, canonical_host, name_from_host}
use gatelet.Server.Host.Laws.{
  name_from_host_iff, ends_with_dot, ends_with_dot-tail, trim_suffix_dot, trim_prefix_ne,
  label_byte_allowed,
}

-- A dot, or nothing.
abbrev pub dot_if : Bool → Bytes
dot_if true = codes "."
dot_if false = []

-- The host without its port, or the whole where it has none or is no address.
abbrev pub IsHostPart : Bytes → Bytes → Type 0
IsHostPart host part =
    ((port : Bytes) × (split_host_port host ≡ some (part, port)))
    ⊎ ((split_host_port host ≡ none) × (part ≡ host))

-- The host, in any case and with a port or without, is the name, a dot and the domain, with at most one
-- more dot in front and one behind.
pub record Names (domain host n : Bytes) : Type 0 where
  pub label : IsLabel n
  pub part : Bytes
  pub hosted : IsHostPart host part
  pub before : Bool
  pub after : Bool
  pub spelled : to_lower part ≡ dot_if before ++ ((n ++ (b'.' ∷ domain)) ++ dot_if after)

trim_prefix-split : (s : Bytes) → (b : Bool) × (s ≡ dot_if b ++ trim_prefix (codes ".") s)
trim_prefix-split [] = (false, refl)
trim_prefix-split (c ∷ s) = elim (Bool-cases (c == b'.')) [
  | inl e ↦ (true, ground (arith, e))
  | inr e ↦ (false, ground (arith, e))
]

trim_suffix-split : (s : Bytes) → (b : Bool) × (s ≡ trim_suffix (codes ".") s ++ dot_if b)
trim_suffix-split s = elim (Option-cases (strip_suffix (codes ".") s)) [
  | inl e ↦ (false, rw e (sym (append-nil s)))
  | inr (r, e) ↦ (true, rw e (strip_suffix_sound (codes ".") s r e))
]

trim_suffix-back :
    (x : Bytes) (b : Bool) → ends_with_dot x ≡ false → trim_suffix (codes ".") (x ++ dot_if b) ≡ x
trim_suffix-back x false h = rw (append-nil x) (trim_suffix_dot x h)
trim_suffix-back x true h =
    let e = (strip_suffix_iff (codes ".") (x ++ codes ".") x).1 refl in rw e refl

trim_prefix-back :
    (n t : Bytes) (b : Bool) → IsLabel n → trim_prefix (codes ".") (dot_if b ++ (n ++ t)) ≡ n ++ t
trim_prefix-back [] t b l = absurd (omega (arith, l.nonempty))
trim_prefix-back (c ∷ n) t false l = trim_prefix_ne c (n ++ t) (label_byte_allowed c l.bytes.0).1
trim_prefix-back (c ∷ n) t true l = refl

normalize_dns_name_iff :
    (n t part : Bytes)
    → IsLabel n
    → ends_with_dot (n ++ t) ≡ false
    → (normalize_dns_name part ≡ n ++ t) ↔ (
        (before : Bool) × (after : Bool) × (to_lower part
          ≡ dot_if before ++ ((n ++ t) ++ dot_if after)))
unfolding normalize_dns_name
normalize_dns_name_iff n t part l h =
    let s : Bytes = to_lower part in
    let (before, first) = trim_prefix-split s in
    let (after, last) = trim_suffix-split (trim_prefix (codes ".") s) in
    (
      (λ e. (
        before,
        after,
        first ∙ ap (λ x. dot_if before ++ x) (last ∙ ap (λ x. x ++ dot_if after) e),
      )),
      λ (b, a, e).
          ap (λ x. trim_suffix (codes ".") (trim_prefix (codes ".") x)) e
          ∙ ap (λ x. trim_suffix (codes ".") (trim_prefix (codes ".") (dot_if b ++ x)))
              (append_assoc n t (dot_if a))
          ∙ ap (trim_suffix (codes ".")) (trim_prefix-back n (t ++ dot_if a) b l)
          ∙ ap (trim_suffix (codes ".")) (sym (append_assoc n t (dot_if a)))
          ∙ trim_suffix-back (n ++ t) a h,
    )

canonical_host-part :
    (host : Bytes)
    → (part : Bytes) × IsHostPart host part × (canonical_host host ≡ normalize_dns_name part)
unfolding canonical_host
canonical_host-part host = elim (Option-cases (split_host_port host)) [
  | inl e ↦ (host, inr (e, refl), rw (e, canonical_host) refl)
  | inr ((part, port), e) ↦ (part, inl (port, e), rw (e, canonical_host) refl)
]

part-canonical_host :
    (host part : Bytes) → IsHostPart host part → canonical_host host ≡ normalize_dns_name part
unfolding canonical_host
part-canonical_host host part (inl (port, e)) = rw (e, canonical_host) refl
part-canonical_host host part (inr (e, same)) =
    rw (e, canonical_host) (ap normalize_dns_name (sym same))

-- For a domain that is not empty and does not end in a dot: a host names a tunnel exactly if the name is a DNS
-- label and the host, without a port and in lower case, is the name, a dot and the domain, with at most one
-- more dot in front and at most one behind.
pub name_from_host-Names :
    (domain host n : Bytes)
    → domain ≢ []
    → ends_with_dot domain ≡ false
    → (name_from_host domain host ≡ some n) ↔ Names domain host n
name_from_host-Names domain host n some_domain h =
    let ends : ends_with_dot (n ++ (b'.' ∷ domain)) ≡ false =
      ends_with_dot-tail n domain some_domain ∙ h in
    (
      (λ e.
          let (valid, same) = (name_from_host_iff domain host n).0 e in
          let (part, hosted, canonical) = canonical_host-part host in
          let l = (validate_name-IsLabel n).0 valid in
          let (before, after, spelled) =
            (normalize_dns_name_iff n (b'.' ∷ domain) part l ends).0 (sym canonical ∙ same) in
          record {
            label = l;
            part = part;
            hosted = hosted;
            before = before;
            after = after;
            spelled = spelled;
          }),
      λ m. (name_from_host_iff domain host n).1 (
        (validate_name-IsLabel n).1 m.label,
        part-canonical_host host m.part m.hosted
            ∙ (normalize_dns_name_iff n (b'.' ∷ domain) m.part m.label ends).1
                (m.before, m.after, m.spelled),
      ),
    )
