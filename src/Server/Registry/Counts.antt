-- ===== src/Server/Registry/Counts.antt =====
-- The counters of a tunnel against the history of its requests.
use mathlib.Core.Path.{ap₂}
use gatelet.Prelude.{
  ℕ, ◌+◌, ◌%◌, ◌≡◌, refl, ap, ◌∙◌, inl, inr, false, some, List, [], ◌∷◌, arith, leb, if◌then◌else◌,
  ◌==◌, nat_eq, ==_iff, Bool-cases, Option-cases, length, GoMap, lookup, insert, lookup-insert,
  lookup-insert_self, Bytes, bytes_eq, or_else,
}
use gatelet.Protocol.Hello.{ClientHello}
use gatelet.Server.Registry.{
  u64_mod, add64, TunnelSession, Registry, duration_bounds, new_tunnel, register, bump_buckets,
  bump_last, Served, count_request, record_request,
}

-- Counts and sums over a history, newest first.
abbrev pub count_status : ℕ → List Served → ℕ
count_status s [] = 0
count_status s (q ∷ h) = if q.status == s then count_status s h + 1 else count_status s h

abbrev pub count_within : ℕ → List Served → ℕ
count_within b [] = 0
count_within b (q ∷ h) = if leb q.duration b then count_within b h + 1 else count_within b h

abbrev pub sum_in : List Served → ℕ
sum_in [] = 0
sum_in (q ∷ h) = sum_in h + q.bytes_in

abbrev pub sum_out : List Served → ℕ
sum_out [] = 0
sum_out (q ∷ h) = sum_out h + q.bytes_out

abbrev pub histogram : List ℕ → List Served → List ℕ
histogram [] h = length h % u64_mod ∷ []
histogram (b ∷ bs) h = count_within b h % u64_mod ∷ histogram bs h

-- What the counters of a tunnel say after a history.
pub record CountsOf (h : List Served) (t : TunnelSession) : Type 0 where
  pub requests : t.requests ≡ length h % u64_mod
  pub bytes_in : t.bytes_in ≡ sum_in h % u64_mod
  pub bytes_out : t.bytes_out ≡ sum_out h % u64_mod
  pub statuses : (s : ℕ) → or_else (lookup s t.status_counts) 0 ≡ count_status s h % u64_mod
  pub buckets : t.duration_buckets ≡ histogram duration_bounds h

bump_last-cons : (c e : ℕ) (cs : List ℕ) → bump_last (c ∷ e ∷ cs) ≡ c ∷ bump_last (e ∷ cs)
unfolding bump_last
bump_last-cons c e cs = refl

add64_one : (n : ℕ) → add64 (n % u64_mod) 1 ≡ (n + 1) % u64_mod
add64_one n = omega arith

add64_sum : (n m : ℕ) → add64 (n % u64_mod) m ≡ (n + m) % u64_mod
add64_sum n m = omega arith

bump-count_within :
    (q : Served) (h : List Served) (b : ℕ)
    → (if leb q.duration b
        then add64 (count_within b h % u64_mod) 1
        else count_within b h % u64_mod)
      ≡ count_within b (q ∷ h) % u64_mod
bump-count_within q h b = elim (Bool-cases (leb q.duration b)) [
  | inl e ↦ rw e (add64_one (count_within b h))
  | inr e ↦ rw e
]

bump-histogram :
    (q : Served) (h : List Served) (bs : List ℕ)
    → bump_last (bump_buckets q.duration bs (histogram bs h)) ≡ histogram bs (q ∷ h)
unfolding bump_buckets bump_last
bump-histogram q h [] =
    ap (λ (n : ℕ). n ∷ []) (add64_one (length h) ∙ ap (λ (n : ℕ). n % u64_mod) (omega arith))
bump-histogram q h (b ∷ []) = ap₂ ◌∷◌ (bump-count_within q h b) (bump-histogram q h [])
bump-histogram q h (b ∷ b' ∷ bs) = ap₂ ◌∷◌ (bump-count_within q h b) (bump-histogram q h (b' ∷ bs))

status_counted :
    (q : Served) (h : List Served) (m : GoMap ℕ ℕ) (s : ℕ)
    → ((k : ℕ) → or_else (lookup k m) 0 ≡ count_status k h % u64_mod)
    → or_else (lookup s (insert q.status (add64 (or_else (lookup q.status m) 0) 1) m)) 0
      ≡ count_status s (q ∷ h) % u64_mod
status_counted q h m s e =
    rw (lookup-insert q.status s (add64 (or_else (lookup q.status m) 0) 1) m)
      (elim (Bool-cases (q.status == s)) [
        | inl same ↦
            rw (same, e q.status, (==_iff q.status s).0 same) (add64_one (count_status s h))
        | inr other ↦ rw other (e s)
      ])

new_tunnel-CountsOf :
    (hello : ClientHello) (session : ℕ) (remote : Bytes) (now : ℕ)
    → CountsOf [] (new_tunnel hello session remote now)
unfolding lookup
new_tunnel-CountsOf hello session remote now = record {
  requests = refl;
  bytes_in = refl;
  bytes_out = refl;
  statuses = λ s. refl;
  buckets = refl;
}

count_request-CountsOf :
    (h : List Served) (t : TunnelSession) (q : Served) (now : ℕ)
    → CountsOf h t
    → CountsOf (q ∷ h) (count_request t q now)
unfolding count_request
count_request-CountsOf h t q now c = record {
  requests = rw c.requests (add64_one (length h) ∙ ap (λ (n : ℕ). n % u64_mod) (omega arith));
  bytes_in = rw c.bytes_in (add64_sum (sum_in h) q.bytes_in);
  bytes_out = rw c.bytes_out (add64_sum (sum_out h) q.bytes_out);
  statuses = λ s. status_counted q h t.status_counts s c.statuses;
  buckets = rw c.buckets (bump-histogram q h duration_bounds);
}

record_request-lookup :
    (r : Registry) (name : Bytes) (t : TunnelSession) (q : Served) (now : ℕ)
    → lookup name r.sessions ≡ some t
    → lookup name (record_request r name q now).sessions ≡ some (count_request t q now)
unfolding record_request
record_request-lookup r name t q now e =
    rw (e, record_request) (lookup-insert_self name (count_request t q now) r.sessions)

record_request-lookup_ne :
    (r : Registry) (n name : Bytes) (q : Served) (now : ℕ)
    → (n == name) ≡ false
    → lookup name (record_request r n q now).sessions ≡ lookup name r.sessions
unfolding record_request
record_request-lookup_ne r n name q now h = elim (Option-cases (lookup n r.sessions)) [
  | inl e ↦ rw (e, record_request)
  | inr (t, e) ↦
      rw (e, record_request) (lookup-insert n name (count_request t q now) r.sessions ∙ (rw h))
]

-- A request recorded for a name, with the time at which it is.
abbrev pub Recorded : Type 0
Recorded = Bytes × Served × ℕ

-- Requests of all names as they are recorded, oldest first.
pub record_all : Registry → List Recorded → Registry
record_all r [] = r
record_all r ((n, q, now) ∷ qs) = record_all (record_request r n q now) qs

-- Those of one name, onto what there was.
abbrev pub history_onto : Bytes → List Served → List Recorded → List Served
history_onto name h [] = h
history_onto name h ((n, q, now) ∷ qs) = history_onto name (if n == name then q ∷ h else h) qs

abbrev Follows : Registry → Bytes → List Served → ℕ → Type 0
Follows r name h session =
    (u : TunnelSession) × (lookup name r.sessions ≡ some u) × CountsOf h u × (u.session ≡ session)

record_request-Follows :
    (r : Registry) (name n : Bytes) (h : List Served) (session : ℕ) (q : Served) (now : ℕ)
    → Follows r name h session
    → Follows (record_request r n q now) name (if n == name then q ∷ h else h) session
unfolding count_request
record_request-Follows r name n h session q now (t, e, c, same) = elim (Bool-cases (n == name)) [
  | inl hit ↦ rw hit (
    count_request t q now,
    rw ((==_iff n name).0 hit) (record_request-lookup r name t q now e),
    count_request-CountsOf h t q now c,
    same,
  )
  | inr miss ↦ rw miss (t, record_request-lookup_ne r n name q now miss ∙ e, c, same)
]

record_all-Follows :
    (r : Registry) (name : Bytes) (h : List Served) (session : ℕ) (qs : List Recorded)
    → Follows r name h session
    → Follows (record_all r qs) name (history_onto name h qs) session
unfolding record_all
record_all-Follows r name h session [] f = f
record_all-Follows r name h session ((n, q, now) ∷ qs) f =
    record_all-Follows (record_request r n q now) name (if n == name then q ∷ h else h) session qs
      (record_request-Follows r name n h session q now f)

-- From its registration on, while requests of any names are recorded, a tunnel's counters are those
-- of the requests recorded for its name: the number of requests, the bytes each way, the number with
-- each status, and for each bound the number that took no longer, the last bucket being all of them;
-- each modulo 2^64.
pub register-record_all-CountsOf :
    (r : Registry) (hello : ClientHello) (session : ℕ) (remote : Bytes) (now : ℕ)
    (qs : List Recorded)
    → (u : TunnelSession) × (lookup hello.name
          (record_all (register r hello session remote now) qs).sessions
        ≡ some u)
      × CountsOf (history_onto hello.name [] qs) u
      × (u.session ≡ session)
unfolding register
register-record_all-CountsOf r hello session remote now qs =
    record_all-Follows (register r hello session remote now) hello.name [] session qs (
      new_tunnel hello session remote now,
      lookup-insert_self hello.name (new_tunnel hello session remote now) r.sessions,
      new_tunnel-CountsOf hello session remote now,
      refl,
    )
