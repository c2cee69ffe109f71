-- ===== src/Server/Stats/Listed.antt =====
-- Which tunnels are listed, and in which order.
use gatelet.Prelude.{
  ℕ, ◌≡◌, refl, sym, ap, ◌∙◌, subst, inl, inr, Bool, true, false, ◌||◌, Option, none, some, List,
  [], ◌∷◌, arith, ◌==◌, nat_eq, ==_iff, ==_self, Bool-cases, All, contains, GoMap, lookup, Bytes,
  bytes_eq,
}
use gatelet.Server.Registry.{TunnelSession, Registry, is_open}
use gatelet.Server.Stats.{
  TunnelStats, stats, tunnel_stats, before_or_same, insert_sorted, sort_names, open_names, stats_of,
  all_tunnel_stats,
}

-- A map has each key once.
abbrev pub IsMap : GoMap Bytes TunnelSession → Type 0
IsMap [] = Unit
IsMap ((name, t) ∷ m) = (lookup name m ≡ none) × IsMap m

abbrev pub names_in : List TunnelStats → List Bytes
names_in [] = []
names_in (t ∷ ts) = t.name ∷ names_in ts

abbrev pub Ascending : List Bytes → Type 0
Ascending [] = Unit
Ascending (n ∷ ns) = All (λ m. before_or_same n m ≡ true) ns × Ascending ns

before_or_same_total : (s t : Bytes) → before_or_same s t ≡ false → before_or_same t s ≡ true
before_or_same_total [] t e = absurd (cc)
before_or_same_total (x ∷ s) [] e = refl
before_or_same_total (x ∷ s) (y ∷ t) e = ground (arith, before_or_same_total s t)

before_or_same_trans :
    (s t u : Bytes)
    → before_or_same s t ≡ true
    → before_or_same t u ≡ true
    → before_or_same s u ≡ true
before_or_same_trans [] t u e f = refl
before_or_same_trans (x ∷ s) [] u e f = absurd (cc)
before_or_same_trans (x ∷ s) (y ∷ t) [] e f = absurd (cc)
before_or_same_trans (x ∷ s) (y ∷ t) (z ∷ u) e f = ground (arith, before_or_same_trans s t u)

All-before :
    (n m : Bytes) (ms : List Bytes)
    → before_or_same n m ≡ true
    → All (λ k. before_or_same m k ≡ true) ms
    → All (λ k. before_or_same n k ≡ true) ms
All-before n m [] e a = tt
All-before n m (k ∷ ms) e a = (before_or_same_trans n m k e a.0, All-before n m ms e a.1)

All-insert_sorted :
    (P : Bytes → Type 0) (n : Bytes) (ms : List Bytes) → P n → All P ms → All P (insert_sorted n ms)
unfolding insert_sorted
All-insert_sorted P n [] p a = (p, tt)
All-insert_sorted P n (m ∷ ms) p a = elim (Bool-cases (before_or_same n m)) [
  | inl e ↦ rw e (p, a)
  | inr e ↦ rw e (a.0, All-insert_sorted P n ms p a.1)
]

insert_sorted-Ascending :
    (n : Bytes) (ms : List Bytes) → Ascending ms → Ascending (insert_sorted n ms)
unfolding insert_sorted
insert_sorted-Ascending n [] a = (tt, tt)
insert_sorted-Ascending n (m ∷ ms) a = elim (Bool-cases (before_or_same n m)) [
  | inl e ↦ rw e ((e, All-before n m ms e a.0), a)
  | inr e ↦ rw e (
    All-insert_sorted (λ k. before_or_same m k ≡ true) n ms (before_or_same_total n m e) a.0,
    insert_sorted-Ascending n ms a.1,
  )
]

sort_names-Ascending : (ns : List Bytes) → Ascending (sort_names ns)
unfolding sort_names
sort_names-Ascending [] = tt
sort_names-Ascending (n ∷ ns) = insert_sorted-Ascending n (sort_names ns) (sort_names-Ascending ns)

contains-insert_sorted :
    (x n : Bytes) (ms : List Bytes) → contains x (insert_sorted n ms) ≡ contains x (n ∷ ms)
unfolding insert_sorted
contains-insert_sorted x n [] = refl
contains-insert_sorted x n (m ∷ ms) = ground (arith, contains-insert_sorted x n ms)

contains-sort_names : (x : Bytes) (ns : List Bytes) → contains x (sort_names ns) ≡ contains x ns
unfolding sort_names
contains-sort_names x [] = refl
contains-sort_names x (n ∷ ns) =
    contains-insert_sorted x n (sort_names ns) ∙ ground (arith, contains-sort_names x ns)

contains-open_names :
    (closed : ℕ → Bool) (x : Bytes) (m : GoMap Bytes TunnelSession)
    → IsMap m
    → contains x (open_names closed m) ≡ is_open closed (lookup x m)
unfolding open_names lookup
contains-open_names closed x [] u = refl
contains-open_names closed x ((name, t) ∷ m) u =
    ground (arith, contains-open_names closed x m u.1, u.0, ==_iff name x)

or_true : (b : Bool) → (b || true) ≡ true
or_true true = refl
or_true false = refl

open_found :
    (closed : ℕ → Bool) (o : Option TunnelSession)
    → is_open closed o ≡ true
    → (t : TunnelSession) × (o ≡ some t)
open_found closed none e = absurd (cc)
open_found closed (some t) e = (t, refl)

-- Every listed name has its statistics.
module _ (closed : ℕ → Bool) (r : Registry) where
  stats_of-names :
      (ns : List Bytes)
      → ((n : Bytes) → contains n ns ≡ true → is_open closed (lookup n r.sessions) ≡ true)
      → (names_in (stats_of r ns) ≡ ns) × All (λ t. tunnel_stats r t.name ≡ some t) (stats_of r ns)
  unfolding stats_of tunnel_stats stats
  stats_of-names [] h = (refl, tt)
  stats_of-names (n ∷ ns) h =
      let (t, found) = open_found closed (lookup n r.sessions) (h n (rw (==_self n) refl)) in
      let (same, rest) = stats_of-names ns (λ m e. h m (rw e (or_true (n == m)))) in
      let entry : tunnel_stats r n ≡ some (stats t n) = rw (found, tunnel_stats) refl in
      let step : stats_of r (n ∷ ns) ≡ stats t n ∷ stats_of r ns = rw (entry, stats_of) refl in
      subst
        (λ (ts : List TunnelStats).
          (names_in ts ≡ n ∷ ns) × All (λ t. tunnel_stats r t.name ≡ some t) ts)
        (sym step) (ap (◌∷◌ n) same, (entry, rest))

  -- The statistics of a relay list the open tunnels and no other, in ascending order of their names, each
  -- with what `TunnelStats` answers for its name.
  pub all_tunnel_stats_listed :
      IsMap r.sessions
      → Ascending (names_in (all_tunnel_stats closed r))
        × ((n : Bytes)
            → contains n (names_in (all_tunnel_stats closed r))
              ≡ is_open closed (lookup n r.sessions))
        × All (λ t. tunnel_stats r t.name ≡ some t) (all_tunnel_stats closed r)
  unfolding all_tunnel_stats
  all_tunnel_stats_listed u =
      let ns = sort_names (open_names closed r.sessions) in
      let listed : (n : Bytes) → contains n ns ≡ is_open closed (lookup n r.sessions) =
        λ n. contains-sort_names n _ ∙ contains-open_names closed n r.sessions u in
      let (same, whole) = stats_of-names ns (λ n e. sym (listed n) ∙ e) in
      (
        subst Ascending (sym same) (sort_names-Ascending (open_names closed r.sessions)),
        (λ n. ap (contains n) same ∙ listed n),
        whole,
      )
