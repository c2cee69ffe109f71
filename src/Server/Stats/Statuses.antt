-- ===== src/Server/Stats/Statuses.antt =====
-- internal/server/admin.go and server.go: the statuses of a tunnel in ascending order, by which both pages
-- list the counts. The iteration over the map comes in any order.
use gatelet.Prelude.{
  ℕ, ◌<◌, ◌≡◌, refl, sym, ap, ◌∙◌, inl, inr, Bool, true, false, Option, none, some, List, [], ◌∷◌,
  arith, leb, if◌then◌else◌, nat_eq, Bool-cases, All, contains, GoMap, lookup,
}

abbrev pub keys : GoMap ℕ ℕ → List ℕ
keys [] = []
keys ((status, count) ∷ m) = status ∷ keys m

unfoldable pub insert_status : ℕ → List ℕ → List ℕ
insert_status n [] = n ∷ []
insert_status n (m ∷ ms) = if leb n m then n ∷ m ∷ ms else m ∷ insert_status n ms

-- `sort.Ints`.
unfoldable pub sort_statuses : List ℕ → List ℕ
unfolding insert_status
sort_statuses [] = []
sort_statuses (n ∷ ns) = insert_status n (sort_statuses ns)

unfoldable pub sorted_statuses : GoMap ℕ ℕ → List ℕ
unfolding sort_statuses insert_status
sorted_statuses counts = sort_statuses (keys counts)

-- A map has each key once.
abbrev pub IsCounts : GoMap ℕ ℕ → Type 0
IsCounts [] = Unit
IsCounts ((status, count) ∷ m) = (lookup status m ≡ none) × IsCounts m

abbrev Rising : List ℕ → Type 0
Rising [] = Unit
Rising (n ∷ ns) = All (λ m. n < m) ns × Rising ns

abbrev has_count : Option ℕ → Bool
has_count none = false
has_count (some count) = true

contains-keys : (x : ℕ) (m : GoMap ℕ ℕ) → contains x (keys m) ≡ has_count (lookup x m)
unfolding lookup
contains-keys x [] = refl
contains-keys x ((status, count) ∷ m) = ground (arith, contains-keys x m)

contains-insert_status :
    (x n : ℕ) (ms : List ℕ) → contains x (insert_status n ms) ≡ contains x (n ∷ ms)
unfolding insert_status
contains-insert_status x n [] = refl
contains-insert_status x n (m ∷ ms) = ground (arith, contains-insert_status x n ms)

contains-sort_statuses : (x : ℕ) (ns : List ℕ) → contains x (sort_statuses ns) ≡ contains x ns
unfolding sort_statuses
contains-sort_statuses x [] = refl
contains-sort_statuses x (n ∷ ns) =
    contains-insert_status x n (sort_statuses ns) ∙ ground (arith, contains-sort_statuses x ns)

All-less : (n m : ℕ) (ks : List ℕ) → n < m → All (λ k. m < k) ks → All (λ k. n < k) ks
All-less n m [] e a = tt
All-less n m (k ∷ ks) e a = (omega (arith, e, a.0), All-less n m ks e a.1)

All-insert_status :
    (P : ℕ → Type 0) (n : ℕ) (ms : List ℕ) → P n → All P ms → All P (insert_status n ms)
unfolding insert_status
All-insert_status P n [] p a = (p, tt)
All-insert_status P n (m ∷ ms) p a = elim (Bool-cases (leb n m)) [
  | inl e ↦ rw e (p, a)
  | inr e ↦ rw e (a.0, All-insert_status P n ms p a.1)
]

-- A new status keeps the order.
insert_status-Rising :
    (n : ℕ) (ms : List ℕ) → contains n ms ≡ false → Rising ms → Rising (insert_status n ms)
unfolding insert_status
insert_status-Rising n [] new a = (tt, tt)
insert_status-Rising n (m ∷ ms) new a = elim (Bool-cases (leb n m)) [
  | inl e ↦ let less : n < m = ground arith in rw e ((less, All-less n m ms less a.0), a)
  | inr e ↦
      let rest : contains n ms ≡ false = ground arith in
      rw e
        (All-insert_status (λ k. m < k) n ms (ground arith) a.0, insert_status-Rising n ms rest a.1)
]

sorted_statuses-Rising : (m : GoMap ℕ ℕ) → IsCounts m → Rising (sorted_statuses m)
unfolding sorted_statuses sort_statuses
sorted_statuses-Rising [] u = tt
sorted_statuses-Rising ((status, count) ∷ m) u =
    insert_status-Rising status (sort_statuses (keys m))
      (contains-sort_statuses status (keys m) ∙ (contains-keys status m ∙ ap has_count u.0))
      (sorted_statuses-Rising m u.1)

above-contains : (n : ℕ) (ms : List ℕ) → All (λ m. n < m) ms → contains n ms ≡ false
above-contains n [] a = refl
above-contains n (m ∷ ms) a = ground (arith, above-contains n ms a.1, a.0)

contains-above : (x n : ℕ) (ms : List ℕ) → All (λ m. n < m) ms → contains x ms ≡ true → n < x
contains-above x n [] a e = absurd (cc)
contains-above x n (m ∷ ms) a e = ground (arith, contains-above x n ms a.1, a.0)

first_of :
    (x y : ℕ) (xs ys : List ℕ)
    → Rising (x ∷ xs)
    → Rising (y ∷ ys)
    → ((k : ℕ) → contains k (x ∷ xs) ≡ contains k (y ∷ ys))
    → x ≡ y
first_of x y xs ys a b same =
    ground (arith, same x, same y, contains-above x y ys b.0, contains-above y x xs a.0)

-- Rising lists with the same members are the same.
Rising-unique :
    (xs ys : List ℕ) → Rising xs → Rising ys → ((k : ℕ) → contains k xs ≡ contains k ys) → xs ≡ ys
Rising-unique [] [] a b same = refl
Rising-unique [] (y ∷ ys) a b same = ground (arith, same y)
Rising-unique (x ∷ xs) [] a b same = ground (arith, same x)
Rising-unique (x ∷ xs) (y ∷ ys) a b same =
    let head = first_of x y xs ys a b same in
    let rest : (k : ℕ) → contains k xs ≡ contains k ys =
      λ k. ground (arith, head, same k, contains-above k x xs a.0, contains-above k y ys b.0) in
    ap (◌∷◌ x) (Rising-unique xs ys a.1 b.1 rest) ∙ ap (λ z. z ∷ ys) head

-- The order in which the map is iterated over does not show in the list of its statuses.
pub sorted_statuses-same :
    (m n : GoMap ℕ ℕ)
    → IsCounts m
    → IsCounts n
    → ((k : ℕ) → lookup k m ≡ lookup k n)
    → sorted_statuses m ≡ sorted_statuses n
unfolding sorted_statuses
sorted_statuses-same m n um un same =
    let members : (k : ℕ) → contains k (sorted_statuses m) ≡ contains k (sorted_statuses n) = λ k.
      contains-sort_statuses k (keys m)
      ∙ (contains-keys k m
          ∙ (ap has_count (same k)
              ∙ sym (contains-sort_statuses k (keys n) ∙ contains-keys k n))) in
    Rising-unique (sorted_statuses m) (sorted_statuses n) (sorted_statuses-Rising m um)
      (sorted_statuses-Rising n un) members
