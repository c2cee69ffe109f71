-- ===== src/Tui/Requests/History.antt =====
-- The index of the request history, and the ids that the history holds.
use gatelet.Prelude.{
  ℕ, zero, suc, ◌+◌, ◌≤◌, ◌≡◌, refl, ap, ◌∙◌, inl, inr, false, Option, none, some, List, [], ◌∷◌,
  arith, if◌then◌else◌, ◌==◌, nat_eq, ==_iff, Bool-cases, Option-cases, length, take, contains,
  GoMap, lookup, insert, lookup-insert, bytes_eq,
}
use gatelet.Tui.Model.{RequestItem, Model, max_requests}
use gatelet.Tui.Requests.{index_from, get_elem?, set_elem, position_from}

abbrev pub ids : List RequestItem → List ℕ
ids [] = []
ids (r ∷ rs) = r.id ∷ ids rs

abbrev pub IsDistinct : List ℕ → Type 0
IsDistinct [] = Unit
IsDistinct (n ∷ ns) = (contains n ns ≡ false) × IsDistinct ns

-- Each id stands once, the index gives its place, and the history is bounded.
abbrev pub IsHistory : List RequestItem → GoMap ℕ ℕ → Type 0
IsHistory rs index = IsDistinct (ids rs) × (index ≡ index_from 0 [] rs) × (length rs ≤ max_requests)

position_from-none :
    (i id : ℕ) (rs : List RequestItem) → contains id (ids rs) ≡ false → position_from i id rs ≡ none
position_from-none i id [] h = refl
position_from-none i id (r ∷ rs) h =
    ground (arith, ==_iff r.id id, ==_iff id r.id, position_from-none (suc i) id rs)

pub contains-ids :
    (i id : ℕ) (rs : List RequestItem) → position_from i id rs ≡ none → contains id (ids rs) ≡ false
contains-ids i id [] h = refl
contains-ids i id (r ∷ rs) h = ground (arith, contains-ids (suc i) id rs)

abbrev some_or {ℓ} : {A : Type ℓ} → Option A → Option A → Option A
some_or (some a) d = some a
some_or none d = d

lookup-index_from :
    (i id : ℕ) (index : GoMap ℕ ℕ) (rs : List RequestItem)
    → IsDistinct (ids rs)
    → lookup id (index_from i index rs) ≡ some_or (position_from i id rs) (lookup id index)
lookup-index_from i id index [] d = refl
lookup-index_from i id index (r ∷ rs) (new, d) = ground (
  arith,
  lookup-index_from (suc i) id (insert r.id i index) rs d,
  lookup-insert r.id id i index,
  ==_iff r.id id,
  position_from-none (suc i) id rs,
)

-- The index holds an id where the history does.
pub lookup-position_from :
    (id : ℕ) (rs : List RequestItem) (index : GoMap ℕ ℕ)
    → IsHistory rs index
    → lookup id index ≡ position_from 0 id rs
unfolding lookup
lookup-position_from id rs index (d, e, _) =
    rw e (ground (arith, lookup-index_from 0 id [] rs d, Option-cases (position_from 0 id rs)))

-- The first request with the id, which the history is looked at by.
abbrev pub find : ℕ → List RequestItem → Option RequestItem
find id [] = none
find id (r ∷ rs) = if r.id == id then some r else find id rs

-- The request at `n` is the first with the id.
abbrev pub IsPlace : ℕ → List RequestItem → ℕ → Type 0
IsPlace id [] n = ⊥
IsPlace id (r ∷ rs) zero = r.id ≡ id
IsPlace id (r ∷ rs) (suc n) = ((r.id == id) ≡ false) × IsPlace id rs n

pub position_from-IsPlace :
    (i id j : ℕ) (rs : List RequestItem)
    → position_from i id rs ≡ some j
    → (n : ℕ) × (j ≡ i + n) × IsPlace id rs n
position_from-IsPlace i id j [] h = cc
position_from-IsPlace i id j (r ∷ rs) h = elim (Bool-cases (r.id == id)) [
  | inl e ↦ (0, ground arith, (==_iff r.id id).0 e)
  | inr e ↦
      let (n, at, place) = position_from-IsPlace (suc i) id j rs (ground arith) in
      (suc n, omega arith, (e, place))
]

-- The place holds what `find` finds, under the id.
pub get_elem?-find :
    (rs : List RequestItem) (n id : ℕ)
    → IsPlace id rs n
    → (r : RequestItem) × (get_elem? rs n ≡ some r) × (find id rs ≡ some r) × (r.id ≡ id)
get_elem?-find [] n id place = absurd place
get_elem?-find (r ∷ rs) zero id place = (r, refl, ground (arith, ==_iff r.id id), place)
get_elem?-find (r ∷ rs) (suc n) id (ne, place) =
    let (x, at, found, same) = get_elem?-find rs n id place in (x, at, rw ne found, same)

pub set_elem-ids :
    (rs : List RequestItem) (n id : ℕ) (new : RequestItem)
    → IsPlace id rs n
    → new.id ≡ id
    → ids (set_elem rs n new) ≡ ids rs
set_elem-ids [] n id new place e = absurd place
set_elem-ids (r ∷ rs) zero id new place e = ap (λ k. k ∷ ids rs) (cc)
set_elem-ids (r ∷ rs) (suc n) id new (ne, place) e =
    ap (λ l. r.id ∷ l) (set_elem-ids rs n id new place e)

pub find-set_elem :
    (rs : List RequestItem) (n id other : ℕ) (new : RequestItem)
    → IsPlace id rs n
    → new.id ≡ id
    → find other (set_elem rs n new) ≡ (if id == other then some new else find other rs)
find-set_elem [] n id other new place e = absurd place
find-set_elem (r ∷ rs) zero id other new place e = ground arith
find-set_elem (r ∷ rs) (suc n) id other new (ne, place) e = ground (
  arith,
  find-set_elem rs n id other new place e,
  ==_iff r.id id,
  ==_iff r.id other,
  ==_iff id other,
)

pub index_from-ids :
    (i : ℕ) (index : GoMap ℕ ℕ) (rs qs : List RequestItem)
    → ids rs ≡ ids qs
    → index_from i index rs ≡ index_from i index qs
index_from-ids i index [] [] e = refl
index_from-ids i index [] (q ∷ qs) e = cc
index_from-ids i index (r ∷ rs) [] e = cc
index_from-ids i index (r ∷ rs) (q ∷ qs) e =
    let heads : r.id ≡ q.id = cc in
    let tails : ids rs ≡ ids qs = cc in
    ap (λ k. index_from (suc i) (insert k i index) rs) heads
    ∙ index_from-ids (suc i) (insert q.id i index) rs qs tails

pub length-ids : (rs : List RequestItem) → length (ids rs) ≡ length rs
length-ids [] = refl
length-ids (r ∷ rs) = ap suc (length-ids rs)

take-contains :
    (n id : ℕ) (rs : List RequestItem)
    → contains id (ids rs) ≡ false
    → contains id (ids (take n rs)) ≡ false
take-contains zero id rs h = refl
take-contains (suc n) id [] h = refl
take-contains (suc n) id (r ∷ rs) h = ground (arith, take-contains n id rs)

pub take-IsDistinct :
    (n : ℕ) (rs : List RequestItem) → IsDistinct (ids rs) → IsDistinct (ids (take n rs))
take-IsDistinct zero rs d = tt
take-IsDistinct (suc n) [] d = tt
take-IsDistinct (suc n) (r ∷ rs) (new, d) = (take-contains n r.id rs new, take-IsDistinct n rs d)

-- The history of a model, which the steps that leave the requests alone keep.
abbrev pub HasHistory : Model → Type 0
HasHistory m = IsHistory m.requests m.index
