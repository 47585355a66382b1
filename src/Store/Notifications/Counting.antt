-- ===== src/Store/Notifications/Counting.antt =====
-- How marking and removing change the number of unread notifications.
use academic_verification.Prelude.{
  ℕ, ◌+◌, String, Bool, true, false, not, ◌==◌, ◌&&◌, ◌||◌, none, List, [], ◌∷◌, map, filter, find,
  count, if◌then◌else◌, All, All-filter, ◌≡◌, refl, arith, eq_iff, Bool-cases, inl, inr,
}
use academic_verification.Store.Notifications.{Notification, as_read, set_read, was_unread}

abbrev pub unread : Notification → Bool
unread n = not n.read

abbrev pub unread_in : List Notification → ℕ
unread_in = count unread

-- No other notification has the id.
abbrev pub IsFresh : String → List Notification → Type 0
IsFresh id = All (λ n. (n.id == id) ≡ false)

abbrev pub HasDistinctIds : List Notification → Type 0
HasDistinctIds [] = Unit
HasDistinctIds (n ∷ ns) = IsFresh n.id ns × HasDistinctIds ns

-- An unread notification has the id.
abbrev pub has_unread : String → List Notification → Bool
has_unread id [] = false
has_unread id (n ∷ ns) = (n.id == id) && unread n || has_unread id ns

pub IsFresh-has_unread :
    (id : String) (ns : List Notification) → IsFresh id ns → has_unread id ns ≡ false
IsFresh-has_unread id [] h = refl
IsFresh-has_unread id (n ∷ ns) (p, h) = ground (arith, IsFresh-has_unread id ns h)

pub unread_in-mark_missing :
    (id : String) (ns : List Notification)
    → has_unread id ns ≡ false
    → unread_in (map (set_read id) ns) ≡ unread_in ns
unread_in-mark_missing id [] h = refl
unread_in-mark_missing id (n ∷ ns) h = ground (arith, unread_in-mark_missing id ns)

pub unread_in-mark_present :
    (id : String) (ns : List Notification)
    → HasDistinctIds ns
    → has_unread id ns ≡ true
    → unread_in (map (set_read id) ns) + 1 ≡ unread_in ns
unread_in-mark_present id [] d h = cc
unread_in-mark_present id (n ∷ ns) (f, d) h = ground (
  arith,
  unread_in-mark_present id ns d,
  unread_in-mark_missing id ns,
  eq_iff n.id id,
  IsFresh-has_unread n.id ns f,
)

pub unread_in-remove_missing :
    (id : String) (ns : List Notification)
    → find (λ n. n.id == id) ns ≡ none
    → filter (λ n. not (n.id == id)) ns ≡ ns
unread_in-remove_missing id [] h = refl
unread_in-remove_missing id (n ∷ ns) h = ground (arith, unread_in-remove_missing id ns)

filter-IsFresh :
    (id : String) (ns : List Notification) → IsFresh id ns → filter (λ n. not (n.id == id)) ns ≡ ns
filter-IsFresh id [] h = refl
filter-IsFresh id (n ∷ ns) (p, h) = ground (arith, filter-IsFresh id ns h)

pub unread_in-remove :
    (id : String) (ns : List Notification)
    → HasDistinctIds ns
    → unread_in (filter (λ n. not (n.id == id)) ns)
        + (if was_unread (find (λ n. n.id == id) ns) then 1 else 0)
      ≡ unread_in ns
unread_in-remove id [] d = refl
unread_in-remove id (n ∷ ns) (f, d) =
    ground (arith, unread_in-remove id ns d, eq_iff n.id id, filter-IsFresh n.id ns f)

pub unread_in-mark_all : (ns : List Notification) → unread_in (map as_read ns) ≡ 0
unread_in-mark_all [] = refl
unread_in-mark_all (n ∷ ns) = unread_in-mark_all ns

IsFresh-mark :
    (id j : String) (ns : List Notification) → IsFresh id ns → IsFresh id (map (set_read j) ns)
IsFresh-mark id j [] h = tt
IsFresh-mark id j (n ∷ ns) (p, h) = ground (arith, IsFresh-mark id j ns h)

pub HasDistinctIds-mark :
    (j : String) (ns : List Notification) → HasDistinctIds ns → HasDistinctIds (map (set_read j) ns)
HasDistinctIds-mark j [] d = tt
HasDistinctIds-mark j (n ∷ ns) (f, d) =
    ground (arith, HasDistinctIds-mark j ns d, IsFresh-mark n.id j ns f)

IsFresh-all : (id : String) (ns : List Notification) → IsFresh id ns → IsFresh id (map as_read ns)
IsFresh-all id [] h = tt
IsFresh-all id (n ∷ ns) (p, h) = (p, IsFresh-all id ns h)

pub HasDistinctIds-all :
    (ns : List Notification) → HasDistinctIds ns → HasDistinctIds (map as_read ns)
HasDistinctIds-all [] d = tt
HasDistinctIds-all (n ∷ ns) (f, d) = (IsFresh-all n.id ns f, HasDistinctIds-all ns d)

pub HasDistinctIds-filter :
    (p : Notification → Bool) (ns : List Notification)
    → HasDistinctIds ns
    → HasDistinctIds (filter p ns)
HasDistinctIds-filter p [] d = tt
HasDistinctIds-filter p (n ∷ ns) (f, d) =
    let rest = HasDistinctIds-filter p ns d in
    let fresh = All-filter (λ m. (m.id == n.id) ≡ false) p ns f in
    elim (Bool-cases (p n)) [ inl keep ↦ rw keep (fresh, rest) | inr drop ↦ rw drop rest ]
