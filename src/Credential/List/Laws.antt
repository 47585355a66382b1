-- ===== src/Credential/List/Laws.antt =====
-- What the list shows, and in which order.
use academic_verification.Prelude.{
  ℕ, String, Bool, true, List, [], ◌∷◌, map, Settled, ◌≡◌, ◌↔◌, ◌⊎◌, inl, inr, arith, All, Among,
  Among-filter, filter-Among, Bool-cases,
}
use academic_verification.Credential.List.{
  ListedCredential, Choices, SortOption, newest, oldest, name, type, decoded, passes_search,
  passes_status, passes_type, filtered, in_order, insert, sort, filtered_credentials,
}

module _ {A : Type 0} (le : A → A → Bool) where
  insert-Among : (a : A) (xs : List A) (b : A) → Among b (insert le a xs) ↔ ((b ≡ a) ⊎ Among b xs)
  unfolding insert
  insert-Among a [] b = (λ m. m, λ m. m)
  insert-Among a (x ∷ xs) b = elim (Bool-cases (le a x)) [
    | inl first ↦ rw first (λ m. m, λ m. m)
    | inr later ↦
        let (there, back) = insert-Among a xs b in
        rw later (
          λ m. elim m [
            | inl e ↦ inr (inl e)
            | inr k ↦ elim (there k) [ inl e ↦ inl e | inr l ↦ inr (inr l) ]
          ],
          λ m. elim m [
            | inl e ↦ inr (back (inl e))
            | inr k ↦ elim k [ inl e ↦ inl e | inr l ↦ inr (back (inr l)) ]
          ],
        )
  ]

  sort-Among : (xs : List A) (b : A) → Among b (sort le xs) ↔ Among b xs
  unfolding sort
  sort-Among [] b = (λ m. m, λ m. m)
  sort-Among (x ∷ xs) b =
      let (there, back) = sort-Among xs b in
      let (out, into) = insert-Among x (sort le xs) b in
      (
        λ m. elim (out m) [ inl e ↦ inl e | inr k ↦ inr (there k) ],
        λ m. into (elim m as (λ _. (b ≡ x) ⊎ Among b (sort le xs)) [
          | inl e ↦ inl e
          | inr k ↦ inr (back k)
        ]),
      )

  -- Each item may stand before all that follow it.
  abbrev pub IsSorted : List A → Type 0
  IsSorted [] = Unit
  IsSorted (x ∷ xs) = All (λ y. le x y ≡ true) xs × IsSorted xs

  All-insert :
      (x a : A) (xs : List A)
      → le x a ≡ true
      → All (λ y. le x y ≡ true) xs
      → All (λ y. le x y ≡ true) (insert le a xs)
  unfolding insert
  All-insert x a [] h k = (h, tt)
  All-insert x a (b ∷ bs) h (p, k) = elim (Bool-cases (le a b)) [
    | inl first ↦ rw first (h, (p, k))
    | inr later ↦ rw later (p, All-insert x a bs h k)
  ]

  module _ (total : (a b : A) → (le a b ≡ true) ⊎ (le b a ≡ true))
      (trans : (a b c : A) → le a b ≡ true → le b c ≡ true → le a c ≡ true) where
    All-le :
        (a b : A) (xs : List A)
        → le a b ≡ true
        → All (λ y. le b y ≡ true) xs
        → All (λ y. le a y ≡ true) xs
    All-le a b [] h k = tt
    All-le a b (x ∷ xs) h (p, k) = (trans a b x h p, All-le a b xs h k)

    insert-IsSorted : (a : A) (xs : List A) → IsSorted xs → IsSorted (insert le a xs)
    unfolding insert
    insert-IsSorted a [] h = (tt, tt)
    insert-IsSorted a (b ∷ bs) (p, h) = elim (Bool-cases (le a b)) [
      | inl first ↦ rw first ((first, All-le a b bs first p), (p, h))
      | inr later ↦
          let back : le b a ≡ true = elim (total a b) [
            | inl e ↦ ground (arith, e, later)
            | inr e ↦ e
          ] in
          rw later (All-insert b a bs back p, insert-IsSorted a bs h)
    ]

    sort-IsSorted : (xs : List A) → IsSorted (sort le xs)
    unfolding sort
    sort-IsSorted [] = tt
    sort-IsSorted (x ∷ xs) = insert-IsSorted x (sort le xs) (sort-IsSorted xs)

-- The list shows exactly those of the decoded credentials that pass the search, the filter by status
-- and the filter by type.
pub filtered_credentials-Among :
    (hex_to_string : String → Settled String) (lower : String → String)
    (before : String → String → Bool) (now : ℕ) (o : Choices) (cs : List ListedCredential)
    (c : ListedCredential)
    → Among c (filtered_credentials hex_to_string lower before now o cs) ↔ (
        Among c (map (decoded hex_to_string) cs)
        × (passes_search lower o.search_query c ≡ true)
        × (passes_status now o.filter_status c ≡ true)
        × (passes_type o.filter_type c ≡ true))
unfolding filtered_credentials filtered
filtered_credentials-Among hex_to_string lower before now o cs c =
    let ds = map (decoded hex_to_string) cs in
    let (out, into) = sort-Among (in_order before o.sort_by) (filtered lower now o ds) c in
    (
      λ m.
          let (m₁, typed) = Among-filter (passes_type o.filter_type) _ c (out m) in
          let (m₂, stated) = Among-filter (passes_status now o.filter_status) _ c m₁ in
          let (m₃, searched) = Among-filter (passes_search lower o.search_query) ds c m₂ in
          (m₃, searched, stated, typed),
      λ (m, searched, stated, typed). into (
          filter-Among (passes_type o.filter_type) _ c
            (filter-Among (passes_status now o.filter_status) _ c
              (filter-Among (passes_search lower o.search_query) ds c m searched) stated)
            typed),
    )

module _ (before : String → String → Bool)
    (total : (a b : String) → (before a b ≡ true) ⊎ (before b a ≡ true))
    (trans : (a b c : String) → before a b ≡ true → before b c ≡ true → before a c ≡ true) where
  in_order_total :
      (o : SortOption) (a b : ListedCredential)
      → (in_order before o a b ≡ true) ⊎ (in_order before o b a ≡ true)
  unfolding in_order
  in_order_total newest a b = ground arith
  in_order_total oldest a b = ground arith
  in_order_total name a b = total _ _
  in_order_total type a b = total _ _

  in_order_trans :
      (o : SortOption) (a b c : ListedCredential)
      → in_order before o a b ≡ true
      → in_order before o b c ≡ true
      → in_order before o a c ≡ true
  unfolding in_order
  in_order_trans newest a b c h k = ground (arith, h, k)
  in_order_trans oldest a b c h k = ground (arith, h, k)
  in_order_trans name a b c h k = trans _ _ _ h k
  in_order_trans type a b c h k = trans _ _ _ h k

  -- If the comparison of texts is total and transitive, then for each of the four orders every
  -- credential of the list may stand before all that follow it.
  pub filtered_credentials-IsSorted :
      (hex_to_string : String → Settled String) (lower : String → String) (now : ℕ) (o : Choices)
      (cs : List ListedCredential)
      → IsSorted
          (in_order before o.sort_by)
          (filtered_credentials hex_to_string lower before now o cs)
  unfolding filtered_credentials
  filtered_credentials-IsSorted hex_to_string lower now o cs =
      sort-IsSorted (in_order before o.sort_by) (in_order_total o.sort_by)
        (in_order_trans o.sort_by) (filtered lower now o (map (decoded hex_to_string) cs))
