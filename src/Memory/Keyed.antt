-- ===== src/Memory/Keyed.antt =====
-- A hash whose fields are the ids of its entries: its entries in time, and after deletions.
use motoro.Prelude.{
  ℕ, zero, suc, ◌≤◌, leb, String, eq_text, true, false, not, ◌||◌, ◌==◌, List, [], ◌∷◌, remove,
  take, drop, has, select, All, Bool-cases, if-cases, inl, inr, ◌≡◌, refl, sym, ap, ◌∙◌, arith,
}
use motoro.Prelude.Sorting.{sort, insert_sorted, le_key}
use motoro.Memory.Entries.{Entry, Store, values, get_entries}
use motoro.Memory.Strategy.{ids, delete_all}

-- The fields are the ids of the entries, and no two are the same.
abbrev pub Keyed : Store → Type 0
Keyed [] = Unit
Keyed ((k, e) ∷ store) = (k ≡ e.id) × (has (ids (values store)) e.id ≡ false) × Keyed store

time : Entry → ℕ
time e = e.timestamp

abbrev by_time : List Entry → List Entry
by_time es = sort (le_key (λ e. e.timestamp)) es

abbrev pub insert : Entry → List Entry → List Entry
insert x es = insert_sorted (le_key (λ e. e.timestamp)) x es

-- Without the entries of these ids.
abbrev pub outside : List String → List Entry → List Entry
outside is es = select (λ e. not (has is e.id)) es

abbrev Ordered : List Entry → Type 0
Ordered [] = Unit
Ordered (x ∷ xs) = All (λ y. x.timestamp ≤ y.timestamp) xs × Ordered xs

abbrev Distinct : List Entry → Type 0
Distinct [] = Unit
Distinct (x ∷ xs) = (has (ids xs) x.id ≡ false) × Distinct xs

All-insert {κ} :
    (P : Entry → Type κ) (x : Entry) (ys : List Entry) → P x → All P ys → All P (insert x ys)
unfolding insert_sorted
All-insert P x [] p h = (p, tt)
All-insert P x (y ∷ ys) p h =
    if-cases (All P) (leb x.timestamp y.timestamp) _ _ (λ _. (p, h))
      (λ _. (h.0, All-insert P x ys p h.1))

All-weaken {κ} :
    (P Q : Entry → Type κ) (xs : List Entry) → ((x : Entry) → P x → Q x) → All P xs → All Q xs
All-weaken P Q [] f h = tt
All-weaken P Q (x ∷ xs) f h = (f x h.0, All-weaken P Q xs f h.1)

insert-Ordered : (x : Entry) (ys : List Entry) → Ordered ys → Ordered (insert x ys)
unfolding insert_sorted
insert-Ordered x [] h = (tt, tt)
insert-Ordered x (y ∷ ys) h =
    if-cases Ordered (leb x.timestamp y.timestamp) _ _
      (λ l. (
        (
          ground arith,
          All-weaken (λ z. y.timestamp ≤ z.timestamp) (λ z. x.timestamp ≤ z.timestamp) ys
              (λ z m. ground arith) h.0,
        ),
        h,
      ))
      (λ l. (
        All-insert (λ z. y.timestamp ≤ z.timestamp) x ys (ground arith) h.0,
        insert-Ordered x ys h.1,
      ))

by_time-Ordered : (xs : List Entry) → Ordered (by_time xs)
unfolding sort
by_time-Ordered [] = tt
by_time-Ordered (x ∷ xs) = insert-Ordered x (by_time xs) (by_time-Ordered xs)

ids-insert :
    (x : Entry) (ys : List Entry) (k : String)
    → has (ids (insert x ys)) k ≡ (x.id == k || has (ids ys) k)
unfolding insert_sorted
ids-insert x [] k = refl
ids-insert x (y ∷ ys) k = ground (arith, ids-insert x ys k)

ids-by_time : (xs : List Entry) (k : String) → has (ids (by_time xs)) k ≡ has (ids xs) k
unfolding sort
ids-by_time [] k = refl
ids-by_time (x ∷ xs) k = ids-insert x (by_time xs) k ∙ ap (λ b. x.id == k || b) (ids-by_time xs k)

insert-Distinct :
    (x : Entry) (ys : List Entry) → has (ids ys) x.id ≡ false → Distinct ys → Distinct (insert x ys)
unfolding insert_sorted
insert-Distinct x [] n h = (refl, tt)
insert-Distinct x (y ∷ ys) n h =
    if-cases Distinct (leb x.timestamp y.timestamp) _ _ (λ l. (n, h))
      (λ l. (
        ids-insert x ys y.id
            ∙ ground (arith, n, h.0, eq_text.equal_iff x.id y.id, eq_text.equal_iff y.id x.id),
        insert-Distinct x ys (ground (arith, n)) h.1,
      ))

-- Sorting keeps the entries outside in their order.
insert-skip :
    (x : Entry) (ys : List Entry) → All (λ y. x.timestamp ≤ y.timestamp) ys → insert x ys ≡ x ∷ ys
unfolding insert_sorted
insert-skip x [] h = refl
insert-skip x (y ∷ ys) h = ground (arith, h.0)

outside-insert_in :
    (is : List String) (x : Entry) (ys : List Entry)
    → has is x.id ≡ true
    → outside is (insert x ys) ≡ outside is ys
unfolding insert_sorted
outside-insert_in is x [] i = ground (arith, i)
outside-insert_in is x (y ∷ ys) i = ground (arith, i, outside-insert_in is x ys i)

pub All-outside {κ} :
    (P : Entry → Type κ) (is : List String) (ys : List Entry) → All P ys → All P (outside is ys)
All-outside P is [] h = tt
All-outside P is (y ∷ ys) h =
    if-cases (All P) (not (has is y.id)) _ _ (λ _. (h.0, All-outside P is ys h.1))
      (λ _. All-outside P is ys h.1)

outside-insert_out :
    (is : List String) (x : Entry) (ys : List Entry)
    → has is x.id ≡ false
    → Ordered ys
    → outside is (insert x ys) ≡ insert x (outside is ys)
unfolding insert_sorted
outside-insert_out is x [] i o = ground (arith, i)
outside-insert_out is x (y ∷ ys) i o = elim (Bool-cases (leb x.timestamp y.timestamp)) [
  | inl l ↦ rw l (
      rw i (
        sym (
          insert-skip x (outside is (y ∷ ys)) (
            All-outside (λ z. x.timestamp ≤ z.timestamp) is (y ∷ ys)
              (
                ground arith,
                All-weaken (λ z. y.timestamp ≤ z.timestamp) (λ z. x.timestamp ≤ z.timestamp) ys
                    (λ z m. ground arith) o.0,
              )))))
  | inr l ↦ ground (arith, l, outside-insert_out is x ys i o.1)
]

outside-by_time :
    (is : List String) (xs : List Entry) → outside is (by_time xs) ≡ by_time (outside is xs)
unfolding sort
outside-by_time is [] = refl
outside-by_time is (x ∷ xs) = elim (Bool-cases (has is x.id)) [
  | inl i ↦ outside-insert_in is x (by_time xs) i ∙ rw i (outside-by_time is xs)
  | inr i ↦
      outside-insert_out is x (by_time xs) i (by_time-Ordered xs)
      ∙ rw i (ap (λ es. insert x es) (outside-by_time is xs))
]

by_time-Distinct : (xs : List Entry) → Distinct xs → Distinct (by_time xs)
unfolding sort
by_time-Distinct [] h = tt
by_time-Distinct (x ∷ xs) h =
    insert-Distinct x (by_time xs) (ids-by_time xs x.id ∙ h.0) (by_time-Distinct xs h.1)

-- Without the ids of a prefix, the rest of the list is left.
outside_none :
    (is : List String) (xs : List Entry) → All (λ x. has is x.id ≡ false) xs → outside is xs ≡ xs
outside_none is [] h = refl
outside_none is (x ∷ xs) h = ground (arith, h.0, outside_none is xs h.1)

absent-cons :
    (i : String) (is : List String) (xs : List Entry)
    → has (ids xs) i ≡ false
    → All (λ x. has is x.id ≡ false) xs
    → All (λ x. has (i ∷ is) x.id ≡ false) xs
absent-cons i is [] n h = tt
absent-cons i is (x ∷ xs) n h = (
  ground (arith, n, h.0, eq_text.equal_iff x.id i, eq_text.equal_iff i x.id),
  absent-cons i is xs (ground (arith, n)) h.1,
)

outside_skip :
    (i : String) (is : List String) (xs : List Entry)
    → has (ids xs) i ≡ false
    → outside (i ∷ is) xs ≡ outside is xs
outside_skip i is [] n = refl
outside_skip i is (x ∷ xs) n =
    ground (arith, n, outside_skip i is xs, eq_text.equal_iff x.id i, eq_text.equal_iff i x.id)

outside_nil : (xs : List Entry) → outside [] xs ≡ xs
outside_nil [] = refl
outside_nil (x ∷ xs) = ap (λ t. x ∷ t) (outside_nil xs)

outside_prefix : (k : ℕ) (xs : List Entry) → Distinct xs → outside (ids (take k xs)) xs ≡ drop k xs
outside_prefix zero xs h = outside_nil xs
outside_prefix (suc k) [] h = refl
outside_prefix (suc k) (x ∷ xs) h =
    rw ((eq_text.equal_iff x.id x.id).1 refl)
      (outside_skip x.id (ids (take k xs)) xs h.0 ∙ outside_prefix k xs h.1)

values-remove :
    (store : Store) (i : String)
    → Keyed store
    → values (remove store i) ≡ outside (i ∷ []) (values store)
unfolding remove
values-remove [] i h = refl
values-remove ((k, e) ∷ store) i h =
    ground (arith, h.0, values-remove store i h.2, eq_text.equal_iff k i, eq_text.equal_iff i e.id)

pub ids-outside :
    (is : List String) (xs : List Entry) (k : String)
    → has (ids xs) k ≡ false
    → has (ids (outside is xs)) k ≡ false
ids-outside is [] k n = refl
ids-outside is (x ∷ xs) k n = ground (arith, n, ids-outside is xs k)

remove-Keyed : (store : Store) (i : String) → Keyed store → Keyed (remove store i)
unfolding remove
remove-Keyed [] i h = tt
remove-Keyed ((k, e) ∷ store) i h =
    if-cases Keyed (k == i) _ _ (λ _. remove-Keyed store i h.2)
      (λ _. (
        h.0,
        ap (λ es. has (ids es) e.id) (values-remove store i h.2)
            ∙ ids-outside (i ∷ []) (values store) e.id h.1,
        remove-Keyed store i h.2,
      ))

outside-outside :
    (i : String) (is : List String) (xs : List Entry)
    → outside is (outside (i ∷ []) xs) ≡ outside (i ∷ is) xs
outside-outside i is [] = refl
outside-outside i is (x ∷ xs) = ground (arith, outside-outside i is xs)

pub delete_all-Keyed :
    (is : List String) (store : Store)
    → Keyed store
    → Keyed (delete_all is store) × (values (delete_all is store) ≡ outside is (values store))
unfolding delete_all
delete_all-Keyed [] store h = (h, sym (outside_nil (values store)))
delete_all-Keyed (i ∷ is) store h =
    let (k, e) = delete_all-Keyed is (remove store i) (remove-Keyed store i h) in
    (k, e ∙ ap (outside is) (values-remove store i h) ∙ outside-outside i is (values store))

Keyed-Distinct : (store : Store) → Keyed store → Distinct (values store)
Keyed-Distinct [] h = tt
Keyed-Distinct (p ∷ store) h = (h.1, Keyed-Distinct store h.2)

-- Deleting the oldest entries leaves the others, in their order.
pub get_entries-delete_all :
    (n : ℕ) (store : Store)
    → Keyed store
    → let store' = delete_all (ids (take n (get_entries store))) store in
      Keyed store' × (get_entries store' ≡ drop n (get_entries store))
unfolding get_entries
get_entries-delete_all n store h =
    let vs = values store in
    let is = ids (take n (by_time vs)) in
    let (k, e) = delete_all-Keyed is store h in
    (
      k,
      ap by_time e
          ∙ sym (outside-by_time is vs)
          ∙ outside_prefix n (by_time vs) (by_time-Distinct vs (Keyed-Distinct store h)),
    )
