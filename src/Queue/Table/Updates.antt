-- ===== src/Queue/Table/Updates.antt =====
-- The update of the rows that a query selected: which rows it changes, and that it keeps the
-- constraints of the table.
use mathlib.Core.List.{Memᴰ}
use books_of_time.Base.{
  ℕ, ◌≡◌, refl, sym, ap, ◌∙◌, inl, inr, Bool, true, false, List, [], ◌∷◌, map, any, filter, leb,
  ◌==◌, if◌then◌else◌, Bool-cases, arith,
}
use books_of_time.Queue.Types.{CollectionTask, TaskTable}
use books_of_time.Queue.Table.{is_active, conflict, is_chosen, update_chosen}
use books_of_time.Queue.Table.Unique.{clash, IsUnique, IsTable, any-mem}

any-filter :
    (q p : CollectionTask → Bool) (xs : List CollectionTask)
    → any q (filter p xs) ≡ true
    → any q xs ≡ true
any-filter q p [] h = h
any-filter q p (x ∷ xs) h = ground (arith, any-filter q p xs)

any_id-clash :
    (x : CollectionTask) (xs : List CollectionTask)
    → any (λ s. s.id == x.id) xs ≡ true
    → any (clash x) xs ≡ true
unfolding clash
any_id-clash x [] h = h
any_id-clash x (y ∷ ys) h = ground (arith, any_id-clash x ys)

id-clash : (x y : CollectionTask) → (x.id == y.id) ≡ true → clash x y ≡ true
unfolding clash
id-clash x y h = ground arith

module _ (p : CollectionTask → Bool) where
  -- A row whose id is among those that a query found was found by it.
  pub is_chosen-filter :
      {r : CollectionTask} {xs : List CollectionTask}
      → IsUnique xs
      → Memᴰ r xs
      → is_chosen (filter p xs) r ≡ p r
  is_chosen-filter {r} {xs = []} u m = elim m [ ]
  is_chosen-filter {r} {xs = x ∷ xs} u (Memᴰ.head e) = elim (Bool-cases (p x)) [
    | inl h ↦ ground arith
    | inr h ↦ ground (
      arith,
      u.0,
      any_id-clash x xs,
      any-filter (λ s. s.id == x.id) p xs,
      Bool-cases (is_chosen (filter p xs) x),
    )
  ]
  is_chosen-filter {r} {xs = x ∷ xs} u (Memᴰ.tail m) =
      ground (arith, u.0, id-clash x r, any-mem (clash x) m, is_chosen-filter u.1 m)

-- An id leads to one row.
pub id_unique :
    {x y : CollectionTask} {xs : List CollectionTask}
    → IsUnique xs
    → Memᴰ x xs
    → Memᴰ y xs
    → (x.id == y.id) ≡ true
    → x ≡ y
id_unique {xs = []} u m n h = elim m [ ]
id_unique {xs = z ∷ zs} u (Memᴰ.head e) (Memᴰ.head f) h = e ∙ sym f
id_unique {x} {y} {xs = z ∷ zs} u (Memᴰ.head e) (Memᴰ.tail n) h =
    ground (arith, u.0, id-clash z y, any-mem (clash z) n)
id_unique {x} {y} {xs = z ∷ zs} u (Memᴰ.tail m) (Memᴰ.head f) h =
    ground (arith, u.0, id-clash z x, any-mem (clash z) m)
id_unique {xs = z ∷ zs} u (Memᴰ.tail m) (Memᴰ.tail n) h = id_unique u.1 m n h

pub map-cong :
    (f g : CollectionTask → CollectionTask) (xs : List CollectionTask)
    → ((r : CollectionTask) → Memᴰ r xs → f r ≡ g r)
    → map f xs ≡ map g xs
map-cong f g [] h = refl
map-cong f g (x ∷ xs) h =
    ground (arith, h x (Memᴰ.head refl), map-cong f g xs (λ r m. h r (Memᴰ.tail m)))

-- Where the rows chosen are those that a query found, the update is made where its test holds.
pub update_chosen-filter :
    (p : CollectionTask → Bool) (chosen : List CollectionTask) (f : CollectionTask → CollectionTask)
    (t : TaskTable)
    → IsUnique t.rows
    → ((r : CollectionTask) → is_chosen chosen r ≡ is_chosen (filter p t.rows) r)
    → update_chosen chosen f t ≡ record t { rows = map (λ r. if p r then f r else r) t.rows }
unfolding update_chosen
update_chosen-filter p chosen f t u same =
    ap (λ rows. record t { rows = rows })
      (map-cong (λ r. if is_chosen chosen r then f r else r) (λ r. if p r then f r else r) t.rows
        (λ r m. rw (same r, is_chosen-filter p u m) refl))

-- An update of a row that keeps its id and its keys, and does not make a row active.
pub record Keeps (f : CollectionTask → CollectionTask) (r : CollectionTask) : Type 0 where
  pub id : (f r).id ≡ r.id
  pub key : (f r).idempotency_key ≡ r.idempotency_key
  pub slice : (f r).scan_slice_key ≡ r.scan_slice_key
  pub active : is_active (f r).status ≡ true → is_active r.status ≡ true

Keeps-clash :
    (f : CollectionTask → CollectionTask) (x y : CollectionTask)
    → Keeps f x
    → Keeps f y
    → clash (f x) (f y) ≡ true
    → clash x y ≡ true
unfolding clash conflict
Keeps-clash f x y k l h = ground arith

any-clash-map :
    (f : CollectionTask → CollectionTask) (x : CollectionTask) (xs : List CollectionTask)
    → Keeps f x
    → ((r : CollectionTask) → Memᴰ r xs → Keeps f r)
    → any (clash x) xs ≡ false
    → any (clash (f x)) (map f xs) ≡ false
any-clash-map f x [] k l h = refl
any-clash-map f x (y ∷ ys) k l h = ground (
  arith,
  Keeps-clash f x y k (l y (Memᴰ.head refl)),
  any-clash-map f x ys k (λ r m. l r (Memᴰ.tail m)),
)

IsUnique-map :
    (f : CollectionTask → CollectionTask) (xs : List CollectionTask)
    → ((r : CollectionTask) → Memᴰ r xs → Keeps f r)
    → IsUnique xs
    → IsUnique (map f xs)
IsUnique-map f [] k u = tt
IsUnique-map f (x ∷ xs) k u = (
  any-clash-map f x xs (k x (Memᴰ.head refl)) (λ r m. k r (Memᴰ.tail m)) u.0,
  IsUnique-map f xs (λ r m. k r (Memᴰ.tail m)) u.1,
)

fresh-map :
    (f : CollectionTask → CollectionTask) (n : ℕ) (xs : List CollectionTask)
    → ((r : CollectionTask) → Memᴰ r xs → Keeps f r)
    → any (λ r. leb n r.id) xs ≡ false
    → any (λ r. leb n r.id) (map f xs) ≡ false
fresh-map f n [] k h = refl
fresh-map f n (x ∷ xs) k h =
    ground (arith, (k x (Memᴰ.head refl)).id, fresh-map f n xs (λ r m. k r (Memᴰ.tail m)))

Keeps-if :
    (c : CollectionTask → Bool) (f : CollectionTask → CollectionTask) (r : CollectionTask)
    → (c r ≡ true → Keeps f r)
    → Keeps (λ x. if c x then f x else x) r
Keeps-if c f r k = elim (Bool-cases (c r)) [
  | inl e ↦
      let h = k e in
      record {
        id = ground (arith, h.id);
        key = ground (arith, h.key);
        slice = ground (arith, h.slice);
        active = ground (arith, h.active);
      }
  | inr e ↦ record { id = rw e; key = rw e; slice = rw e; active = λ a. ground arith }
]

-- An update of chosen rows keeps the constraints, where each chosen row keeps its id and its keys
-- and is not made active by it.
pub update_chosen-IsTable :
    (chosen : List CollectionTask) (f : CollectionTask → CollectionTask) (t : TaskTable)
    → IsTable t
    → ((r : CollectionTask) → Memᴰ r t.rows → is_chosen chosen r ≡ true → Keeps f r)
    → IsTable (update_chosen chosen f t)
unfolding update_chosen
update_chosen-IsTable chosen f t v k =
    let keeps =
      λ (r : CollectionTask) (m : Memᴰ r t.rows). Keeps-if (is_chosen chosen) f r (k r m) in
    record {
      unique = IsUnique-map _ t.rows keeps v.unique;
      fresh = fresh-map _ t.next_id t.rows keeps v.fresh;
    }
