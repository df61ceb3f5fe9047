-- ===== src/Queue/Table/Unique.antt =====
-- What the unique indexes give: a key leads to one row at most.
use mathlib.Core.List.{Memᴰ}
use books_of_time.Base.{
  ◌≡◌, refl, sym, ◌∙◌, Bool, true, false, not, ◌||◌, Option, none, some, String, List, [], ◌∷◌, any,
  filter, leb, ◌==◌, if◌then◌else◌, arith,
}
use books_of_time.Base.Text.{str_eq, str_eq_iff}
use books_of_time.Base.Rows.{pick}
use books_of_time.Queue.Types.{CollectionTask, TaskTable, Transaction}
use books_of_time.Queue.Table.{
  eq_key, same_key, conflict, has_slice_key, is_active_with_key, find_scan_slice,
  find_active_idempotency_task,
}

-- Two rows with one id, or in conflict.
unfoldable pub clash : CollectionTask → CollectionTask → Bool
clash x y = x.id == y.id || conflict x y

-- No two rows clash.
abbrev pub IsUnique : List CollectionTask → Type 0
IsUnique [] = Unit
IsUnique (x ∷ xs) = (any (clash x) xs ≡ false) × IsUnique xs

-- The ids below `next_id` are taken, and no row breaks an index.
pub record IsTable (t : TaskTable) : Type 0 where
  pub unique : IsUnique t.rows
  pub fresh : any (λ r. leb t.next_id r.id) t.rows ≡ false

str_eq_trans : (a b c : String) → str_eq a b ≡ true → str_eq c b ≡ true → str_eq a c ≡ true
str_eq_trans a b c h k = (str_eq_iff a c).1 ((str_eq_iff a b).0 h ∙ sym ((str_eq_iff c b).0 k))

str_eq_comm : (a b : String) → str_eq a b ≡ str_eq b a
str_eq_comm a b = ground (arith, str_eq_iff a b, str_eq_iff b a)

same_key_comm : (j k : Option String) → same_key j k ≡ same_key k j
same_key_comm none none = refl
same_key_comm none (some k) = refl
same_key_comm (some j) none = refl
same_key_comm (some j) (some k) = str_eq_comm j k

conflict_comm : (x y : CollectionTask) → conflict x y ≡ conflict y x
unfolding conflict
conflict_comm x y = ground (
  arith,
  same_key_comm x.idempotency_key y.idempotency_key,
  same_key_comm x.scan_slice_key y.scan_slice_key,
)

pub clash_comm : (x y : CollectionTask) → clash x y ≡ clash y x
unfolding clash
clash_comm x y = ground (arith, conflict_comm x y)

same_key_of_eq :
    (j k : Option String) (key : String)
    → eq_key j key ≡ true
    → eq_key k key ≡ true
    → same_key j k ≡ true
same_key_of_eq none k key h l = cc
same_key_of_eq (some i) none key h l = cc
same_key_of_eq (some i) (some k) key h l = str_eq_trans i key k h l

pub has_slice_key-clash :
    (key : String) (x y : CollectionTask)
    → has_slice_key key x ≡ true
    → has_slice_key key y ≡ true
    → clash x y ≡ true
unfolding clash conflict
has_slice_key-clash key x y h k =
    ground (arith, same_key_of_eq x.scan_slice_key y.scan_slice_key key h k)

pub is_active_with_key-clash :
    (key : String) (x y : CollectionTask)
    → is_active_with_key key x ≡ true
    → is_active_with_key key y ≡ true
    → clash x y ≡ true
unfolding clash conflict
is_active_with_key-clash key x y h k =
    ground (arith, same_key_of_eq x.idempotency_key y.idempotency_key key)

pub any-mem :
    (p : CollectionTask → Bool) {x : CollectionTask} {xs : List CollectionTask}
    → Memᴰ x xs
    → p x ≡ true
    → any p xs ≡ true
any-mem p (Memᴰ.head e) h = ground arith
any-mem p (Memᴰ.tail m) h = ground (arith, any-mem p m h)

module _ (p : CollectionTask → Bool)
    (clashing : (x y : CollectionTask) → p x ≡ true → p y ≡ true → clash x y ≡ true) where
  filter-nil :
      (x : CollectionTask) (xs : List CollectionTask)
      → p x ≡ true
      → any (clash x) xs ≡ false
      → filter p xs ≡ []
  filter-nil x [] h a = refl
  filter-nil x (y ∷ ys) h a = ground (arith, clashing x y h, filter-nil x ys h)

  -- A test that no two rows pass together finds the one row that passes.
  pub filter_unique :
      {x : CollectionTask} {xs : List CollectionTask}
      → IsUnique xs
      → Memᴰ x xs
      → p x ≡ true
      → filter p xs ≡ x ∷ []
  filter_unique {x} {xs = []} u m h = elim m [ ]
  filter_unique {x} {xs = y ∷ ys} u (Memᴰ.head e) h = ground (arith, filter-nil y ys, u.0)
  filter_unique {x} {xs = y ∷ ys} u (Memᴰ.tail m) h =
      ground (arith, clashing y x, any-mem (clash y) m, u.0, filter_unique u.1 m h)

filter_comm :
    (p q : CollectionTask → Bool) (xs : List CollectionTask)
    → filter p (filter q xs) ≡ filter q (filter p xs)
filter_comm p q [] = refl
filter_comm p q (x ∷ xs) = ground (arith, filter_comm p q xs)

-- What a query sees of one row.
abbrev pub seen : Transaction → Bool → CollectionTask → Option CollectionTask
seen tx false x = some x
seen tx true x = if tx.unseen x then none else some x

module _ (tx : Transaction) (key : String) (skip : Bool) {x : CollectionTask}
    {xs : List CollectionTask} (u : IsUnique xs) (m : Memᴰ x xs) where
  -- The queries by a key find the one row that has it, unless they pass over it.
  pub find_scan_slice_unique :
      has_slice_key key x ≡ true → find_scan_slice tx key skip xs ≡ seen tx skip x
  unfolding find_scan_slice
  find_scan_slice_unique h = ground (
    arith,
    filter_unique (has_slice_key key) (has_slice_key-clash key) u m h,
    filter_comm (has_slice_key key) (λ r. not (tx.unseen r)) xs,
  )

  pub find_active_idempotency_task_unique :
      is_active_with_key key x ≡ true → find_active_idempotency_task tx key skip xs ≡ seen tx skip x
  unfolding find_active_idempotency_task pick
  find_active_idempotency_task_unique h = ground (
    arith,
    filter_unique (is_active_with_key key) (is_active_with_key-clash key) u m h,
    filter_comm (is_active_with_key key) (λ r. not (tx.unseen r)) xs,
  )
