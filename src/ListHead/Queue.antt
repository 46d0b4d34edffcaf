-- ===== src/ListHead/Queue.antt =====
-- The list that a `struct list_head` stands for, and each operation of list.c on it.
use mathlib.Core.List.{append-nil}
use so2_soa_fib.Common.{
  ◌≡◌, ◌≢◌, sym, ◌∙◌, some, List, [], ◌∷◌, ◌++◌, arith, ◌==◌, update, update_self, update_ne, Out,
  Distinct, Out-left, Out-right, Distinct-insert, Distinct-remove, Out-insert, Out-remove, Apart,
  is_empty,
}
use so2_soa_fib.ListHead.{
  Ptr, null, Links, init_list_head, list_add_between, list_add, list_add_tail, list_del, list_empty,
  list_first, list_is_last,
}
use so2_soa_fib.ListHead.Chain.{
  NextChain, PrevChain, first_of, last_of, ne-first_of, ne-last_of, NextChain-update,
  PrevChain-update, NextChain-first, PrevChain-last, NextChain-split, PrevChain-split,
  NextChain-remove, PrevChain-remove, NextChain-insert, PrevChain-insert,
}

-- `head` is the head of a circular list of the distinct nodes `xs`, in this order.
pub record IsQueue (m : Links) (head : Ptr) (xs : List Ptr) : Type 0 where
  pub nonnull : Out null (head ∷ xs)
  pub distinct : Distinct (head ∷ xs)
  pub forward : NextChain m.next head xs head
  pub backward : PrevChain m.prev head xs head

-- `n` has the pointers of `m` at every node outside `xs`.
abbrev pub SameOutside : List Ptr → Links → Links → Type 0
SameOutside xs m n = (a : Ptr) → Out a xs → (n.next a ≡ m.next a) × (n.prev a ≡ m.prev a)

-- The links after `__list_add`, and after `list_del`.
abbrev linked : Ptr → Ptr → Ptr → Links → Links
linked new prev next m = record {
  next = update (update m.next new next) prev new;
  prev = update (update m.prev next new) new prev;
}

abbrev unlinked : Ptr → Ptr → Ptr → Links → Links
unlinked x prev next m = record {
  next = update (update m.next prev next) x null;
  prev = update (update m.prev next prev) x null;
}

list_add_between-linked :
    (new prev next : Ptr) (m : Links)
    → null ≢ new
    → null ≢ prev
    → null ≢ next
    → list_add_between new prev next m ≡ some (linked new prev next m)
unfolding list_add_between
list_add_between-linked new prev next m a b c = ground arith

nonnull-ends :
    (head : Ptr) (ys zs : List Ptr)
    → Out null (head ∷ ys ++ zs)
    → (null ≢ last_of head ys) × (null ≢ first_of zs head)
nonnull-ends head ys zs h = (
  ne-last_of null head ys h.0 (Out-left null ys zs h.1),
  ne-first_of null head zs h.0 (Out-right null ys zs h.1),
)

module _ {m : Links} {head : Ptr} (new : Ptr) (ys zs : List Ptr) (is : IsQueue m head (ys ++ zs))
    (fresh : Out new (null ∷ head ∷ ys ++ zs)) where
  linked-IsQueue : IsQueue (linked new (last_of head ys) (first_of zs head) m) head (ys ++ new ∷ zs)
  linked-IsQueue = record {
    nonnull = (is.nonnull.0, Out-insert null new ys zs (λ e. fresh.0 (sym e)) is.nonnull.1);
    distinct = (
      Out-insert head new ys zs (λ e. fresh.1.0 (sym e)) is.distinct.0,
      Distinct-insert new ys zs fresh.1.1 is.distinct.1,
    );
    forward = NextChain-insert m.next head ys new zs head is.distinct fresh.1 is.forward;
    backward =
        PrevChain-insert m.prev head ys new zs head is.distinct.1 is.distinct.0 fresh.1.0 fresh.1.1
          is.backward;
  }

  linked-SameOutside :
      SameOutside (new ∷ head ∷ ys ++ zs) m (linked new (last_of head ys) (first_of zs head) m)
  linked-SameOutside a out = (
    update_ne _ _ _ (ne-last_of a head ys out.1.0 (Out-left a ys zs out.1.1))
        ∙ update_ne _ _ _ out.0,
    update_ne _ _ _ out.0
        ∙ update_ne _ _ _ (ne-first_of a head zs out.1.0 (Out-right a ys zs out.1.1)),
  )

  add_between-insert :
      (m' : Links) × (list_add_between new (last_of head ys) (first_of zs head) m ≡ some m')
      × IsQueue m' head (ys ++ new ∷ zs)
      × SameOutside (new ∷ head ∷ ys ++ zs) m m'
  add_between-insert = (
    linked new (last_of head ys) (first_of zs head) m,
    list_add_between-linked new _ _ m (λ e. fresh.0 (sym e)) (nonnull-ends head ys zs is.nonnull).0
        (nonnull-ends head ys zs is.nonnull).1,
    linked-IsQueue,
    linked-SameOutside,
  )

NextChain-same :
    {m n : Links} (ws : List Ptr)
    → SameOutside ws m n
    → (p : Ptr) (xs : List Ptr) (q : Ptr) → Apart (p ∷ xs) ws
    → NextChain m.next p xs q
    → NextChain n.next p xs q
NextChain-same ws same p [] q out c = (same p out.0).0 ∙ c
NextChain-same ws same p (x ∷ xs) q out c =
    ((same p out.0).0 ∙ c.0, NextChain-same ws same x xs q out.1 c.1)

PrevChain-same :
    {m n : Links} (ws : List Ptr)
    → SameOutside ws m n
    → (p : Ptr) (xs : List Ptr) (q : Ptr) → Out q ws
    → Apart xs ws
    → PrevChain m.prev p xs q
    → PrevChain n.prev p xs q
PrevChain-same ws same p [] q o out c = (same q o).1 ∙ c
PrevChain-same ws same p (x ∷ xs) q o out c =
    ((same x out.0).1 ∙ c.0, PrevChain-same ws same x xs q o out.1 c.1)

-- A list all of whose nodes keep their pointers is still the same list.
pub IsQueue-same :
    {m n : Links} {head : Ptr} {xs : List Ptr} (ws : List Ptr)
    → SameOutside ws m n
    → Apart (head ∷ xs) ws
    → IsQueue m head xs
    → IsQueue n head xs
IsQueue-same {head} {xs} ws same out is = record {
  nonnull = is.nonnull;
  distinct = is.distinct;
  forward = NextChain-same ws same head xs head out is.forward;
  backward = PrevChain-same ws same head xs head out.0 out.1 is.backward;
}

pub init_list_head-IsQueue :
    (head : Ptr) (m : Links)
    → null ≢ head
    → (m' : Links) × (init_list_head head m ≡ some m')
      × IsQueue m' head []
      × SameOutside (head ∷ []) m m'
unfolding init_list_head
init_list_head-IsQueue head m h = (
  record { next = update m.next head head; prev = update m.prev head head },
  ground arith,
  record {
    nonnull = (h, tt);
    distinct = (tt, tt);
    forward = update_self m.next head head;
    backward = update_self m.prev head head;
  },
  λ a out. (update_ne _ _ _ out.0, update_ne _ _ _ out.0),
)

-- `list_add` puts the node in front.
pub list_add-cons :
    {m : Links} {head : Ptr} (new : Ptr) (xs : List Ptr)
    → IsQueue m head xs
    → Out new (null ∷ head ∷ xs)
    → (m' : Links) × (list_add new head m ≡ some m')
      × IsQueue m' head (new ∷ xs)
      × SameOutside (new ∷ head ∷ xs) m m'
unfolding list_add
list_add-cons {m} {head} new xs is fresh =
    let (m', e, q, same) = add_between-insert new [] xs is fresh in
    let n = NextChain-first m.next head xs head is.forward in
    (m', ground (arith, is.nonnull.0), q, same)

-- `list_add_tail` puts the node at the end.
pub list_add_tail-append :
    {m : Links} {head : Ptr} (new : Ptr) (xs : List Ptr)
    → IsQueue m head xs
    → Out new (null ∷ head ∷ xs)
    → (m' : Links) × (list_add_tail new head m ≡ some m')
      × IsQueue m' head (xs ++ new ∷ [])
      × SameOutside (new ∷ head ∷ xs) m m'
unfolding list_add_tail
list_add_tail-append {m} {head} new xs is fresh =
    let (m', e, q, same) =
      add_between-insert {m = m} {head = head} new xs [] (rw append-nil is) (rw append-nil fresh) in
    let p = PrevChain-last m.prev head xs head is.backward in
    (m', ground (arith, is.nonnull.0), q, rw append-nil at same)

list_del-unlinked :
    (x prev next : Ptr) (m : Links)
    → null ≢ x
    → null ≢ prev
    → null ≢ next
    → m.prev x ≡ prev
    → m.next x ≡ next
    → list_del x m ≡ some (unlinked x prev next m)
unfolding list_del
list_del-unlinked x prev next m a b c p n = ground arith

-- `list_del` takes the node out, wherever it stands, and leaves both its pointers NULL.
pub list_del-remove :
    {m : Links} {head : Ptr} (ys : List Ptr) (x : Ptr) (zs : List Ptr)
    → IsQueue m head (ys ++ x ∷ zs)
    → (m' : Links) × (list_del x m ≡ some m')
      × IsQueue m' head (ys ++ zs)
      × (m'.next x ≡ null)
      × (m'.prev x ≡ null)
      × SameOutside (x ∷ head ∷ ys ++ zs) m m'
list_del-remove {m} {head} ys x zs is = (
  unlinked x (last_of head ys) (first_of zs head) m,
  list_del-unlinked x _ _ m out.0 (nonnull-ends head ys zs nonnull).0
      (nonnull-ends head ys zs nonnull).1 split.0
      (NextChain-first m.next x zs head (NextChain-split m.next head ys x zs head is.forward)),
  record {
    nonnull = nonnull;
    distinct = (apart, removed.1);
    forward =
        NextChain-update _ x null head (ys ++ zs) head (x_ne_head, removed.0)
          (NextChain-remove m.next head ys x zs head (apart, removed.1) is.forward);
    backward =
        PrevChain-update _ x null head (ys ++ zs) head x_ne_head removed.0
          (PrevChain-remove m.prev head ys x zs head removed.1 apart is.backward);
  },
  update_self _ x null,
  update_self _ x null,
  λ a o. (
    update_ne _ _ _ o.0 ∙ update_ne _ _ _ (ne-last_of a head ys o.1.0 (Out-left a ys zs o.1.1)),
    update_ne _ _ _ o.0 ∙ update_ne _ _ _ (ne-first_of a head zs o.1.0 (Out-right a ys zs o.1.1)),
  ),
)
  where
    out : Out null (x ∷ zs)
    out = Out-right null ys (x ∷ zs) is.nonnull.1

    nonnull : Out null (head ∷ ys ++ zs)
    nonnull = (is.nonnull.0, Out-remove null x ys zs is.nonnull.1)

    removed : Out x (ys ++ zs) × Distinct (ys ++ zs)
    removed = Distinct-remove x ys zs is.distinct.1

    apart : Out head (ys ++ zs)
    apart = Out-remove head x ys zs is.distinct.0

    x_ne_head : x ≢ head
    x_ne_head = λ e. (Out-right head ys (x ∷ zs) is.distinct.0).0 (sym e)

    split : (m.prev x ≡ last_of head ys) × PrevChain m.prev x zs head
    split = PrevChain-split m.prev head ys x zs head is.backward

pub list_empty-is_empty :
    {m : Links} {head : Ptr} (xs : List Ptr)
    → IsQueue m head xs
    → list_empty head m ≡ some (is_empty xs)
unfolding list_empty
list_empty-is_empty [] is = ground (arith, is.nonnull.0)
list_empty-is_empty (x ∷ xs) is = ground (arith, is.nonnull.0, is.distinct.0.0)

pub list_first-first_of :
    {m : Links} {head : Ptr} (xs : List Ptr)
    → IsQueue m head xs
    → list_first head m ≡ some (first_of xs head)
unfolding list_first
list_first-first_of {m} {head} xs is =
    ground (arith, is.nonnull.0, NextChain-first m.next head xs head is.forward)

first_of-eq-head :
    (head : Ptr) (zs : List Ptr) → Out head zs → (first_of zs head == head) ≡ is_empty zs
first_of-eq-head head [] out = ground arith
first_of-eq-head head (z ∷ zs) out = ground (arith, out.0)

pub list_is_last-is_empty :
    {m : Links} {head : Ptr} (ys : List Ptr) (x : Ptr) (zs : List Ptr)
    → IsQueue m head (ys ++ x ∷ zs)
    → list_is_last x head m ≡ some (is_empty zs)
unfolding list_is_last
list_is_last-is_empty {m} {head} ys x zs is =
    let n =
      NextChain-first m.next x zs head (NextChain-split m.next head ys x zs head is.forward) in
    let out = Out-right null ys (x ∷ zs) is.nonnull.1 in
    let apart = Out-right head ys (x ∷ zs) is.distinct.0 in
    ground (arith, n, out.0, first_of-eq-head head zs apart.1)
