-- ===== src/Sched/Queues.antt =====
-- The three queues as lists of nodes, by the address of their heads, and how a node enters one and
-- leaves one.
use so2_soa_fib.Common.{
  ◌≤◌, ◌<◌, ◌≡◌, ◌≢◌, refl, sym, ◌∙◌, subst, some, List, [], ◌∷◌, ◌++◌, arith, update_cases, update,
  Out, Apart, Out-append,
}
use so2_soa_fib.ListHead.{Ptr, null, Links, list_add, list_add_tail, list_del}
use so2_soa_fib.ListHead.Queue.{
  IsQueue, SameOutside, IsQueue-same, list_add-cons, list_add_tail-append, list_del-remove,
}

abbrev pub IsHead : Ptr → Type 0
IsHead h = (1 ≤ h) × (h < 4)

-- Every element is a task's node.
abbrev pub Nodes : List Ptr → Type 0
Nodes [] = Unit
Nodes (x ∷ xs) = (4 ≤ x) × Nodes xs

-- What the queues hold, by the address of the head.
abbrev pub Queues : Type 0
Queues = Ptr → List Ptr

pub record Holds (m : Links) (q : Queues) : Type 0 where
  pub queue : (h : Ptr) → IsHead h → IsQueue m h (q h)
  pub nodes : (h : Ptr) → IsHead h → Nodes (q h)
  pub apart : (h h' : Ptr) → IsHead h → IsHead h' → h ≢ h' → Apart (q h) (q h')

-- A task's node that is in no queue, with both its pointers NULL.
pub record Detached (x : Ptr) (m : Links) (q : Queues) : Type 0 where
  pub is_node : 4 ≤ x
  pub outside : (h : Ptr) → IsHead h → Out x (q h)
  pub next_null : m.next x ≡ null
  pub prev_null : m.prev x ≡ null

Nodes-Out : (h : Ptr) (xs : List Ptr) → h < 4 → Nodes xs → Out h xs
Nodes-Out h [] lt n = tt
Nodes-Out h (x ∷ xs) lt n = (λ e. omega arith, Nodes-Out h xs lt n.1)

Nodes-append : (xs ys : List Ptr) → Nodes xs → Nodes ys → Nodes (xs ++ ys)
Nodes-append [] ys h k = k
Nodes-append (x ∷ xs) ys h k = (h.0, Nodes-append xs ys h.1 k)

Apart-snoc : (xs ys : List Ptr) (y : Ptr) → Apart xs ys → Out y xs → Apart xs (ys ++ y ∷ [])
Apart-snoc [] ys y a o = tt
Apart-snoc (x ∷ xs) ys y a o =
    (Out-append x ys (y ∷ []) a.0 (λ e. o.0 (sym e), tt), Apart-snoc xs ys y a.1 o.1)

Apart-cons : (xs ys : List Ptr) (y : Ptr) → Apart xs ys → Out y xs → Apart xs (y ∷ ys)
Apart-cons [] ys y a o = tt
Apart-cons (x ∷ xs) ys y a o = ((λ e. o.0 (sym e), a.0), Apart-cons xs ys y a.1 o.1)

Apart-tail : (xs ys : List Ptr) (y : Ptr) → Apart xs (y ∷ ys) → Apart xs ys × Out y xs
Apart-tail [] ys y a = (tt, tt)
Apart-tail (x ∷ xs) ys y a =
    let (rest, out) = Apart-tail xs ys y a.1 in ((a.0.1, rest), (λ e. a.0.0 (sym e), out))

snoc-Apart : (xs ys : List Ptr) (x : Ptr) → Apart xs ys → Out x ys → Apart (xs ++ x ∷ []) ys
snoc-Apart [] ys x a o = (o, tt)
snoc-Apart (z ∷ xs) ys x a o = (a.0, snoc-Apart xs ys x a.1 o)

-- The nodes that a change of queue `h` at node `x` may touch do not belong to another queue.
other-Apart :
    (h h' x : Ptr) (xs ys : List Ptr)
    → IsHead h
    → IsHead h'
    → h ≢ h'
    → 4 ≤ x
    → Nodes xs
    → Nodes ys
    → Out x ys
    → Apart ys xs
    → Apart (h' ∷ ys) (x ∷ h ∷ xs)
other-Apart h h' x xs ys ih ih' n nx nxs nys o a = (
  (λ e. omega arith, (λ e. n (sym e), Nodes-Out h' xs ih'.1 nxs)),
  Apart-cons ys (h ∷ xs) x (Apart-cons ys xs h a (Nodes-Out h ys ih.1 nys)) o,
)

abbrev pub push_back : Queues → Ptr → Ptr → Queues
push_back q h x = update q h (q h ++ x ∷ [])

-- One queue gets another list, and no pointer of another queue's nodes is changed.
replace-Holds :
    {m m' : Links} {q : Queues} (h : Ptr) (ys touched : List Ptr)
    → Holds m q
    → IsQueue m' h ys
    → SameOutside touched m m'
    → ((a : Ptr) → IsHead a → a ≢ h → Apart (a ∷ q a) touched)
    → Nodes ys
    → ((a : Ptr) → IsHead a → a ≢ h → Apart ys (q a) × Apart (q a) ys)
    → Holds m' (update q h ys)
replace-Holds {m' = m'} {q = q} h ys touched holds is same far ns apart = record {
  queue =
      update_cases (λ a xs. IsHead a → IsQueue m' a xs) q h ys (λ _. is)
        (λ a n ia. IsQueue-same touched same (far a ia n) (holds.queue a ia));
  nodes = update_cases (λ a xs. IsHead a → Nodes xs) q h ys (λ _. ns) (λ a n ia. holds.nodes a ia);
  apart = λ a b.
      update_cases (λ c xs. IsHead c → IsHead b → c ≢ b → Apart xs (update q h ys b)) q h ys
        (first b) (second b) a;
}
  where
    first : (b : Ptr) → IsHead h → IsHead b → h ≢ b → Apart ys (update q h ys b)
    first =
        update_cases (λ b zs. IsHead h → IsHead b → h ≢ b → Apart ys zs) q h ys
          (λ i j n. absurd (n refl)) (λ b n i j ne. (apart b j n).0)

    second : (b c : Ptr) → c ≢ h → IsHead c → IsHead b → c ≢ b → Apart (q c) (update q h ys b)
    second b c n =
        update_cases (λ d zs. IsHead c → IsHead d → c ≢ d → Apart (q c) zs) q h ys
          (λ i j ne. (apart c i n).1) (λ d nd i j ne. holds.apart c d i j ne) b

-- A detached node that a change does not touch stays so.
keep-Detached :
    {m m' : Links} {q : Queues} (y h : Ptr) (ys touched : List Ptr)
    → Detached y m q
    → SameOutside touched m m'
    → Out y touched
    → Out y ys
    → Detached y m' (update q h ys)
keep-Detached {q = q} y h ys touched d same far out = record {
  is_node = d.is_node;
  outside =
      update_cases (λ a zs. IsHead a → Out y zs) q h ys (λ _. out) (λ b nb ib. d.outside b ib);
  next_null = (same y far).0 ∙ d.next_null;
  prev_null = (same y far).1 ∙ d.prev_null;
}

module _ {m : Links} {q : Queues} (h x : Ptr) (ih : IsHead h) (holds : Holds m q)
    (free : Detached x m q) where
  fresh : Out x (null ∷ h ∷ q h)
  fresh =
      ((λ e. omega (arith, free.is_node)), ((λ e. omega (arith, free.is_node)), free.outside h ih))

  far : (a : Ptr) → IsHead a → a ≢ h → Apart (a ∷ q a) (x ∷ h ∷ q h)
  far a ia n =
      other-Apart h a x (q h) (q a) ih ia (λ e. n (sym e)) free.is_node (holds.nodes h ih)
        (holds.nodes a ia) (free.outside a ia) (holds.apart a h ia ih n)

  push-Holds :
      {m' : Links}
      → IsQueue m' h (q h ++ x ∷ [])
      → SameOutside (x ∷ h ∷ q h) m m'
      → Holds m' (push_back q h x)
  push-Holds is same =
      replace-Holds h (q h ++ x ∷ []) (x ∷ h ∷ q h) holds is same far
        (Nodes-append (q h) (x ∷ []) (holds.nodes h ih) (free.is_node, tt))
        (λ a ia n. (
          snoc-Apart (q h) (q a) x (holds.apart h a ih ia (λ e. n (sym e))) (free.outside a ia),
          Apart-snoc (q a) (q h) x (holds.apart a h ia ih n) (free.outside a ia),
        ))

  -- `list_add` puts a detached node in front of a queue and leaves the other queues.
  pub list_add-Holds : (m' : Links) × (list_add x h m ≡ some m') × Holds m' (update q h (x ∷ q h))
  list_add-Holds =
      let (m', e, is, same) = list_add-cons x (q h) (holds.queue h ih) fresh in
      (
        m',
        e,
        replace-Holds h (x ∷ q h) (x ∷ h ∷ q h) holds is same far (free.is_node, holds.nodes h ih)
            (λ a ia n. (
              (free.outside a ia, holds.apart h a ih ia (λ e. n (sym e))),
              Apart-cons (q a) (q h) x (holds.apart a h ia ih n) (free.outside a ia),
            )),
      )

  -- `list_add_tail` puts a detached node at the end of a queue and leaves the other queues.
  pub list_add_tail-Holds :
      (m' : Links) × (list_add_tail x h m ≡ some m') × Holds m' (push_back q h x)
  list_add_tail-Holds =
      let (m', e, is, same) = list_add_tail-append x (q h) (holds.queue h ih) fresh in
      (m', e, push-Holds is same)

  -- Another detached node stays so when `x` is added.
  far_from : (y : Ptr) → y ≢ x → Detached y m q → Out y (x ∷ h ∷ q h)
  far_from y ne d = (ne, ((λ e. omega (arith, d.is_node)), d.outside h ih))

  pub list_add_tail-Detached :
      {m' : Links} (y : Ptr)
      → list_add_tail x h m ≡ some m'
      → y ≢ x
      → Detached y m q
      → Detached y m' (push_back q h x)
  list_add_tail-Detached y add ne d =
      let (m'', e, is, same) = list_add_tail-append x (q h) (holds.queue h ih) fresh in
      subst (λ l. Detached y l (push_back q h x)) (cc)
        (keep-Detached y h (q h ++ x ∷ []) (x ∷ h ∷ q h) d same (far_from y ne d)
          (Out-append y (q h) (x ∷ []) (d.outside h ih) (ne, tt)))

  pub list_add-Detached :
      {m' : Links} (y : Ptr)
      → list_add x h m ≡ some m'
      → y ≢ x
      → Detached y m q
      → Detached y m' (update q h (x ∷ q h))
  list_add-Detached y add ne d =
      let (m'', e, is, same) = list_add-cons x (q h) (holds.queue h ih) fresh in
      subst (λ l. Detached y l (update q h (x ∷ q h))) (cc)
        (keep-Detached y h (x ∷ q h) (x ∷ h ∷ q h) d same (far_from y ne d) (ne, d.outside h ih))

module _ {m : Links} {q : Queues} (h x : Ptr) (xs : List Ptr) (ih : IsHead h) (holds : Holds m q)
    (front : q h ≡ x ∷ xs) where
  front-IsQueue : IsQueue m h (x ∷ xs)
  front-IsQueue = subst (IsQueue m h) front (holds.queue h ih)

  front-Nodes : Nodes (x ∷ xs)
  front-Nodes = subst Nodes front (holds.nodes h ih)

  front-Apart : (b : Ptr) → IsHead b → h ≢ b → Apart (x ∷ xs) (q b)
  front-Apart b ib n = subst (λ ys. Apart ys (q b)) front (holds.apart h b ih ib n)

  Apart-front : (b : Ptr) → IsHead b → b ≢ h → Apart (q b) xs × Out x (q b)
  Apart-front b ib n =
      Apart-tail (q b) xs x (subst (λ ys. Apart (q b) ys) front (holds.apart b h ib ih n))

  pop-Holds :
      {m' : Links} → IsQueue m' h xs → SameOutside (x ∷ h ∷ xs) m m' → Holds m' (update q h xs)
  pop-Holds is same =
      replace-Holds h xs (x ∷ h ∷ xs) holds is same
        (λ a ia n.
          other-Apart h a x xs (q a) ih ia (λ e. n (sym e)) front-Nodes.0 front-Nodes.1
            (holds.nodes a ia) (Apart-front a ia n).1 (Apart-front a ia n).0)
        front-Nodes.1 (λ a ia n. ((front-Apart a ia (λ e. n (sym e))).1, (Apart-front a ia n).0))

  -- `list_del` of the first node of a queue leaves the rest of it, the other queues, and the node
  -- detached.
  pub list_del-Holds :
      (m' : Links) × (list_del x m ≡ some m')
      × Holds m' (update q h xs)
      × Detached x m' (update q h xs)
  list_del-Holds =
      let (m', e, is, n, p, same) = list_del-remove [] x xs front-IsQueue in
      (
        m',
        e,
        pop-Holds is same,
        record {
          is_node = front-Nodes.0;
          outside =
              update_cases (λ a ys. IsHead a → Out x ys) q h xs (λ _. front-IsQueue.distinct.1.0)
                (λ b nb ib. (Apart-front b ib nb).1);
          next_null = n;
          prev_null = p;
        },
      )

  -- Another detached node stays so.
  pub list_del-Detached :
      {m' : Links} (y : Ptr)
      → list_del x m ≡ some m'
      → y ≢ x
      → Detached y m q
      → Detached y m' (update q h xs)
  list_del-Detached y del ne d =
      let (m'', e, is, n, p, same) = list_del-remove [] x xs front-IsQueue in
      let out : Out y xs = (subst (Out y) front (d.outside h ih)).1 in
      subst (λ l. Detached y l (update q h xs)) (cc)
        (keep-Detached y h xs (x ∷ h ∷ xs) d same (ne, ((λ e. omega (arith, d.is_node)), out)) out)
