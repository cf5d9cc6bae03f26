-- ===== src/Trie/Linked.antt =====
-- The links of the trie's nodes (libs/mqtt_broker/src/topic_trie.cpp): children stand behind their
-- parent in the array, and each sibling before the one that leads to it, so no chain has a cycle.
use net_burner_mqtt_broker.Base.{
  ℕ, zero, suc, ◌+◌, ◌≤◌, ◌<◌, ◌≡◌, ◌≢◌, refl, arith, ap, sym, Bool, true, false, not, leb, ◌==◌,
  ◌&&◌, if◌then◌else◌, List, ◌⊎◌, some, length, take, Bool-cases, inl, inr, get_elem?-set_self,
  get_elem?-set_ne, length-set, u16, ==_iff,
}
use net_burner_mqtt_broker.Trie.{
  TopicTrie, Node, SubEntry, node_at, put_node, zero_node, alloc_node, is_child, find_child,
  add_child,
}
use mathlib.Core.Option

-- A link to a node below `bound`, or none.
abbrev pub LinkBelow : ℕ → ℕ → Type 0
LinkBelow bound link = (link ≡ 0xffff) ⊎ (link < bound)

-- The links of node `i`, of `count` nodes.
abbrev pub NodeLinked : ℕ → ℕ → Node → Type 0
NodeLinked count i n =
    LinkBelow i n.next_sibling
    × LinkBelow count n.first_child
    × ((n.first_child ≡ 0xffff) ⊎ (i < n.first_child))

pub record IsLinked (t : TopicTrie) : Type 0 where
  pub room : t.node_count ≤ length t.nodes
  pub word : length t.nodes ≤ 0xffff
  pub top : t.root < t.node_count
  pub linked : (i : ℕ) → i < t.node_count → NodeLinked t.node_count i (node_at t i)

node_at-put_self :
    (t : TopicTrie) (i : ℕ) (n : Node) → i < length t.nodes → node_at (put_node t i n) i ≡ n
node_at-put_self t i n h = ap (λ o. Option.get_or o zero_node) (get_elem?-set_self t.nodes i n h)

node_at-put_ne :
    (t : TopicTrie) (i j : ℕ) (n : Node) → i ≢ j → node_at (put_node t i n) j ≡ node_at t j
node_at-put_ne t i j n h = ap (λ o. Option.get_or o zero_node) (get_elem?-set_ne t.nodes i j n h)

-- A node that is written keeps the trie linked if its new links are.
pub put_node-IsLinked :
    (t : TopicTrie) (i : ℕ) (n : Node)
    → i < t.node_count
    → NodeLinked t.node_count i n
    → IsLinked t
    → IsLinked (put_node t i n)
put_node-IsLinked t i n h k l = record {
  room = rw (length-set t.nodes i n) l.room;
  word = rw (length-set t.nodes i n) l.word;
  top = l.top;
  linked = λ j below. elim (Bool-cases (i == j)) [
    | inl same ↦
        let e : i ≡ j = (==_iff _ _).0 same in
        rw (sym e, node_at-put_self t i n (omega (arith, l.room))) k
    | inr other ↦ rw (node_at-put_ne t i j n (λ e. ground (arith, e, other))) (l.linked j below)
  ];
}

LinkBelow-widen : (n link : ℕ) → LinkBelow n link → LinkBelow (n + 1) link
LinkBelow-widen n link (inl e) = inl e
LinkBelow-widen n link (inr h) = inr (omega arith)

-- A node that is written with the links that it had keeps the trie linked.
pub relabel-IsLinked :
    (t : TopicTrie) (i : ℕ) (n : Node)
    → n.next_sibling ≡ (node_at t i).next_sibling
    → n.first_child ≡ (node_at t i).first_child
    → IsLinked t
    → IsLinked (put_node t i n)
relabel-IsLinked t i n e f l = elim (Bool-cases (leb t.node_count i)) [
  | inr inside ↦
      let below : i < t.node_count = ground (arith, inside) in
      put_node-IsLinked t i n below (rw (e, f) (l.linked i below)) l
  | inl outside ↦ record {
    room = rw (length-set t.nodes i n) l.room;
    word = rw (length-set t.nodes i n) l.word;
    top = l.top;
    linked = λ j below.
        rw (node_at-put_ne t i j n (λ same. ground (arith, same, below, outside)))
          (l.linked j below);
  }
]

-- The subscriptions play no part in the links of the nodes.
pub other_subs-IsLinked :
    (t : TopicTrie) (subs : List SubEntry) (next_sub_id : ℕ)
    → IsLinked t
    → IsLinked (record t { subs = subs; next_sub_id = next_sub_id })
other_subs-IsLinked t subs next_sub_id l = record {
  room = l.room;
  word = l.word;
  top = l.top;
  linked = l.linked;
}

-- One more node, behind the others.
grow-IsLinked :
    (t : TopicTrie) (n : Node)
    → t.node_count < length t.nodes
    → NodeLinked (t.node_count + 1) t.node_count n
    → IsLinked t
    → IsLinked (record (put_node t t.node_count n) { node_count = t.node_count + 1 })
grow-IsLinked t n h k l = record {
  room = rw (length-set t.nodes t.node_count n) (omega arith);
  word = rw (length-set t.nodes t.node_count n) l.word;
  top = omega (arith, l.top);
  linked = λ j below. elim (Bool-cases (t.node_count == j)) [
    | inl same ↦
        let e : t.node_count ≡ j = (==_iff _ _).0 same in
        rw (sym e, node_at-put_self t t.node_count n h) k
    | inr other ↦
        let (sibling, child, above) = l.linked j (ground (arith, below, other)) in
        rw (node_at-put_ne t t.node_count j n (λ e. ground (arith, e, other)))
          (sibling, LinkBelow-widen t.node_count _ child, above)
  ];
}

abbrev unlinked : TopicTrie → Node
unlinked t = record (node_at t t.node_count) {
  first_child = 0xffff;
  next_sibling = 0xffff;
  first_sub = 0xffff;
}

alloc_node-full :
    (t : TopicTrie) → leb (length t.nodes) t.node_count ≡ true → alloc_node t ≡ (t, 0xffff)
unfolding alloc_node
alloc_node-full t e = rw (alloc_node, e) refl

alloc_node-free :
    (t : TopicTrie)
    → leb (length t.nodes) t.node_count ≡ false
    → length t.nodes ≤ 0xffff
    → alloc_node t ≡ (
      record (put_node t t.node_count (unlinked t)) { node_count = t.node_count + 1 },
      t.node_count,
    )
unfolding alloc_node
alloc_node-free t e w =
    let word : u16 t.node_count ≡ t.node_count = ground arith in rw (alloc_node, e, word) refl

-- The child that `add_child` puts in, before its parent leads to it.
abbrev new_child : TopicTrie → ℕ → List ℕ → Bool → Bool → Node
new_child t parent segment plus hash =
    let n = unlinked t in
    record n {
      segment = if not plus && not hash then take 255 segment else n.segment;
      is_wildcard_plus = plus;
      is_wildcard_hash = hash;
      next_sibling = (node_at t parent).first_child;
    }

-- What an operation on the trie keeps, with the node that it answers, if it does.
abbrev pub Entered : TopicTrie → TopicTrie × ℕ → Type 0
Entered t r = IsLinked r.0 × (t.node_count ≤ r.0.node_count) × LinkBelow r.0.node_count r.1

pub add_child-Entered :
    (t : TopicTrie) (parent : ℕ) (segment : List ℕ) (plus hash : Bool)
    → parent < t.node_count
    → IsLinked t
    → Entered t (add_child t parent segment plus hash)
unfolding add_child
add_child-Entered t parent segment plus hash h l =
    elim (Bool-cases (leb (length t.nodes) t.node_count)) [
      | inl full ↦ rw (add_child, alloc_node-full t full) (l, omega arith, inl refl)
      | inr free ↦
          let id = t.node_count in
          let small : (id == 0xffff) ≡ false = ground (arith, free, l.word) in
          let t1 : TopicTrie = record (put_node t id (unlinked t)) { node_count = id + 1 } in
          let l1 =
            grow-IsLinked t (unlinked t) (ground (arith, free)) (inl refl, inl refl, inl refl) l in
          let fresh = l1.linked id (omega arith) in
          let sibling : LinkBelow id (node_at t1 parent).first_child =
            rw (node_at-put_ne t id parent (unlinked t) (λ e. omega (arith, e, h)))
              ((l.linked parent h).1) in
          let n2 : Node = record (node_at t1 id) {
            segment = if not plus && not hash then take 255 segment else (node_at t1 id).segment;
            is_wildcard_plus = plus;
            is_wildcard_hash = hash;
            next_sibling = (node_at t1 parent).first_child;
          } in
          let l2 = put_node-IsLinked t1 id n2 (omega arith) (sibling, fresh.1, fresh.2) l1 in
          let t2 = put_node t1 id n2 in
          let n3 : Node = record (node_at t2 parent) { first_child = id } in
          let old = l2.linked parent (omega (arith, h)) in
          rw (add_child, alloc_node-free t free l.word, small)
            (
              put_node-IsLinked t2 parent n3 (omega (arith, h))
                  (old.0, inr (omega arith), inr (omega (arith, h))) l2,
              omega arith,
              inr (omega arith),
            )
    ]

-- A loop over the children only answers nodes that a chain of links reaches.
pub find_child-below :
    (fuel : ℕ) (t : TopicTrie) (child : ℕ) (segment : List ℕ) (plus hash : Bool) {k : ℕ}
    → IsLinked t
    → LinkBelow t.node_count child
    → find_child fuel t child segment plus hash ≡ some k
    → k < t.node_count
unfolding find_child
find_child-below zero t child segment plus hash l h e = ground (arith, e)
find_child-below (suc fuel) t child segment plus hash l h e = elim (Bool-cases (child == 0xffff)) [
  | inl none_left ↦ ground (arith, none_left, e)
  | inr here ↦
      let below : child < t.node_count = ground (arith, here, h) in
      let links = l.linked child below in
      let next : LinkBelow t.node_count (node_at t child).next_sibling =
        ground (arith, links.0, below) in
      elim (Bool-cases (is_child (node_at t child) segment plus hash)) [
        | inl it ↦ ground (arith, here, it, e, below)
        | inr other ↦
            find_child-below fuel t (node_at t child).next_sibling segment plus hash l next
              (rw (find_child, here, other) at e)
      ]
]

-- The loop over the children comes to its end by itself: any two amounts of fuel above the first child
-- give the same answer.
pub find_child_enough :
    (a b : ℕ) (t : TopicTrie) (child : ℕ) (segment : List ℕ) (plus hash : Bool)
    → IsLinked t
    → LinkBelow t.node_count child
    → LinkBelow a child
    → LinkBelow b child
    → find_child a t child segment plus hash ≡ find_child b t child segment plus hash
unfolding find_child
find_child_enough zero zero t child segment plus hash l h x y = refl
find_child_enough zero (suc b) t child segment plus hash l h x y =
    let e : (child == 0xffff) ≡ true = ground (arith, x) in rw (find_child, e) refl
find_child_enough (suc a) zero t child segment plus hash l h x y =
    let e : (child == 0xffff) ≡ true = ground (arith, y) in rw (find_child, e) refl
find_child_enough (suc a) (suc b) t child segment plus hash l h x y =
    elim (Bool-cases (child == 0xffff)) [
      | inl none_left ↦ rw (find_child, none_left) refl
      | inr here ↦
          let below : child < t.node_count = ground (arith, here, h) in
          let links = l.linked child below in
          let next : LinkBelow t.node_count (node_at t child).next_sibling =
            ground (arith, links.0, below) in
          let x' : LinkBelow a (node_at t child).next_sibling = ground (arith, links.0, x, here) in
          let y' : LinkBelow b (node_at t child).next_sibling = ground (arith, links.0, y, here) in
          rw
            (
              find_child,
              here,
              find_child_enough a b t (node_at t child).next_sibling segment plus hash l next x' y',
            )
            refl
    ]
