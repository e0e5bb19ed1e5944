-- ===== src/Access/Index/Path.antt =====
-- The well-formedness of a `RelationshipIndex`, and what a membership path is.
use ipa_diagnose.Base.{
  ℕ, zero, suc, ◌+◌, ◌≤◌, ◌≡◌, refl, sym, subst, ◌∙◌, String, true, Option, none, some, List, [],
  ◌∷◌, ◌++◌, arith, ◌==◌, leb, length, contains, All, All-append, All-kept, string_eq, option_eq,
  pair_eq, ==_iff, Bool-cases, Option-cases, inl, inr,
}
use ipa_diagnose.Base.Dict.{Dict, get, put, has, All-get, All-put, length-put, length-put_new}
use ipa_diagnose.Access.Index.{
  NodeKind, EdgeKind, member_of, member_of_indirect, Node, Edge, Key, EdgeKey, node_kind_eq,
  edge_kind_eq, RelationshipIndex, empty, or_nil, key, node_at, node, add_edge, add_members,
  add_memberships, parents, Expanded, found, go, expand, search, membership_path, all_out,
}

module _ (lower : String → String) where
  abbrev StartsAt : Key → List Edge → Type 0
  StartsAt k l = All (λ e. key lower e.src ≡ k) l

  -- The bounds hold, and the edges that are stored under a key start there.
  pub record IsWellFormed (g : RelationshipIndex) : Type 0 where
    pub few_nodes : length g.nodes ≤ g.max_nodes
    pub few_edges : length g.edges ≤ g.max_edges
    pub starts : All (λ e. StartsAt e.0 e.1) g.out

  pub IsWellFormed-empty : (n m : ℕ) → IsWellFormed (empty n m)
  IsWellFormed-empty n m = record { few_nodes = omega arith; few_edges = omega arith; starts = tt }

  node_at-IsWellFormed :
      (g : RelationshipIndex) (n : Node) (o : Option Node)
      → get g.nodes (key lower n) ≡ o
      → IsWellFormed g
      → IsWellFormed (node_at lower g n o).0
  node_at-IsWellFormed g n (some old) e w = w
  node_at-IsWellFormed g n none e w = elim (Bool-cases (leb g.max_nodes (length g.nodes))) [
    | inl full ↦
        rw full (record { few_nodes = w.few_nodes; few_edges = w.few_edges; starts = w.starts })
    | inr room ↦ rw room (record {
      few_nodes = ground (arith, room, length-put_new g.nodes (key lower n) n e);
      few_edges = w.few_edges;
      starts = w.starts;
    })
  ]

  node-IsWellFormed :
      (g : RelationshipIndex) (kind : NodeKind) (name : String)
      → IsWellFormed g
      → IsWellFormed (node lower g kind name).0
  unfolding node
  node-IsWellFormed g kind name w =
      let n : Node = record { kind = kind; name = name } in
      node_at-IsWellFormed g n (get g.nodes (key lower n)) refl w

  StartsAt-get :
      (d : Dict Key (List Edge)) (k : Key)
      → All (λ e. StartsAt e.0 e.1) d
      → StartsAt k (or_nil (get d k))
  StartsAt-get d k h = elim (Option-cases (get d k)) [
    | inl e ↦ rw e tt
    | inr (l, e) ↦ rw e (All-get (λ j x. StartsAt j x) d k l h e)
  ]

  add_edge-IsWellFormed :
      (g : RelationshipIndex) (src dst : Option Node) (kind : EdgeKind) (source : String)
      (side : Option String)
      → IsWellFormed g
      → IsWellFormed (add_edge lower g src dst kind source side)
  unfolding add_edge
  add_edge-IsWellFormed g none dst kind source side w = w
  add_edge-IsWellFormed g (some src) none kind source side w = w
  add_edge-IsWellFormed g (some src) (some dst) kind source side w =
      let k : EdgeKey = (key lower src, (key lower dst, (kind, side))) in
      let e : Edge = record { src = src; dst = dst; kind = kind; source = source; side = side } in
      elim (Bool-cases (has g.edges k)) [
        | inl old ↦ rw old w
        | inr new ↦
            let grown : length (put g.edges k e) ≡ suc (length g.edges) =
              rw (length-put g.edges k e, new) refl in
            rw new (elim (Bool-cases (leb g.max_edges (length g.edges))) [
              | inl full ↦
                  rw full
                    (record { few_nodes = w.few_nodes; few_edges = w.few_edges; starts = w.starts })
              | inr room ↦ rw room (record {
                few_nodes = w.few_nodes;
                few_edges = ground (arith, room, grown);
                starts =
                    All-put (λ j x. StartsAt j x) g.out (key lower src)
                      (or_nil (get g.out (key lower src)) ++ e ∷ []) w.starts
                      (All-append (λ x. key lower x.src ≡ key lower src)
                        (or_nil (get g.out (key lower src))) (e ∷ [])
                        (StartsAt-get g.out (key lower src) w.starts) (refl, tt));
              })
            ])
      ]

  add_members-IsWellFormed :
      (names : List String) (g : RelationshipIndex) (child : Option Node) (parent_kind : NodeKind)
      (kind : EdgeKind) (source : String)
      → IsWellFormed g
      → IsWellFormed (add_members lower g child parent_kind names kind source)
  unfolding add_members
  add_members-IsWellFormed [] g child parent_kind kind source w = w
  add_members-IsWellFormed (name ∷ names) g child parent_kind kind source w =
      add_members-IsWellFormed names _ child parent_kind kind source
        (add_edge-IsWellFormed _ child _ kind source none (node-IsWellFormed g parent_kind name w))

  -- Reading the memberships of an object keeps an index well-formed: it never holds more nodes or
  -- edges than its bounds, and each edge is stored under the node that it starts at.
  pub add_memberships-IsWellFormed :
      (g : RelationshipIndex) (child : Option Node) (parent_kind : NodeKind)
      (direct indirect : List String) (source : String)
      → IsWellFormed g
      → IsWellFormed (add_memberships lower g child parent_kind direct indirect source)
  unfolding add_memberships
  add_memberships-IsWellFormed g child parent_kind direct indirect source w =
      add_members-IsWellFormed indirect _ child parent_kind member_of_indirect source
        (add_members-IsWellFormed direct g child parent_kind member_of source w)

  -- A chain of direct memberships from one key to another.
  abbrev pub IsChain : Key → List Edge → Key → Type 0
  IsChain a [] b = a ≡ b
  IsChain a (e ∷ p) b =
      (key lower e.src ≡ a) × ((e.kind ≡ member_of) × IsChain (key lower e.dst) p b)

  IsChain-append :
      (a b : Key) (p : List Edge) (e : Edge)
      → IsChain a p b
      → key lower e.src ≡ b
      → e.kind ≡ member_of
      → IsChain a (p ++ e ∷ []) (key lower e.dst)
  IsChain-append a b [] e h s k = (s ∙ sym h, (k, refl))
  IsChain-append a b (x ∷ p) e h s k =
      (h.0, (h.1.0, IsChain-append (key lower x.dst) b p e h.1.1 s k))

  abbrev Queued : Key → List (Node × List Edge) → Type 0
  Queued a q = All (λ e. IsChain a e.1 (key lower e.0)) q

  abbrev Sound : Key → Key → Expanded lower → Type 0
  Sound a target (found p) = IsChain a p target
  Sound a target (go seen queue) = Queued a queue

  expand-Sound :
      (a target cur : Key) (es path : List Edge) (seen : List Key) (queue : List (Node × List Edge))
      → All (λ e. (key lower e.src ≡ cur) × (e.kind ≡ member_of)) es
      → IsChain a path cur
      → Queued a queue
      → Sound a target (expand lower target es path seen queue)
  unfolding expand
  expand-Sound a target cur [] path seen queue h c q = q
  expand-Sound a target cur (e ∷ es) path seen queue h c q =
      let longer = IsChain-append a cur path e c h.0.0 h.0.1 in
      elim (Bool-cases (contains seen (key lower e.dst))) [
        | inl old ↦ rw old (expand-Sound a target cur es path seen queue h.1 c q)
        | inr new ↦ rw new (elim (Bool-cases (key lower e.dst == target)) [
          | inl t ↦
              rw t
                (subst (IsChain a (path ++ e ∷ [])) ((==_iff (key lower e.dst) target).0 t) longer)
          | inr t ↦ rw t (
              expand-Sound a target cur es path (key lower e.dst ∷ seen)
                (queue ++ (e.dst, path ++ e ∷ []) ∷ []) h.1 c
                (All-append (λ x. IsChain a x.1 (key lower x.0)) queue
                  ((e.dst, path ++ e ∷ []) ∷ []) q (longer, tt)))
        ])
      ]

  some_eq : (q p : List Edge) → some (some q) ≡ some (some p) → q ≡ p
  some_eq q p h = ground (arith, h)

  on_expanded-Sound :
      (fuel : ℕ) (g : RelationshipIndex) (a target : Key) (max_depth : ℕ) (x : Expanded lower)
      (p : List Edge)
      → Sound a target x
      → ((seen : List Key) (queue : List (Node × List Edge))
          → Queued a queue
          → search lower fuel g target max_depth queue seen ≡ some (some p)
          → IsChain a p target)
      → elim x [
        | found p ↦ some (some p)
        | go seen' queue' ↦ search lower fuel g target max_depth queue' seen'
      ]
        ≡ some (some p)
      → IsChain a p target
  on_expanded-Sound fuel g a target max_depth (found q) p s rest h =
      subst (λ r. IsChain a r target) (some_eq q p h) s
  on_expanded-Sound fuel g a target max_depth (go seen queue) p s rest h = rest seen queue s h

  parents-lem :
      (g : RelationshipIndex) (n : Node)
      → IsWellFormed g
      → All (λ e. (key lower e.src ≡ key lower n) × (e.kind ≡ member_of)) (parents lower g n true)
  unfolding parents
  parents-lem g n w =
      All-kept _ (λ e. key lower e.src ≡ key lower n) _ (or_nil (get g.out (key lower n)))
        (StartsAt-get g.out (key lower n) w.starts)
        (λ e s t. (s, ground (arith, t, ==_iff e.kind member_of)))

  search-Sound :
      (fuel : ℕ) (g : RelationshipIndex) (a target : Key) (max_depth : ℕ)
      (queue : List (Node × List Edge)) (seen : List Key) (p : List Edge)
      → IsWellFormed g
      → Queued a queue
      → search lower fuel g target max_depth queue seen ≡ some (some p)
      → IsChain a p target
  unfolding search
  search-Sound fuel g a target max_depth [] seen p w q h = absurd (ground (arith, h))
  search-Sound zero g a target max_depth ((cur, path) ∷ queue) seen p w q h =
      absurd (ground (arith, h))
  search-Sound (suc fuel) g a target max_depth ((cur, path) ∷ queue) seen p w q h =
      elim (Bool-cases (leb max_depth (length path))) [
        | inl deep ↦ search-Sound fuel g a target max_depth queue seen p w q.1 (rw deep at h)
        | inr shallow ↦
            on_expanded-Sound fuel g a target max_depth
              (expand lower target (parents lower g cur true) path seen queue) p
              (expand-Sound a target (key lower cur) (parents lower g cur true) path seen queue
                (parents-lem g cur w) q.0 q.1)
              (λ seen' queue' q' h'. search-Sound fuel g a target max_depth queue' seen' p w q' h')
              (rw shallow at h)
      ]

  -- A membership path that is found in a well-formed index is a chain of direct memberships: each
  -- edge starts where the one before it ends, from the start to the target.
  pub membership_path-IsChain :
      (g : RelationshipIndex) (start target : Node) (max_depth : ℕ) (p : List Edge)
      → IsWellFormed g
      → membership_path lower g start target max_depth ≡ some (some p)
      → IsChain (key lower start) p (key lower target)
  unfolding membership_path
  membership_path-IsChain g start target max_depth p w h =
      elim (Bool-cases (key lower start == key lower target)) [
        | inl e ↦
            subst (λ r. IsChain (key lower start) r (key lower target)) (some_eq [] p (rw e at h))
              ((==_iff (key lower start) (key lower target)).0 e)
        | inr e ↦
            search-Sound (1 + length (all_out g.out)) g (key lower start) (key lower target)
              max_depth ((start, []) ∷ []) (key lower start ∷ []) p w (refl, tt) (rw e at h)
      ]
