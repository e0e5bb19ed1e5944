-- ===== src/Access/Index/Fuel.antt =====
-- The search for a membership path ends.
use ipa_diagnose.Base.{
  or_true, ℕ, zero, suc, ◌+◌, ◌≤◌, ◌<◌, ◌≡◌, refl, ap, ◌∙◌, ◌⊎◌, inl, inr, String, true, false,
  some, List, [], ◌∷◌, ◌++◌, arith, ◌==◌, if◌then◌else◌, leb, length, length-append, contains, All,
  All-filter, All-mono, string_eq, pair_eq, ==_refl, Bool-cases, is_some,
}
use ipa_diagnose.Base.Dict.{Dict, get}
use ipa_diagnose.Access.Index.{
  Node, Edge, Key, node_kind_eq, edge_kind_eq, RelationshipIndex, or_nil, key, parents, Expanded,
  found, go, expand, search, all_out, membership_path,
}

abbrev In : Edge → List Edge → Type 0
In e [] = ⊥
In e (x ∷ l) = (x ≡ e) ⊎ In e l

In-left : (e : Edge) (l r : List Edge) → In e l → In e (l ++ r)
In-left e [] r h = absurd h
In-left e (x ∷ l) r (inl h) = inl h
In-left e (x ∷ l) r (inr h) = inr (In-left e l r h)

In-right : (e : Edge) (l r : List Edge) → In e r → In e (l ++ r)
In-right e [] r h = h
In-right e (x ∷ l) r h = inr (In-right e l r h)

All-In : (l : List Edge) → All (λ e. In e l) l
All-In [] = tt
All-In (x ∷ l) =
    (inl refl, All-mono {P = λ e. In e l} {Q = λ e. In e (x ∷ l)} (λ e h. inr h) l (All-In l))

In-all_out : (d : Dict Key (List Edge)) (k : Key) → All (λ e. In e (all_out d)) (or_nil (get d k))
unfolding get
In-all_out [] k = tt
In-all_out ((j, l) ∷ d) k = elim (Bool-cases (k == j)) [
  | inl e ↦ rw e (
      All-mono {P = λ a. In a l} {Q = λ a. In a (l ++ all_out d)} (λ a h. In-left a l (all_out d) h)
        l (All-In l))
  | inr e ↦ rw e (
      All-mono {P = λ a. In a (all_out d)} {Q = λ a. In a (l ++ all_out d)}
        (λ a h. In-right a l (all_out d) h) (or_nil (get d k)) (In-all_out d k))
]

module _ (lower : String → String) where
  -- The edges that lead to a node that was not reached yet.
  unfoldable unseen : List Key → List Edge → ℕ
  unseen seen [] = 0
  unseen seen (e ∷ l) =
      let rest = unseen seen l in if contains seen (key lower e.dst) then rest else suc rest

  unseen-le : (k : Key) (seen : List Key) (l : List Edge) → unseen (k ∷ seen) l ≤ unseen seen l
  unfolding unseen contains
  unseen-le k seen [] = omega arith
  unseen-le k seen (e ∷ l) = ground (arith, unseen-le k seen l)

  -- Reaching a node that an edge of the list leads to leaves fewer of them.
  unseen-lt :
      (e : Edge) (seen : List Key) (l : List Edge)
      → In e l
      → contains seen (key lower e.dst) ≡ false
      → unseen (key lower e.dst ∷ seen) l < unseen seen l
  unfolding unseen
  unseen-lt e seen [] h new = absurd h
  unseen-lt e seen (x ∷ l) (inl h) new =
      let at_x : contains seen (key lower x.dst) ≡ false =
        ap (λ y. contains seen (key lower y.dst)) h ∙ new in
      let now : contains (key lower e.dst ∷ seen) (key lower x.dst) ≡ true =
        unfold contains in rw h (rw (==_refl (key lower e.dst)) refl) in
      rw (at_x, now) (omega (arith, unseen-le (key lower e.dst) seen l))
  unseen-lt e seen (x ∷ l) (inr h) new =
      let rest = unseen-lt e seen l h new in
      elim (Bool-cases (contains seen (key lower x.dst))) [
        | inl c ↦
            let now : contains (key lower e.dst ∷ seen) (key lower x.dst) ≡ true =
              unfold contains in rw c (or_true _) in
            rw (c, now) rest
        | inr c ↦ rw c (ground (arith, rest))
      ]

  Bounded : ℕ → List Edge → Expanded lower → Type 0
  Bounded n u (found p) = Unit
  Bounded n u (go seen queue) = unseen seen u + length queue ≤ n

  -- A pass over the parents of a node reaches as many nodes as it puts into the queue.
  expand-Bounded :
      (u : List Edge) (target : Key) (es : List Edge) (path : List Edge) (seen : List Key)
      (queue : List (Node × List Edge)) (n : ℕ)
      → All (λ e. In e u) es
      → unseen seen u + length queue ≤ n
      → Bounded n u (expand lower target es path seen queue)
  unfolding expand Bounded
  expand-Bounded u target [] path seen queue n h b = b
  expand-Bounded u target (e ∷ es) path seen queue n h b =
      elim (Bool-cases (contains seen (key lower e.dst))) [
        | inl c ↦ rw c (expand-Bounded u target es path seen queue n h.1 b)
        | inr c ↦ rw c (elim (Bool-cases (key lower e.dst == target)) [
          | inl t ↦ rw t tt
          | inr t ↦ rw t (
              expand-Bounded u target es path (key lower e.dst ∷ seen)
                (queue ++ (e.dst, path ++ e ∷ []) ∷ []) n h.1
                (omega (
                  arith,
                  b,
                  unseen-lt e seen u h.0 c,
                  length-append queue ((e.dst, path ++ e ∷ []) ∷ []),
                )))
        ])
      ]

  on_expanded :
      (fuel : ℕ) (g : RelationshipIndex) (target : Key) (max_depth n : ℕ) (u : List Edge)
      (x : Expanded lower)
      → Bounded n u x
      → ((seen : List Key) (queue : List (Node × List Edge))
          → unseen seen u + length queue ≤ n
          → is_some (search lower fuel g target max_depth queue seen) ≡ true)
      → is_some (elim x [
        | found p ↦ some (some p)
        | go seen' queue' ↦ search lower fuel g target max_depth queue' seen'
      ])
        ≡ true
  unfolding Bounded
  on_expanded fuel g target max_depth n u (found p) b rest = refl
  on_expanded fuel g target max_depth n u (go seen queue) b rest = rest seen queue b

  parents-In :
      (g : RelationshipIndex) (n : Node) → All (λ e. In e (all_out g.out)) (parents lower g n true)
  unfolding parents
  parents-In g n =
      All-filter (λ e. In e (all_out g.out)) _ (or_nil (get g.out (key lower n)))
        (In-all_out g.out (key lower n))

  search-total :
      (fuel : ℕ) (g : RelationshipIndex) (target : Key) (max_depth : ℕ)
      (queue : List (Node × List Edge)) (seen : List Key)
      → unseen seen (all_out g.out) + length queue ≤ fuel
      → is_some (search lower fuel g target max_depth queue seen) ≡ true
  unfolding search
  search-total fuel g target max_depth [] seen b = refl
  search-total zero g target max_depth ((cur, path) ∷ queue) seen b = absurd (omega (arith, b))
  search-total (suc fuel) g target max_depth ((cur, path) ∷ queue) seen b =
      let less : unseen seen (all_out g.out) + length queue ≤ fuel = omega (arith, b) in
      elim (Bool-cases (leb max_depth (length path))) [
        | inl deep ↦ rw deep (search-total fuel g target max_depth queue seen less)
        | inr shallow ↦ rw shallow (
            on_expanded fuel g target max_depth fuel (all_out g.out) _
              (expand-Bounded (all_out g.out) target (parents lower g cur true) path seen queue fuel
                (parents-In g cur) less)
              (λ seen' queue' less'. search-total fuel g target max_depth queue' seen' less'))
      ]

  unseen-length-le : (seen : List Key) (l : List Edge) → unseen seen l ≤ length l
  unfolding unseen
  unseen-length-le seen [] = omega arith
  unseen-length-le seen (e ∷ l) = ground (arith, unseen-length-le seen l)

  -- The fuel of the search for a membership path is always enough, whatever the index holds, cycles
  -- included, and whatever the depth bound is: it answers a path, or that there is none.
  pub membership_path-total :
      (g : RelationshipIndex) (start target : Node) (max_depth : ℕ)
      → is_some (membership_path lower g start target max_depth) ≡ true
  unfolding membership_path
  membership_path-total g start target max_depth =
      elim (Bool-cases (key lower start == key lower target)) [
        | inl e ↦ rw e refl
        | inr e ↦ rw e (
            search-total (1 + length (all_out g.out)) g (key lower target) max_depth
              ((start, []) ∷ []) (key lower start ∷ [])
              (omega (arith, unseen-length-le (key lower start ∷ []) (all_out g.out))))
      ]
