-- ===== src/Replication/Causal/Dag.antt =====
-- The capability DAG of ipa_diagnose/replication/causal.py has no cycle, every registered discriminator
-- follows it, and so the chains that `check_chain` accepts are short and never return to a capability.
use ipa_diagnose.Base.{
  All-mono, ◌≡◌, refl, ap, ◌∙◌, subst, ◌≢◌, inl, inr, arith, ℕ, suc, ◌≤◌, ◌<◌, String, Bool, true,
  false, ◌&&◌, ◌||◌, not, Option, none, some, List, [], ◌∷◌, map, ◌==◌, ==_iff, ltb, all, all-All,
  All, contains, length, string_eq, Option-cases,
}
use ipa_diagnose.Base.Dict.{Dict, get, All-get}
use ipa_diagnose.Base.Strings.{All-sorted}
use ipa_diagnose.Replication.Causal.{
  symptom, depends_on, Discriminator, registry, discriminators, Link, Chain, not_in_dag, or_empty,
  first_error, check_found, check_link, check_links, check_chain, edges, pairs, pair_lt,
}
use ipa_diagnose.Replication.Causal.Proven.{
  IsLink, IsProven, proven_link, check_chain_iff, both_same,
}

-- The most steps that may follow a capability.
abbrev heights : Dict String ℕ
heights =
    (symptom, 5)
    ∷ ("REPLICATION", 4)
    ∷ ("KERBEROS", 3)
    ∷ ("LOCAL_KDC", 2)
    ∷ ("PEER_DS", 2)
    ∷ ("TOPOLOGY", 2)
    ∷ ("LOCAL_DS", 1)
    ∷ ("NETWORK", 1)
    ∷ ("AUTHORIZATION", 1)
    ∷ ("TLS", 1)
    ∷ []

abbrev or_zero : Option ℕ → ℕ
or_zero none = 0
or_zero (some n) = n

unfoldable pub height : String → ℕ
height c = or_zero (get heights c)

falls : Discriminator → Bool
falls d = ltb (height d.target) (height d.source)

follows : Discriminator → Bool
follows d = d.source == symptom || contains (or_empty (get depends_on d.source)) d.target

abbrev IsSound : Discriminator → Type 0
IsSound d = (falls d ≡ true) × (follows d ≡ true)

All-map :
    (P : Discriminator → Type 0) (l : List Discriminator)
    → All P l
    → All (λ (e : String × Discriminator). P e.1) (map (λ d. (d.disc_id, d)) l)
All-map P [] h = tt
All-map P (d ∷ l) h = (h.0, All-map P l h.1)

falls-all : all falls registry ≡ true
unfolding all falls height get string_eq
falls-all = refl

follows-all : all follows registry ≡ true
unfolding all follows contains get string_eq
follows-all = refl

found-falls : (i : String) (d : Discriminator) → get discriminators i ≡ some d → falls d ≡ true
unfolding discriminators
found-falls i d h =
    All-get (λ k x. falls x ≡ true) discriminators i d
      (All-map (λ x. falls x ≡ true) registry (all-All falls registry falls-all)) h

found-follows : (i : String) (d : Discriminator) → get discriminators i ≡ some d → follows d ≡ true
unfolding discriminators
found-follows i d h =
    All-get (λ k x. follows x ≡ true) discriminators i d
      (All-map (λ x. follows x ≡ true) registry (all-All follows registry follows-all)) h

link-falls : (prev : String) (l : Link) → IsLink prev l → height l.capability < height prev
unfolding falls
link-falls prev l k =
    let f = found-falls l.discriminator k.found k.registered in
    let g : ltb (height l.capability) (height prev) ≡ true =
      subst (λ t. ltb (height t) (height prev) ≡ true) k.to
        (subst (λ s. ltb (height k.found.target) (height s) ≡ true) k.from f) in
    ground (arith, g)

proven-length : (ls : List Link) (prev : String) → IsProven prev ls → length ls ≤ height prev
proven-length [] prev k = omega arith
proven-length (l ∷ ls) prev (proven_link _ _ _ k ks) =
    omega (arith, link-falls prev l k, proven-length ls l.capability ks)

proven-below :
    (ls : List Link) (prev : String)
    → IsProven prev ls
    → All (λ l. height l.capability < height prev) ls
proven-below [] prev k = tt
proven-below (l ∷ ls) prev (proven_link _ _ _ k ks) =
    let f = link-falls prev l k in
    (
      f,
      All-mono (λ (m : Link) (h : height m.capability < height l.capability). omega (arith, f, h))
          ls (proven-below ls l.capability ks),
    )

-- No two links have the same capability.
abbrev pub Distinct : List Link → Type 0
Distinct [] = Unit
Distinct (l ∷ ls) = All (λ m. m.capability ≢ l.capability) ls × Distinct ls

lower_differs : (a b : String) → height a < height b → a ≢ b
lower_differs a b h e = let g : height a ≡ height b = ap height e in omega (arith, g, h)

proven-Distinct : (ls : List Link) (prev : String) → IsProven prev ls → Distinct ls
proven-Distinct [] prev k = tt
proven-Distinct (l ∷ ls) prev (proven_link _ _ _ k ks) = (
  All-mono
      (λ (m : Link) (h : height m.capability < height l.capability).
        lower_differs m.capability l.capability h)
      ls (proven-below ls l.capability ks),
  proven-Distinct ls l.capability ks,
)

height-symptom : height symptom ≡ 5
unfolding height get string_eq
height-symptom = refl

-- A chain that `check_chain` accepts has at most five links, and no two of them have the same
-- capability.
pub check_chain_short : (c : Chain) → check_chain c ≡ none → (length c.links ≤ 5) × Distinct c.links
check_chain_short c h =
    let k = (check_chain_iff c).0 h in
    (
      omega (arith, proven-length c.links symptom k, height-symptom),
      proven-Distinct c.links symptom k,
    )

first_error_dag : (a b c : Bool) → first_error a b c ≡ some not_in_dag → (a ≡ false) × (b ≡ true)
first_error_dag true b c h = absurd (ground (arith, h))
first_error_dag false true c h = (refl, refl)
first_error_dag false false true h = absurd (ground (arith, h))
first_error_dag false false false h = absurd (ground (arith, h))

follows_step :
    (prev cap : String) (d : Discriminator)
    → follows d ≡ true
    → d.source ≡ prev
    → d.target ≡ cap
    → (not (prev == symptom) && not (contains (or_empty (get depends_on prev)) cap)) ≡ false
unfolding follows
follows_step prev cap d f p q =
    let g : (prev == symptom || contains (or_empty (get depends_on prev)) cap) ≡ true =
      subst (λ t. (prev == symptom || contains (or_empty (get depends_on prev)) t) ≡ true) q
        (subst (λ s. (s == symptom || contains (or_empty (get depends_on s)) d.target) ≡ true) p
          f) in
    ground (arith, g)

found-in_dag :
    (prev : String) (l : Link) (o : Option Discriminator)
    → get discriminators l.discriminator ≡ o
    → check_found prev l o ≢ some not_in_dag
found-in_dag prev l none e h = ground (arith, h)
found-in_dag prev l (some d) e h =
    let a = first_error_dag _ _ _ h in
    let b = both_same (d.source == prev) (d.target == l.capability) a.0 in
    let c =
      follows_step prev l.capability d (found-follows l.discriminator d e)
        ((==_iff d.source prev).0 b.0) ((==_iff d.target l.capability).0 b.1) in
    ground (arith, a.1, c)

link-in_dag : (prev : String) (l : Link) → check_link prev l ≢ some not_in_dag
unfolding check_link
link-in_dag prev l = found-in_dag prev l (get discriminators l.discriminator) refl

links-in_dag :
    (ls : List Link) (prev : String) (i j : ℕ) → check_links ls prev i ≢ some (not_in_dag, j)
unfolding check_links
links-in_dag [] prev i j h = ground (arith, h)
links-in_dag (l ∷ ls) prev i j h = elim (Option-cases (check_link prev l)) [
  | inl e ↦ links-in_dag ls l.capability (suc i) j (rw e at h)
  | inr (x, e) ↦
      let p : some (x, i) ≡ some (not_in_dag, j) = rw e at h in
      let q : x ≡ not_in_dag = ap (λ o. elim o [ none ↦ x | some r ↦ r.0 ]) p in
      let r : check_link prev l ≡ some not_in_dag = e ∙ ap some q in link-in_dag prev l r
]

-- The guard of `check_chain` on the capability DAG never raises, whatever the chain is and at
-- whatever link.
pub check_chain-in_dag : (c : Chain) (i : ℕ) → check_chain c ≢ some (not_in_dag, i)
unfolding check_chain
check_chain-in_dag c i = links-in_dag c.links symptom 0 i

edge_falls : String × String → Bool
edge_falls e = ltb (height e.1) (height e.0)

edges_fall : all edge_falls (pairs depends_on) ≡ true
unfolding all edge_falls height get string_eq
edges_fall = refl

-- The DAG has no cycle: there is a number for each capability that is lower at the target of each edge.
pub edges-fall : All (λ (e : String × String). height e.1 < height e.0) edges
unfolding edges edge_falls
edges-fall =
    All-sorted (λ (e : String × String). height e.1 < height e.0) pair_lt (pairs depends_on)
      (All-mono {Q = λ (e : String × String). height e.1 < height e.0}
        (λ (e : String × String) (h : ltb (height e.1) (height e.0) ≡ true). ground (arith, h))
        (pairs depends_on) (all-All edge_falls (pairs depends_on) edges_fall))
