-- ===== src/Replication/Causal/Proven.antt =====
-- What `check_chain` of ipa_diagnose/replication/causal.py accepts: the chains of proven links, which
-- go down the capability DAG.
use ipa_diagnose.Base.{
  ◌≡◌, refl, ap, ◌∙◌, ◌⊎◌, ◌↔◌, inl, inr, arith, ℕ, suc, String, Bool, true, false, ◌&&◌, ◌||◌, not,
  Option, none, some, List, [], ◌∷◌, ◌==◌, ==_iff, contains, string_eq, Bool-cases, Option-cases,
}
use ipa_diagnose.Base.Dict.{get}
use ipa_diagnose.Replication.Causal.{
  symptom, depends_on, Discriminator, discriminators, Link, Chain, or_empty, is_empty, first_error,
  check_found, check_link, check_links, check_chain,
}

-- `cap` is one that `prev` may depend on, or `prev` is the symptom.
abbrev pub IsStep : String → String → Type 0
IsStep prev cap = (prev ≡ symptom) ⊎ (contains (or_empty (get depends_on prev)) cap ≡ true)

-- The link comes from a registered discriminator for exactly its step, the step is one of the DAG or
-- the first, and the link has evidence.
pub record IsLink (prev : String) (l : Link) : Type 0 where
  pub found : Discriminator
  pub registered : get discriminators l.discriminator ≡ some found
  pub from : found.source ≡ prev
  pub to : found.target ≡ l.capability
  pub allowed : IsStep prev l.capability
  pub shown : is_empty l.evidence ≡ false

pub data IsProven : String → List Link → Type 0 where
  proven_end : (prev : String) → IsProven prev []
  proven_link :
      (prev : String) (l : Link) (ls : List Link)
      → IsLink prev l
      → IsProven l.capability ls
      → IsProven prev (l ∷ ls)

first_error-none :
    (a b c : Bool) → first_error a b c ≡ none → (a ≡ false) × ((b ≡ false) × (c ≡ false))
first_error-none true b c h = absurd (ground (arith, h))
first_error-none false true c h = absurd (ground (arith, h))
first_error-none false false true h = absurd (ground (arith, h))
first_error-none false false false h = (refl, (refl, refl))

pub both_same : (a b : Bool) → (not a || not b) ≡ false → (a ≡ true) × (b ≡ true)
both_same a b h = (ground (arith, h), ground (arith, h))

IsStep-allowed :
    (prev cap : String)
    → (not (prev == symptom) && not (contains (or_empty (get depends_on prev)) cap)) ≡ false
    → IsStep prev cap
IsStep-allowed prev cap h = elim (Bool-cases (prev == symptom)) [
  | inl e ↦ inl ((==_iff prev symptom).0 e)
  | inr e ↦ inr (ground (arith, h, e))
]

found-IsLink :
    (prev : String) (l : Link) (o : Option Discriminator)
    → get discriminators l.discriminator ≡ o
    → check_found prev l o ≡ none
    → IsLink prev l
found-IsLink prev l none e h = absurd (ground (arith, h))
found-IsLink prev l (some d) e h =
    let a = first_error-none _ _ _ h in
    let b = both_same (d.source == prev) (d.target == l.capability) a.0 in
    record {
      found = d;
      registered = e;
      from = (==_iff d.source prev).0 b.0;
      to = (==_iff d.target l.capability).0 b.1;
      allowed = IsStep-allowed prev l.capability a.1.0;
      shown = a.1.1;
    }

step_guard :
    (prev cap : String)
    → IsStep prev cap
    → (not (prev == symptom) && not (contains (or_empty (get depends_on prev)) cap)) ≡ false
step_guard prev cap (inl e) = rw ((==_iff prev symptom).1 e) refl
step_guard prev cap (inr e) = ground (arith, e)

IsLink-check_link : (prev : String) (l : Link) → IsLink prev l → check_link prev l ≡ none
unfolding check_link
IsLink-check_link prev l k =
    ap (check_found prev l) k.registered
    ∙ accepted ((==_iff k.found.source prev).1 k.from) ((==_iff k.found.target l.capability).1 k.to)
        (step_guard prev l.capability k.allowed) k.shown
  where
    accepted :
        {a b c d : Bool}
        → a ≡ true
        → b ≡ true
        → c ≡ false
        → d ≡ false
        → first_error (not a || not b) c d ≡ none
    accepted p q r s = rw (p, q, r, s) refl

links-IsProven :
    (ls : List Link) (prev : String) (i : ℕ) → check_links ls prev i ≡ none → IsProven prev ls
unfolding check_links
links-IsProven [] prev i h = proven_end prev
links-IsProven (l ∷ ls) prev i h = elim (Option-cases (check_link prev l)) [
  | inl e ↦
      let p : check_links ls l.capability (suc i) ≡ none = rw e at h in
      proven_link prev l ls (found-IsLink prev l _ refl (unfold check_link in e))
        (links-IsProven ls l.capability (suc i) p)
  | inr (x, e) ↦ let p : some (x, i) ≡ none = rw e at h in absurd (ground (arith, p))
]

IsProven-links :
    (ls : List Link) (prev : String) (i : ℕ) → IsProven prev ls → check_links ls prev i ≡ none
unfolding check_links
IsProven-links [] prev i k = refl
IsProven-links (l ∷ ls) prev i (proven_link _ _ _ k ks) =
    rw (IsLink-check_link prev l k) (IsProven-links ls l.capability (suc i) ks)

-- `check_chain` raises no error exactly for the chains of proven links: each link comes from a
-- registered discriminator whose source is the capability before it (the symptom at first) and
-- whose target is its own, its step is one of the DAG or starts at the symptom, and it has evidence.
pub check_chain_iff : (c : Chain) → (check_chain c ≡ none) ↔ IsProven symptom c.links
unfolding check_chain
check_chain_iff c = (links-IsProven c.links symptom 0, IsProven-links c.links symptom 0)
