-- ===== src/Base/Dict.antt =====
-- Python dicts as association lists in insertion order. An assignment to a key that is there
-- keeps its place.
use Prim.Native.Nat.{suc}
use mathlib.Core.List.{List, [], ◌∷◌, map}
use mathlib.Core.Option.{Option, none, some}
use mathlib.Core.Path.{◌≡◌, refl}
use mathlib.Core.Bool.{Bool, true, false}
use mathlib.Core.Logic.{◌≢◌}
use native.Mathlib.Omega.{arith}
use ipa_diagnose.Base.Tests.{if◌then◌else◌, Eq, ◌==◌, ==_refl, ==_iff, is_some}
use ipa_diagnose.Base.Lists.{length, All}

abbrev pub Dict {ℓ κ} : Type ℓ → Type κ → Type (ℓ ⊔ κ)
Dict K V = List (K × V)

unfoldable pub keys {ℓ κ} : {K : Type ℓ} {V : Type κ} → Dict K V → List K
keys d = map (λ e. e.0) d

unfoldable pub values {ℓ κ} : {K : Type ℓ} {V : Type κ} → Dict K V → List V
values d = map (λ e. e.1) d

module _ {ℓ κ} {K : Type ℓ} {V : Type κ} ⦃e : Eq K⦄ where
  -- `d.get(k)`
  unfoldable pub get : Dict K V → K → Option V
  get [] k = none
  get ((j, v) ∷ d) k = if k == j then some v else get d k

  -- `k in d`
  unfoldable pub has : Dict K V → K → Bool
  unfolding get
  has d k = is_some (get d k)

  -- `d[k] = v`
  unfoldable pub put : Dict K V → K → V → Dict K V
  put [] k v = (k, v) ∷ []
  put ((j, w) ∷ d) k v = if k == j then (j, v) ∷ d else (j, w) ∷ put d k v

  pub get-put :
      (d : Dict K V) (j k : K) (v : V) → get (put d j v) k ≡ (if k == j then some v else get d k)
  unfolding get put
  get-put [] j k v = refl
  get-put ((i, w) ∷ d) j k v = ground (arith, get-put d j k v)

  pub get-put_self : (d : Dict K V) (k : K) (v : V) → get (put d k v) k ≡ some v
  get-put_self d k v = rw (get-put d k k v, ==_refl k)

  pub get-put_ne : (d : Dict K V) (j k : K) (v : V) → k ≢ j → get (put d j v) k ≡ get d k
  get-put_ne d j k v h = rw (get-put d j k v) (ground (arith, ==_iff k j))

  pub length-put :
      (d : Dict K V) (k : K) (v : V)
      → length (put d k v) ≡ (if has d k then length d else suc (length d))
  unfolding has put
  length-put [] k v = refl
  length-put ((i, w) ∷ d) k v = ground (arith, length-put d k v)

  pub length-put_new :
      (d : Dict K V) (k : K) (v : V) → get d k ≡ none → length (put d k v) ≡ suc (length d)
  length-put_new d k v h = let e : has d k ≡ false = unfold has in rw h in rw (length-put, e)

  pub length-put_old :
      (d : Dict K V) (k : K) {w : V} (v : V) → get d k ≡ some w → length (put d k v) ≡ length d
  length-put_old d k v h = let e : has d k ≡ true = unfold has in rw h in rw (length-put, e)

  -- What holds of every stored pair holds of the pair that a lookup finds.
  pub All-get {μ} :
      (P : K → V → Type μ) (d : Dict K V) (k : K) (v : V)
      → All (λ e. P e.0 e.1) d
      → get d k ≡ some v
      → P k v
  unfolding get
  All-get P [] k v h q = cc
  All-get P ((j, w) ∷ d) k v h q = ground (arith, h.0, All-get P d k v h.1)

  pub All-put {μ} :
      (P : K → V → Type μ) (d : Dict K V) (k : K) (v : V)
      → All (λ e. P e.0 e.1) d
      → P k v
      → All (λ e. P e.0 e.1) (put d k v)
  unfolding put
  All-put P [] k v h p = (p, tt)
  All-put P ((j, w) ∷ d) k v h p = ground (arith, h.0, All-put P d k v h.1)
