-- ===== src/SideChain/State/Outcomes.antt =====
-- What holds of a result, if there is one.
use p2pool_observer.Prelude.{ℕ, ◌≡◌, inl, inr, some, List, [], ◌∷◌, All, Option-cases, Bool-cases}
use p2pool_observer.Codec.{Result, ok, err, panic, stuck}
use p2pool_observer.Utils.NthElement.{then_result}
use p2pool_observer.Types.Hash.{bytes_eq}
use p2pool_observer.Types.Hash.Order.{bytes_eq→eq}
use p2pool_observer.SideChain.State.{
  ChainState, Rules, find_id, delete_id, get_by_template_id, parent_of,
}
use p2pool_observer.SideChain.State.Writes.{if_rule}
use p2pool_observer.SideChain.State.Health.{Healthy, Advance, Advance-trans, CachesParent}

abbrev pub OnOk {ℓ κ} : {A : Type ℓ} → (A → Type κ) → Result A → Type κ
OnOk P (ok a) = P a
OnOk P (err e) = Unit
OnOk P panic = Unit
OnOk P stuck = Unit

pub OnOk-map {ℓ κ μ} :
    {A : Type ℓ} {P : A → Type κ} {Q : A → Type μ}
    → ((a : A) → P a → Q a)
    → (r : Result A) → OnOk P r
    → OnOk Q r
OnOk-map f (ok a) h = f a h
OnOk-map f (err e) h = tt
OnOk-map f panic h = tt
OnOk-map f stuck h = tt

pub OnOk-any {ℓ} : {A : Type ℓ} (r : Result A) → OnOk (λ (a : A). Unit {0}) r
OnOk-any (ok a) = tt
OnOk-any (err e) = tt
OnOk-any panic = tt
OnOk-any stuck = tt

pub OnOk-then_result {ℓ κ μ ν} :
    {A : Type ℓ} {B : Type κ} (P : A → Type μ) (Q : B → Type ν) (r : Result A) (f : A → Result B)
    → OnOk P r
    → ((a : A) → P a → OnOk Q (f a))
    → OnOk Q (then_result r f)
unfolding then_result
OnOk-then_result P Q (ok a) f h k = k a h
OnOk-then_result P Q (err e) f h k = tt
OnOk-then_result P Q panic f h k = tt
OnOk-then_result P Q stuck f h k = tt

pub OnOk-get {ℓ κ} :
    {A : Type ℓ} (P : A → Type κ) (r : Result A) (a : A) → OnOk P r → r ≡ ok a → P a
OnOk-get P (ok b) a h e = let same : b ≡ a = cc in rw same at h
OnOk-get P (err x) a h e = absurd (cc)
OnOk-get P panic a h e = absurd (cc)
OnOk-get P stuck a h e = absurd (cc)

pub All-delete_id {κ} :
    (P : List ℕ × ℕ → Type κ) (m : List (List ℕ × ℕ)) (id : List ℕ)
    → All P m
    → All P (delete_id m id)
unfolding delete_id
All-delete_id P [] id h = tt
All-delete_id P ((k, a) ∷ m) id (p, h) =
    if_rule (All P) (bytes_eq k id) (All-delete_id P m id h) (p, All-delete_id P m id h)

find_id-All {κ} :
    (P : List ℕ → ℕ → Type κ) (m : List (List ℕ × ℕ)) (id : List ℕ) (a : ℕ)
    → All (λ e. P e.0 e.1) m
    → find_id m id ≡ some a
    → P id a
unfolding find_id
find_id-All P [] id a h e = absurd (cc)
find_id-All P ((k, b) ∷ m) id a (p, h) e = elim (Bool-cases (bytes_eq k id)) [
  | inl same ↦
      let found : some b ≡ some a = rw same at e in
      let b_a : b ≡ a = cc in rw (bytes_eq→eq k id same, b_a) at p
  | inr differ ↦ find_id-All P m id a h (rw differ at e)
]

module _ (rules : Rules) where
  -- Of a state `t` after `s`: the result's state is after `s`.
  pub OnOk-after :
      {A : Type 0} {s t : ChainState} (state : A → ChainState) (r : Result A)
      → Advance rules s t
      → OnOk (λ a. Advance rules t (state a)) r
      → OnOk (λ a. Advance rules s (state a)) r
  OnOk-after state (ok u) f g = Advance-trans rules f g
  OnOk-after state (err e) f g = tt
  OnOk-after state panic f g = tt
  OnOk-after state stuck f g = tt

  pub OnOk-Advance :
      {s t : ChainState} (r : Result ChainState)
      → Advance rules s t
      → OnOk (Advance rules t) r
      → OnOk (Advance rules s) r
  OnOk-Advance r = OnOk-after (λ u. u) r

  -- A parent that getParent finds in a healthy chain has the id that the block names.
  pub parent_of-id :
      (s : ChainState) (a p : ℕ)
      → Healthy rules s
      → parent_of s (s.heap a) ≡ some p
      → rules.template_id (s.heap p) ≡ (s.heap a).side.parent
  unfolding parent_of get_by_template_id CachesParent
  parent_of-id s a p h e = elim (Option-cases (s.heap a).iteration_cache) [
    | inl uncached ↦
        find_id-All (λ id x. rules.template_id (s.heap x) ≡ id) s.blocks_by_template_id
          (s.heap a).side.parent p h.indexed (rw (uncached) at e)
    | inr (c, cached) ↦ h.cached a c p cached (rw (cached) at e)
  ]
