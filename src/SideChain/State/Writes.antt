-- ===== src/SideChain/State/Writes.antt =====
-- A write through a pointer keeps a chain healthy, where the block that is written is justified.
use p2pool_observer.Prelude.{
  ℕ, ◌≡◌, refl, sym, subst, ap, ◌∙◌, arith, inl, inr, Bool, true, false, ◌∷◌, ◌==◌, ==_iff, ==_refl,
  if◌then◌else◌, Bool-cases, All-map,
}
use p2pool_observer.SideChain.PoolBlock.{PoolBlock}
use p2pool_observer.SideChain.State.{
  ChainState, Rules, write, write_block, broadcast_once, broadcast,
}
use p2pool_observer.SideChain.State.Health.{
  Grown, Grown_refl, note-Grown, content, IsGood, IsLawful, Stands, CachesParent, Grown-side,
  Grown-IsGood, Advance, Advance-calls, Advance-refl, Advance-trans, Healthy, Grown-Stands,
  Grown-template_id,
}

-- What holds of both branches.
pub if_rule {ℓ κ} :
    {A : Type ℓ} (P : A → Type κ) (t : Bool) {x y : A} → P x → P y → P (if t then x else y)
if_rule P true p q = p
if_rule P false p q = q

pub write-same : (heap : ℕ → PoolBlock) (a : ℕ) (b : PoolBlock) → write heap a b a ≡ b
unfolding write
write-same heap a b = rw (==_refl a) refl

-- What holds of the block that is written and of all others.
pub write-rule {ℓ} :
    (P : ℕ → PoolBlock → Type ℓ) (heap : ℕ → PoolBlock) (a : ℕ) (b : PoolBlock)
    → P a b
    → ((x : ℕ) → P x (heap x))
    → (x : ℕ) → P x (write heap a b x)
unfolding write
write-rule P heap a b here there x = elim (Bool-cases (x == a)) [
  | inl same ↦ rw same (subst (λ y. P y b) (sym ((==_iff x a).0 same)) here)
  | inr other ↦ rw other (there x)
]

module _ (rules : Rules) (lawful : IsLawful rules) where
  -- A block may be written that has grown; where it is new that it is good, it has to stand, and its
  -- cached parent has to be right.
  pub write_block-Advance :
      (s : ChainState) (a : ℕ) (b : PoolBlock)
      → Grown (s.heap a) b
      → (Healthy rules s → IsGood b → Stands rules s.heap b)
      → (Healthy rules s → CachesParent rules s.heap b)
      → Advance rules s (write_block s a b)
  unfolding write_block Stands CachesParent
  write_block-Advance s a b g stands caches = record {
    grown = gs;
    healthy = λ h. record {
      indexed =
          All-map (λ e k. Grown-template_id rules lawful (gs e.1) ∙ k) s.blocks_by_template_id
            h.indexed;
      cached =
          write-rule (λ x k. CachesParent rules (write s.heap a b) k) s.heap a b
            (λ c p e f. Grown-template_id rules lawful (gs p) ∙ caches h c p e f)
            (λ x c p e f. Grown-template_id rules lawful (gs p) ∙ h.cached x c p e f);
      trusted =
          write-rule (λ x k. IsGood k → Stands rules (write s.heap a b) k) s.heap a b
            (λ good.
              Grown-Stands rules lawful s.heap (write s.heap a b) gs (Grown_refl b) (stands h good))
            (λ x good.
              Grown-Stands rules lawful s.heap (write s.heap a b) gs (Grown_refl (s.heap x))
                (h.trusted x good));
      tip_good = λ t e. Grown-IsGood (gs t) (h.tip_good t e);
    };
  }
    where
      gs : (x : ℕ) → Grown (s.heap x) (write s.heap a b x)
      gs = write-rule (λ x k. Grown (s.heap x) k) s.heap a b g (λ x. Grown_refl (s.heap x))

  -- Notes on a block that change neither its flags nor its cache.
  pub write_note-Advance :
      (s : ChainState) (a : ℕ) (b : PoolBlock)
      → Grown (s.heap a) b
      → b.verified ≡ (s.heap a).verified
      → b.invalid ≡ (s.heap a).invalid
      → b.iteration_cache ≡ (s.heap a).iteration_cache
      → Advance rules s (write_block s a b)
  unfolding CachesParent
  write_note-Advance s a b g v i c =
      write_block-Advance s a b g
        (λ h good.
          Grown-Stands rules lawful s.heap s.heap (λ x. Grown_refl (s.heap x)) g
            (h.trusted a (record {
              is_verified = sym v ∙ good.is_verified;
              is_valid = sym i ∙ good.is_valid;
            })))
        (λ h cache p e f.
          h.cached a cache p (sym c ∙ e) f ∙ sym (ap (λ d. d.parent) (Grown-side g)))

  pub broadcast_once-Advance :
      (near : Bool) (s : ChainState) (a : ℕ) → Advance rules s (broadcast_once near s a)
  unfolding broadcast_once content
  broadcast_once-Advance near s a =
      let b = record (s.heap a) { broadcasted = true } in
      let g = note-Grown (s.heap a) b refl (omega arith) refl refl in
      let sent = Advance-trans rules (write_note-Advance s a b g refl refl refl) (
        Advance-calls rules (write_block s a b)
          (if near then broadcast a ∷ s.calls else s.calls)) in
      if_rule (Advance rules s) (s.heap a).want_broadcast
        (if_rule (Advance rules s) (s.heap a).broadcasted (Advance-refl rules s) sent)
        (Advance-refl rules s)
