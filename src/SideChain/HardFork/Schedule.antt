-- ===== src/SideChain/HardFork/Schedule.antt =====
-- The versions in force follow the tables.
use p2pool_observer.Prelude.{
  ℕ, ◌≤◌, ◌<◌, ◌≡◌, ◌⊎◌, inl, inr, refl, arith, some, List, [], ◌∷◌, ◌++◌, All, drop, leb, Bool,
  ◌&&◌, true,
}
use p2pool_observer.SideChain.HardFork.{
  HardFork, NetworkType, mainnet, testnet, stagenet, network_hard_fork, network_major_version,
  major_version, version_at_height, version_at_time, p2pool_share_version, main_net_hard_forks,
  test_net_hard_forks, stage_net_hard_forks,
}

-- Where no fork has come, the version stays.
version_at_time-none :
    (timestamp result : ℕ) (coming : List HardFork)
    → All (λ f. timestamp < f.time) coming
    → version_at_time timestamp result coming ≡ result
unfolding version_at_time
version_at_time-none timestamp result [] c = refl
version_at_time-none timestamp result (f ∷ coming) (c, cs) = ground (arith, c)

All-split {ℓ κ} :
    {A : Type ℓ} (P : A → Type κ) (xs : List A) (y : A) → All P (xs ++ (y ∷ [])) → All P xs × P y
All-split P [] y (p, tt) = (tt, p)
All-split P (x ∷ xs) y (p, ps) = let (qs, q) = All-split P xs y ps in ((p, qs), q)

version_at_time-split :
    (timestamp result : ℕ) (past : List HardFork) (last : HardFork) (coming : List HardFork)
    → All (λ f. f.time ≤ timestamp) past
    → last.time ≤ timestamp
    → All (λ f. timestamp < f.time) coming
    → version_at_time timestamp result (past ++ (last ∷ coming)) ≡ last.version
unfolding version_at_time
version_at_time-split timestamp result [] last [] v h c = ground arith
version_at_time-split timestamp result [] last (f ∷ coming) v h (c, cs) = ground arith
version_at_time-split timestamp result (p ∷ past) last coming (v, vs) h c =
    ground (arith, version_at_time-split timestamp p.version past last coming vs h c)

-- P2PoolShareVersion is the version of the last fork whose time has come, where the forks that have come
-- stand before those that have not. The first fork of the table counts as come, whatever its time: where no
-- other one has come, the version is that of the first.
pub p2pool_share_version-last :
    (timestamp : ℕ) (past : List HardFork) (last : HardFork) (coming : List HardFork)
    → All (λ f. f.time ≤ timestamp) (drop 1 (past ++ (last ∷ [])))
    → All (λ f. timestamp < f.time) coming
    → p2pool_share_version (past ++ (last ∷ coming)) timestamp ≡ last.version
unfolding p2pool_share_version
p2pool_share_version-last timestamp [] last coming v c =
    version_at_time-none timestamp last.version coming c
p2pool_share_version-last timestamp (first ∷ past) last coming v c =
    let (vs, h) = All-split (λ f. f.time ≤ timestamp) past last v in
    version_at_time-split timestamp first.version past last coming vs h c

-- The versions in a table do not fall.
abbrev pub Rising : ℕ → List HardFork → Type 0
Rising v [] = Unit {0}
Rising v (f ∷ fs) = (v ≤ f.version) × Rising f.version fs

rising : ℕ → List HardFork → Bool
rising v [] = true
rising v (f ∷ fs) = leb v f.version && rising f.version fs

rising-Rising : (v : ℕ) (fs : List HardFork) → rising v fs ≡ true → Rising v fs
unfolding rising
rising-Rising v [] e = tt
rising-Rising v (f ∷ fs) e = ground (arith, rising-Rising f.version fs)

version_at_height-ge : (h v : ℕ) (fs : List HardFork) → Rising v fs → v ≤ version_at_height h v fs
unfolding version_at_height
version_at_height-ge h v [] r = omega arith
version_at_height-ge h v (f ∷ fs) (r, rs) = ground (arith, version_at_height-ge h f.version fs rs)

version_at_height_mono :
    (h k v : ℕ) (fs : List HardFork)
    → Rising v fs
    → h ≤ k
    → version_at_height h v fs ≤ version_at_height k v fs
unfolding version_at_height
version_at_height_mono h k v [] r le = omega arith
version_at_height_mono h k v (f ∷ fs) (r, rs) le =
    ground
      (arith, version_at_height_mono h k f.version fs rs le, version_at_height-ge k f.version fs rs)

major_version_mono :
    (h k : ℕ) (forks : List HardFork)
    → rising 0 forks ≡ true
    → h ≤ k
    → major_version forks h ≤ major_version forks k
unfolding major_version
major_version_mono h k [] r le = omega arith
major_version_mono h k (f ∷ fs) r le =
    version_at_height_mono h k f.version fs (rising-Rising 0 (f ∷ fs) r).1 le

-- On each of the three networks the major version of a block is defined, and does not fall as the
-- height grows.
pub network_major_version_mono :
    (network : NetworkType) (h k : ℕ)
    → (network ≡ mainnet) ⊎ ((network ≡ testnet) ⊎ (network ≡ stagenet))
    → h ≤ k
    → (v : ℕ) × (w : ℕ) × (network_major_version network h ≡ some v)
      × (network_major_version network k ≡ some w)
      × (v ≤ w)
unfolding network_major_version network_hard_fork rising
network_major_version_mono network h k (inl e) le =
    rw e (_, _, refl, refl, major_version_mono h k main_net_hard_forks refl le)
network_major_version_mono network h k (inr (inl e)) le =
    rw e (_, _, refl, refl, major_version_mono h k test_net_hard_forks refl le)
network_major_version_mono network h k (inr (inr e)) le =
    rw e (_, _, refl, refl, major_version_mono h k stage_net_hard_forks refl le)
