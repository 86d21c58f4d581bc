-- ===== src/Examples/Versions.antt =====
-- Forks, protocol versions, seed heights, uncles and the circular buffer.
use p2pool_observer.Prelude.{
  ℕ, ◌+◌, ◌*◌, ◌/◌, ◌^◌, ◌≤◌, ◌≡◌, inl, refl, arith, some, [], ◌∷◌, ◌++◌, length,
}
use p2pool_observer.Codec.{ok}
use p2pool_observer.Types.Uint128.{Difficulty, exact, value}
use p2pool_observer.Types.Protocol.{PeerVersionInformation}
use p2pool_observer.Utils.CircularBuffer.{CircularBuffer, push, current, get, next_index}
use p2pool_observer.Utils.CircularBuffer.Recent.{get-push}
use p2pool_observer.SideChain.HardFork.{
  HardFork, mainnet, network_major_version, p2pool_share_version, version_at_time,
}
use p2pool_observer.SideChain.HardFork.Schedule.{
  p2pool_share_version-last, network_major_version_mono,
}
use p2pool_observer.SideChain.Penalty.{apply_uncle_penalty, apply_uncle_penalty-parts}

abbrev version_one : HardFork
version_one = record { version = 1; height = 0; threshold = 0; time = 0 }

abbrev version_two : HardFork
version_two = record { version = 2; height = 0; threshold = 0; time = 1679173200 }

abbrev version_three : HardFork
version_three = record { version = 3; height = 0; threshold = 0; time = 1800000000 }

p2pool_share_version-last_example :
    p2pool_share_version ((version_one ∷ []) ++ (version_two ∷ (version_three ∷ []))) 1700000000 ≡ 2
p2pool_share_version-last_example =
    p2pool_share_version-last 1700000000 (version_one ∷ []) version_two (version_three ∷ [])
      (omega arith, tt) (omega arith, tt)

-- Before the second fork of the main net's table, the version is that of the first.
before_the_second : p2pool_share_version (version_one ∷ (version_two ∷ [])) 1600000000 ≡ 1
unfolding p2pool_share_version version_at_time
before_the_second = refl

network_major_version_mono_example :
    (v : ℕ) × (w : ℕ) × (network_major_version mainnet 1000000 ≡ some v)
    × (network_major_version mainnet 2689608 ≡ some w)
    × (v ≤ w)
network_major_version_mono_example =
    network_major_version_mono mainnet 1000000 2689608 (inl refl) (omega arith)

abbrev older_peer : PeerVersionInformation
older_peer = record { protocol = 1 * 2 ^ 16 + 1; software_version = 0; software_id = 0 }

abbrev newer_peer : PeerVersionInformation
newer_peer = record { protocol = 1 * 2 ^ 16 + 2; software_version = 0; software_id = 0 }

abbrev three_slots : CircularBuffer ℕ
three_slots = record { buffer = 4 ∷ 5 ∷ 6 ∷ []; index = 1 }

get-push_example :
    (b : CircularBuffer ℕ) × (push three_slots 9 ≡ ok b)
    × (current b ≡ ok 9)
    × (length b.buffer ≡ 3)
    × (get b 1 ≡ get three_slots 1)
unfolding next_index
get-push_example = get-push three_slots 9 1 (omega arith) (λ e. omega arith)

abbrev uncle_share_weight : Difficulty
uncle_share_weight = record { lo = 100007; hi = 0 }

apply_uncle_penalty-parts_example :
    (value (apply_uncle_penalty exact 20 uncle_share_weight).1
      ≡ value uncle_share_weight * 20 / 100)
    × (value (apply_uncle_penalty exact 20 uncle_share_weight).0
          + value (apply_uncle_penalty exact 20 uncle_share_weight).1
        ≡ value uncle_share_weight)
apply_uncle_penalty-parts_example =
    apply_uncle_penalty-parts exact 20 uncle_share_weight (omega arith) (omega arith)
      (unfold value in omega arith)
