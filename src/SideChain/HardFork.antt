-- ===== src/SideChain/HardFork.antt =====
-- p2pool/sidechain/hardfork.go: which versions are in force.
pub mod Schedule
use p2pool_observer.Prelude.{ℕ, ◌+◌, ◌*◌, Option, none, some, List, [], ◌∷◌, ltb, if◌then◌else◌}
use p2pool_observer.SideChain.SideData.{share_version_none, share_version_v1, share_version_v2}

pub data NetworkType : Type 0 where
  invalid mainnet testnet stagenet : NetworkType

pub record HardFork : Type 0 where
  pub version : ℕ
  pub height : ℕ
  pub threshold : ℕ
  pub time : ℕ

abbrev fork : ℕ → ℕ → ℕ → HardFork
fork version height time = record { version = version; height = height; threshold = 0; time = time }

abbrev pub main_net_hard_forks : List HardFork
main_net_hard_forks =
    fork 1 1 1341378000
    ∷ fork 2 1009827 1442763710
    ∷ fork 3 1141317 1458558528
    ∷ fork 4 1220516 1483574400
    ∷ fork 5 1288616 1489520158
    ∷ fork 6 1400000 1503046577
    ∷ fork 7 1546000 1521303150
    ∷ fork 8 1685555 1535889547
    ∷ fork 9 1686275 1535889548
    ∷ fork 10 1788000 1549792439
    ∷ fork 11 1788720 1550225678
    ∷ fork 12 1978433 1571419280
    ∷ fork 13 2210000 1598180817
    ∷ fork 14 2210720 1598180818
    ∷ fork 15 2688888 1656629117
    ∷ fork 16 2689608 1656629118
    ∷ []

abbrev pub test_net_hard_forks : List HardFork
test_net_hard_forks =
    fork 1 1 1341378000
    ∷ fork 2 624634 1445355000
    ∷ fork 3 800500 1472415034
    ∷ fork 4 801219 1472415035
    ∷ fork 5 802660 (1472415036 + 86400 * 180)
    ∷ fork 6 971400 1501709789
    ∷ fork 7 1057027 1512211236
    ∷ fork 8 1057058 1533211200
    ∷ fork 9 1057778 1533297600
    ∷ fork 10 1154318 1550153694
    ∷ fork 11 1155038 1550225678
    ∷ fork 12 1308737 1569582000
    ∷ fork 13 1543939 1599069376
    ∷ fork 14 1544659 1599069377
    ∷ fork 15 1982800 1652727000
    ∷ fork 16 1983520 1652813400
    ∷ []

abbrev pub stage_net_hard_forks : List HardFork
stage_net_hard_forks =
    fork 1 1 1341378000
    ∷ fork 2 32000 1521000000
    ∷ fork 3 33000 1521120000
    ∷ fork 4 34000 1521240000
    ∷ fork 5 35000 1521360000
    ∷ fork 6 36000 1521480000
    ∷ fork 7 37000 1521600000
    ∷ fork 8 176456 1537821770
    ∷ fork 9 177176 1537821771
    ∷ fork 10 269000 1550153694
    ∷ fork 11 269720 1550225678
    ∷ fork 12 454721 1571419280
    ∷ fork 13 675405 1598180817
    ∷ fork 14 676125 1598180818
    ∷ fork 15 1151000 1656629117
    ∷ fork 16 1151720 1656629118
    ∷ []

abbrev pub p2pool_main_net_hard_forks : List HardFork
p2pool_main_net_hard_forks = fork share_version_v1 0 0 ∷ fork share_version_v2 0 1679173200 ∷ []

abbrev pub p2pool_test_net_hard_forks : List HardFork
p2pool_test_net_hard_forks = fork share_version_v1 0 0 ∷ fork share_version_v2 0 1674507600 ∷ []

-- The version of the last fork of the main net table.
abbrev pub p2pool_stage_net_hard_forks : List HardFork
p2pool_stage_net_hard_forks = fork share_version_v2 0 0 ∷ []

-- NetworkHardFork; `none` is its panic.
unfoldable pub network_hard_fork : NetworkType → Option (List HardFork)
network_hard_fork invalid = none
network_hard_fork mainnet = some main_net_hard_forks
network_hard_fork testnet = some test_net_hard_forks
network_hard_fork stagenet = some stage_net_hard_forks

-- The loops over the forks after the first, with the version so far: they break at the first fork
-- that has not come yet.
unfoldable pub version_at_height : ℕ → ℕ → List HardFork → ℕ
version_at_height height result [] = result
version_at_height height result (f ∷ fs) =
    let rest = version_at_height height f.version fs in if ltb height f.height then result else rest

unfoldable pub version_at_time : ℕ → ℕ → List HardFork → ℕ
version_at_time timestamp result [] = result
version_at_time timestamp result (f ∷ fs) =
    let rest = version_at_time timestamp f.version fs in
    if ltb timestamp f.time then result else rest

unfoldable pub major_version : List HardFork → ℕ → ℕ
major_version [] height = 0
major_version (f ∷ fs) height = version_at_height height f.version fs

-- NetworkMajorVersion
unfoldable pub network_major_version : NetworkType → ℕ → Option ℕ
network_major_version network height = elim (network_hard_fork network) [
  | none ↦ none
  | some forks ↦ some (major_version forks height)
]

-- P2PoolShareVersion, on the forks of the consensus.
unfoldable pub p2pool_share_version : List HardFork → ℕ → ℕ
p2pool_share_version [] timestamp = share_version_none
p2pool_share_version (f ∷ fs) timestamp = version_at_time timestamp f.version fs
