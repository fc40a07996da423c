-- ===== src/Fat32/Tests.antt =====
-- Runs of the FAT32 reader on a small drive, and instances of its theorems.
use sar_osx.Base.{
  ℕ, zero, suc, ◌+◌, ◌-◌, ◌<◌, min, ◌≡◌, refl, some, List, [], ◌∷◌, ◌++◌, arith, length, replicate,
}
use sar_osx.Base.Bytes.{byte_at}
use sar_osx.Base.Result.{ok}
use sar_osx.Fs.Vfs.{Name}
use sar_osx.Fat32.{Disk, Fat32Ctx, next_cluster, chain_from, follow, cluster_chain}
use sar_osx.Fat32.Inode.{fat_file, fat_read}
use sar_osx.Fat32.Chain.{IsChain, cluster_chain-IsChain}
use sar_osx.Fat32.Content.{Holds, end, cluster, fat_read_lem}

-- The table at sector 1: cluster 2 is followed by 3, and 3 is the last.
abbrev table : List ℕ
table = replicate 8 0 ++ (3 ∷ 0 ∷ 0 ∷ 0 ∷ 0xFF ∷ 0xFF ∷ 0xFF ∷ 0x0F ∷ replicate 496 0)

abbrev sector : ℕ → List ℕ
sector zero = replicate 512 0
sector (suc zero) = table
sector (suc (suc lba)) = replicate 512 (lba + 7)

abbrev disk : Disk
disk lba count = some (sector lba)

abbrev ctx : Fat32Ctx
ctx = record { part_lba = 0; spc = 1; fat_start = 1; data_start = 2; root_cluster = 2 }

cluster_chain-run : cluster_chain disk ctx 2 ≡ ok (2 ∷ 3 ∷ [])
unfolding chain_from follow next_cluster
cluster_chain-run = refl

cluster_chain-IsChain_example : IsChain disk ctx (some 2) 1_000_001 (2 ∷ 3 ∷ [])
cluster_chain-IsChain_example = cluster_chain-IsChain disk ctx 2 (2 ∷ 3 ∷ []) cluster_chain-run

abbrev content : List ℕ
content = sector 2 ++ (sector 3 ++ [])

holds : Holds disk ctx (2 ∷ 3 ∷ []) content
holds = cluster refl refl (cluster refl refl end)

-- A read of four bytes across the border of the clusters.
fat_read_lem_example :
    (r : ℕ × List ℕ) × (fat_read disk ctx (fat_file 2 600 9) 510 (0 ∷ 0 ∷ 0 ∷ 0 ∷ []) ≡ ok r)
    × (r.0 ≡ min 4 (600 - 510))
    × (length r.1 ≡ 4)
    × ((k : ℕ) → k < r.0 → byte_at r.1 k ≡ byte_at content (510 + k))
fat_read_lem_example =
    fat_read_lem disk ctx 2 600 9 510 (0 ∷ 0 ∷ 0 ∷ 0 ∷ []) cluster_chain-run holds (omega arith)

-- README.MD
abbrev base : Name
base = 69 ∷ 65 ∷ 68 ∷ 77 ∷ 69 ∷ []

abbrev ext : Name
ext = 77 ∷ 68 ∷ []
