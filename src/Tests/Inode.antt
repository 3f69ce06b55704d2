-- ===== src/Tests/Inode.antt =====
-- Inodes on a device of one block.
use ufson_mac_os.Base.{ℕ, ◌+◌, Option, some, List, [], ◌∷◌, refl, arith}
use ufson_mac_os.Libufs.Inode.{Dinode, Inodes, putinode}
use ufson_mac_os.Libufs.Inode.Hash.{Puts, putinode-Puts}
use ufson_mac_os.Tests.Libufs as Libufs

abbrev crc : Dinode → ℕ
crc dip = dip.mode + 1000

abbrev block : List Dinode
block =
    record { mode = 0; ckhash = 0; body = [] }
    ∷ record { mode = 420; ckhash = 9; body = 5 ∷ [] }
    ∷ []

abbrev inodes : Inodes
inodes = record {
  disk = record (Libufs.disk) { fs = record (Libufs.disk.fs) { metackhash = 7; inopb = 2 } };
  inoblock = some block;
  inomin = 2;
  inomax = 4;
  dp = 1;
  ufs = 2;
}

abbrev pread : ℕ → ℕ → Option (ℕ × List Dinode)
pread size offset = some (size, block)

abbrev pwrite : ℕ → List Dinode → ℕ → Option ℕ
pwrite offset data_ size = some size

putinode-Puts_example : Puts crc (some 4) pwrite inodes block (putinode crc (some 4) pwrite inodes)
putinode-Puts_example =
    putinode-Puts crc (some 4) pwrite inodes block refl refl (omega arith) (omega arith)
