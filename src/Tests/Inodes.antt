-- ===== src/Tests/Inodes.antt =====
-- The inode table: the theorems at inputs that meet their hypotheses.
use ctxfs.Common.{◌+◌, ◌<◌, ◌≡◌, refl, false, [], text, arith}
use ctxfs.Common.Keys.{id_key}
use ctxfs.Common.Word.{u64_mod}
use ctxfs.Core.Digest.{Digest, sha1}
use ctxfs.Manifest.Inodes.{
  InodeTable, InodeKind, directory, new_table, insert_root, allocate_inode, mark_inode_populated,
  child_inos,
}
use ctxfs.Manifest.Inodes.Order.{IsTable}
use ctxfs.Manifest.Inodes.Allocate.{Allocated, allocate_inode-Allocated}
use ctxfs.Manifest.Inodes.Built.{root, child, mark, Built-IsTable}

abbrev digest : Digest
digest = record { algorithm = sha1; hex = text "aa1" }

abbrev table : InodeTable
table = insert_root digest new_table

abbrev folder : InodeKind
folder = directory digest [] false

folder_childless : child_inos folder ≡ []
unfolding child_inos
folder_childless = refl

table-IsTable : IsTable table
table-IsTable = Built-IsTable table (root digest)

known : 1 < table.next_ino
unfolding insert_root
known = omega arith

room : table.next_ino + 1 < u64_mod
unfolding insert_root
room = omega arith

allocate_inode-Allocated_example :
    Allocated 1
      (text "a")
      folder
      table
      table-IsTable
      folder_childless
      known
      room
      (allocate_inode 1 (text "a") folder table).0
      (allocate_inode 1 (text "a") folder table).1
allocate_inode-Allocated_example =
    allocate_inode-Allocated 1 (text "a") folder table table-IsTable folder_childless known room

Built-IsTable_example :
    IsTable (mark_inode_populated 1 (allocate_inode 1 (text "a") folder table).1)
Built-IsTable_example =
    Built-IsTable (mark_inode_populated 1 (allocate_inode 1 (text "a") folder table).1) (
      mark 1 (allocate_inode 1 (text "a") folder table).1
        (child 1 (text "a") folder table folder_childless known room (root digest)))
