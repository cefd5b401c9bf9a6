-- ===== src/Tests/Directory.antt =====
-- A directory with the one entry "a", number 5.
use r_core_tutorial_code.Base.{
  ℕ, ◌/◌, ◌<◌, ◌≡◌, ◌⊎◌, refl, true, false, none, some, [], ◌∷◌, ok, ◌==◌, if◌then◌else◌,
}
use r_core_tutorial_code.EasyFs.Block.{Disk, get_word}
use r_core_tutorial_code.EasyFs.Layout.Inode as OnDisk
use r_core_tutorial_code.EasyFs.Layout.Inode.{DiskInode, DiskInodeType, is_dir, type_of_byte}
use r_core_tutorial_code.EasyFs.Layout.Index.{get_block_id}
use r_core_tutorial_code.EasyFs.Layout.Data
use r_core_tutorial_code.EasyFs.Layout.DirEntry
use r_core_tutorial_code.EasyFs.Layout.DirEntry.{
  DirEntry, as_bytes, of_bytes, find_nul, from_utf8, name_of,
}
use r_core_tutorial_code.EasyFs.Layout.DirEntry.Utf8.{is_utf8}
use r_core_tutorial_code.EasyFs.Efs.{EasyFileSystem, get_disk_inode_pos}
use r_core_tutorial_code.EasyFs.Vfs.{
  Inode, new, read_entry, find, create, ls, ls_loop, read_disk_inode, same_name,
}
use r_core_tutorial_code.EasyFs.Vfs.Directory.{listed, stored, find-ls, create_existing}

-- The directory lies at the start of block 5 and its entry in block 9.
abbrev disk : Disk
disk a o =
    if a == 5
    then (if o == 0 then 32 else if o == 4 then 9 else if o == 124 then 1 else 0)
    else (if o == 0 then 97 else if o == 28 then 5 else 0)

abbrev place : Inode
place = record { block_id = 5; block_offset = 0 }

abbrev fs : EasyFileSystem
fs = record {
  inode_bitmap = record { start_block_id = 1; blocks = 1 };
  data_bitmap = record { start_block_id = 1026; blocks = 1 };
  inode_area_start_block = 2;
  data_area_start_block = 1027;
}

is_directory : is_dir (stored place disk) ≡ true
unfolding is_dir OnDisk.decode type_of_byte get_word
is_directory = refl

listing : ls place disk ≡ ok ((97 ∷ []) ∷ [], disk)
unfolding ls read_disk_inode ls_loop read_entry Data.read_at Data.read_loop Data.end_of
    Data.end_current_block Data.copy get_block_id OnDisk.decode type_of_byte get_word as_bytes
    of_bytes DirEntry.empty find_nul from_utf8 name_of is_utf8
listing = refl

find-ls_example :
    ((listed (97 ∷ []) ((97 ∷ []) ∷ []) ≡ false) × (find fs place (97 ∷ []) disk ≡ ok (none, disk)))
    ⊎ ((listed (97 ∷ []) ((97 ∷ []) ∷ []) ≡ true)
        × ((k : ℕ) × (dirent : DirEntry) × (find fs place (97 ∷ []) disk
              ≡ ok (some (new (get_disk_inode_pos fs dirent.inode_number)), disk))
            × (k < (stored place disk).size / 32)
            × (read_entry (stored place disk) k disk ≡ ok (dirent, disk))
            × (name_of dirent ≡ ok (97 ∷ []))))
find-ls_example = find-ls fs place (97 ∷ []) disk disk ((97 ∷ []) ∷ []) is_directory listing

create_existing_example : create fs place (97 ∷ []) disk ≡ ok (none, disk)
unfolding listed same_name
create_existing_example =
    create_existing fs place (97 ∷ []) disk disk ((97 ∷ []) ∷ []) is_directory listing refl
