-- ===== src/Backup/Tree/Ancestry.antt =====
-- Ancestors, and what `is_checksum_consistent` says of them.
use barman.Prelude.{
  ℕ, zero, suc, ◌≡◌, ◌↔◌, true, false, Option, none, some, arith, Bool-cases, inl, inr,
}
use barman.Text.{text}
use barman.Backup.{BackupInfo, is_incremental, field_is}
use barman.Backup.Tree.{
  Disk, get_parent_backup_info, walk_parents, walk_to_root, none_off, is_checksum_consistent,
}

-- The chain of parents from a backup ends within `n` steps.
abbrev pub EndsWithin : ℕ → Disk → Option BackupInfo → Type 0
EndsWithin zero disk o = ⊥
EndsWithin (suc n) disk none = Unit
EndsWithin (suc n) disk (some b) = EndsWithin n disk (get_parent_backup_info disk b)

-- `a` is a parent of the chain that begins with `o`.
pub data IsAncestor (disk : Disk) (a : BackupInfo) : Option BackupInfo → Type 0 where
  first : IsAncestor disk a (some a)
  further :
      {b : BackupInfo}
      → IsAncestor disk a (get_parent_backup_info disk b)
      → IsAncestor disk a (some b)

abbrev pub HasChecksumsOff : BackupInfo → Type 0
HasChecksumsOff b = field_is b.data_checksums (text "off") ≡ true

off_found :
    (n : ℕ) (disk : Disk) (o : Option BackupInfo)
    → none_off (walk_parents n disk o) ≡ false
    → (a : BackupInfo) × IsAncestor disk a o × HasChecksumsOff a
unfolding none_off walk_parents
off_found zero disk o h = cc h
off_found (suc n) disk none h = cc h
off_found (suc n) disk (some b) h = elim (Bool-cases (field_is b.data_checksums (text "off"))) [
  | inl off ↦ (b, first, off)
  | inr on ↦
      let (a, chain, off) = off_found n disk (get_parent_backup_info disk b) (rw on at h) in
      (a, further chain, off)
]

off_detected :
    (n : ℕ) (disk : Disk) {o : Option BackupInfo} {a : BackupInfo}
    → EndsWithin n disk o
    → IsAncestor disk a o
    → HasChecksumsOff a
    → none_off (walk_parents n disk o) ≡ false
unfolding none_off walk_parents
off_detected zero disk e chain off = absurd e
off_detected (suc n) disk e first off = rw off
off_detected (suc n) disk e (further {b} chain) off =
    let rest = off_detected n disk e chain off in ground (arith, rest)

-- With fuel for the whole chain of parents, a backup is found inconsistent exactly if it is an
-- incremental one with checksums on and one of its ancestors has them off.
pub inconsistent_iff :
    (n : ℕ) (disk : Disk) (b : BackupInfo)
    → EndsWithin n disk (get_parent_backup_info disk b)
    → (is_checksum_consistent n disk b ≡ false) ↔ (
        (field_is b.data_checksums (text "on") ≡ true)
        × (is_incremental b ≡ true)
        × ((a : BackupInfo) × IsAncestor disk a (get_parent_backup_info disk b)
            × HasChecksumsOff a))
unfolding is_checksum_consistent walk_to_root
inconsistent_iff n disk b e = (
  λ h.
      let guards : (field_is b.data_checksums (text "on") ≡ true)
          × (is_incremental b ≡ true)
          × (none_off (walk_parents n disk (get_parent_backup_info disk b)) ≡ false) =
        ground arith in
      (guards.0, guards.1, off_found n disk (get_parent_backup_info disk b) guards.2),
  λ (on, incremental, (a, chain, off)). rw (on, incremental) (off_detected n disk e chain off),
)
