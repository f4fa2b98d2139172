-- ===== src/Fs/Commands.antt =====
-- The functions of src/fs.c that make a file system, each by a command.
use growlight.Prelude.{
  ℕ, Bool, true, false, not, ◌&&◌, Option, none, some, List, [], ◌∷◌, ◌++◌, String, ◌==◌,
  if◌then◌else◌,
}
use growlight.Text.{Text, codes}
use growlight.Text.Numbers.{print_nat}
use growlight.Popen.{Shell, vspopen_drain}
use growlight.Fs.Table.{Mkfs}

-- `struct mkfsmarshal`
pub record Marshal : Type 0 where
  pub name : Option Text
  pub force : Bool
  pub stride : ℕ
  pub swidth : ℕ

abbrev pub name_or : String → Marshal → Text
name_or n m = elim m.name [ none ↦ codes n | some s ↦ s ]

abbrev pub force_or : String → Marshal → Text
force_or s m = if m.force then codes s else []

-- "... \"%s\" %s"
abbrev quoted : Text → (dev : Text) → Text
quoted name dev = 34 ∷ (name ++ (34 ∷ 32 ∷ dev))

-- The command of the branch with a stride, where there is one.
unfoldable pub ext_stride : (program dev : Text) → Marshal → (name : Text) → Text
ext_stride program dev m name =
    program
    ++ (codes " -Estride="
        ++ (print_nat m.stride
            ++ (codes ",stripe_width="
                ++ (print_nat m.swidth
                    ++ 32
                      ∷ (force_or "-F " m
                          ++ (codes "-b -2048 -L \""
                              ++ (name ++ (codes "\" -O dir_index,extent " ++ dev))))))))

unfoldable pub ext_plain : (program dev : Text) → Marshal → (name : Text) → Text
ext_plain program dev m name =
    program
    ++ 32
      ∷ (force_or "-F " m
          ++ (codes "-b -2048 -L \"" ++ (name ++ (codes "\" -O dir_index,extent " ++ dev))))

-- ext4_mkfs, ext3_mkfs and ext2_mkfs: what the command with a stride answers is dropped.
unfoldable pub ext_mkfs : Shell → (program dev : Text) → Marshal → (name : Text) → Bool × List Text
unfolding ext_stride ext_plain
ext_mkfs sh program dev m name =
    if not (m.stride == 0) && not (m.swidth == 0)
    then (false, (vspopen_drain sh (ext_stride program dev m name)).1)
    else vspopen_drain sh (ext_plain program dev m name)

unfoldable pub mkswap : Shell → (swapon : Text → Bool) → (dev : Text) → Marshal → Bool × List Text
mkswap sh swapon dev m =
    let (failed, ran) =
      vspopen_drain sh (codes "mkswap -L " ++ (name_or "SprezzaSwap" m ++ 32 ∷ dev)) in
    (if failed then true else swapon dev, ran)

-- The function of an entry; true is the error value. printf prints a null pointer as "(null)".
unfoldable pub run_mkfs :
    Shell → (swapon : Text → Bool) → Mkfs → (dev : Text) → Marshal → Bool × List Text
unfolding ext_mkfs mkswap
run_mkfs sh swapon Mkfs.create_btrfs dev m =
    vspopen_drain sh (codes "mkfs.btrfs -L " ++ quoted (name_or "SprezzaBTRFS" m) dev)
run_mkfs sh swapon Mkfs.hfs_mkfs dev m =
    vspopen_drain sh (codes "mkfs.hfs -h -v " ++ quoted (name_or "SprezzaHFS" m) dev)
run_mkfs sh swapon Mkfs.hfsplus_mkfs dev m =
    vspopen_drain sh (codes "mkfs.hfsplus -s -J -v " ++ quoted (name_or "SprezzaHFS+" m) dev)
run_mkfs sh swapon Mkfs.jfs_mkfs dev m =
    vspopen_drain sh (codes "mkfs.jfs -q -L " ++ quoted (name_or "SprezzaJFS" m) dev)
run_mkfs sh swapon Mkfs.xfs_mkfs dev m = vspopen_drain sh (
    codes "mkfs.xfs " ++ (force_or "-f " m ++ (codes "-L " ++ quoted (name_or "SprezzaXFS" m) dev)))
run_mkfs sh swapon Mkfs.create_ntfs dev m = vspopen_drain sh (
    codes "mkfs.ntfs -v "
    ++ (force_or "-F " m ++ (codes "-U -L " ++ quoted (name_or "SprezzaNTFS" m) dev)))
run_mkfs sh swapon Mkfs.f2fs_mkfs dev m =
    vspopen_drain sh (codes "mkfs.f2fs -l " ++ quoted (name_or "SprezzaF2FS" m) dev)
run_mkfs sh swapon Mkfs.cramfs_mkfs dev m =
    vspopen_drain sh (codes "mkcramfs -v -E -n " ++ quoted (name_or "SprezzaCram" m) dev)
run_mkfs sh swapon Mkfs.vfat_mkfs dev m = vspopen_drain sh (
    codes "mkfs.vfat "
    ++ (force_or "-I " m ++ (codes "-F 32 -n " ++ quoted (name_or "SprezzaVFAT" m) dev)))
run_mkfs sh swapon Mkfs.ufs_mkfs dev m =
    vspopen_drain sh (codes "mkfs.ufs -L " ++ quoted (name_or "SprezzaUFS" m) dev)
run_mkfs sh swapon Mkfs.ext4_mkfs dev m =
    ext_mkfs sh (codes "mkfs.ext4") dev m (name_or "SprezzaEXT4" m)
run_mkfs sh swapon Mkfs.ext3_mkfs dev m =
    ext_mkfs sh (codes "mkfs.ext3") dev m (name_or "SprezzaEXT3" m)
run_mkfs sh swapon Mkfs.ext2_mkfs dev m =
    ext_mkfs sh (codes "mkfs.ext2") dev m (name_or "SprezzaEXT2" m)
run_mkfs sh swapon Mkfs.mkswap dev m = mkswap sh swapon dev m
run_mkfs sh swapon Mkfs.make_zfs dev m =
    vspopen_drain sh (codes "zpool create -f " ++ (name_or "(null)" m ++ 32 ∷ dev))
