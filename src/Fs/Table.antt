-- ===== src/Fs/Table.antt =====
-- The two tables of file systems of src/fs.c, in the order of the source. `uuidset` is NULL in every
-- entry, and `mkfs` names the function.
use growlight.Prelude.{ℕ, Option, none, some, List, [], ◌∷◌, String, ◌++◌}
use growlight.Text.{Text, codes}

pub data Mkfs : Type 0 where
  create_btrfs hfs_mkfs hfsplus_mkfs jfs_mkfs xfs_mkfs create_ntfs f2fs_mkfs cramfs_mkfs vfat_mkfs
        ufs_mkfs ext4_mkfs ext3_mkfs ext2_mkfs mkswap make_zfs :
      Mkfs

-- `struct fs`
pub record FsType : Type 0 where
  pub name : Text
  pub desc : Text
  pub mkfs : Option Mkfs
  pub namemax : ℕ
  pub nameparam : ℕ

abbrev fs : String → String → Option Mkfs → ℕ → ℕ → FsType
fs n d m max param = record {
  name = codes n;
  desc = codes d;
  mkfs = m;
  namemax = max;
  nameparam = param;
}

abbrev pub fss_first : List FsType
fss_first =
    fs "vfat" "File Allocation Table (DOS default)" (some Mkfs.vfat_mkfs) 11 110
    ∷ fs "swsuspend" "Software suspend block device" none 0 0
    ∷ fs "swap" "Swap device" (some Mkfs.mkswap) 0 76
    ∷ fs "xfs" "SGI's XFS (IRIX default)" (some Mkfs.xfs_mkfs) 12 76
    ∷ fs "ext4dev" "Obsolete, development-series ext4" none 0 0
    ∷ fs "ext4" "Extended Filesystem v4 (Linux default)" (some Mkfs.ext4_mkfs) 16 76
    ∷ fs "ext3" "Extended Filesystem v3" (some Mkfs.ext3_mkfs) 16 76
    ∷ fs "ext2" "Extended Filesystem v2" (some Mkfs.ext2_mkfs) 16 76
    ∷ fs "jbd" "Journaling Block Device" none 0 0
    ∷ fs "reiserfs" "ReiserFS v3" none 0 0
    ∷ fs "reiser4" "ReiserFS v4" none 0 0
    ∷ fs "jfs" "IBM's Journaled Filesystem (AIX JFS2)" (some Mkfs.jfs_mkfs) 0 76
    ∷ fs "udf" "Universal Disk Format (ISO/IEC 13346)" none 0 0
    ∷ fs "iso9660" "Compact Disc Filesystem (ISO 9660:1999)" none 0 0
    ∷ fs "ozfs" "Oracle's ZFS (Solaris 11 default)" none 0 0
    ∷ fs "zol" "LLNL's ZoL (ZFS on Linux)" (some Mkfs.make_zfs) 0 32
    ∷ fs "zfs_member" "ZFS zpool member" none 0 0
    ∷ fs "hfsplus" "HFS+ (Mac OS Extended) (OS X default)" (some Mkfs.hfsplus_mkfs) 0 118
    ∷ fs "hfs" "Hierarchal Filesystem (Mac OS Standard)" (some Mkfs.hfs_mkfs) 0 118
    ∷ fs "ufs" "UNIX Filesystem 2 (BFFS) (BSD default)" (some Mkfs.ufs_mkfs) 0 76
    ∷ fs "hpfs" "OS/2's High Performance Filesystem" none 0 0
    ∷ []

abbrev pub fss_rest : List FsType
fss_rest =
    fs "sysv" "System V Filesystem (S5FS) (XENIX default)" none 0 0
    ∷ fs "ntfs" "Microsoft's New Technology Filesystem (Windows default)" (some Mkfs.create_ntfs) 0
        76
    ∷ fs "cramfs" "Compressed Read-Only Filesystem" (some Mkfs.cramfs_mkfs) 0 110
    ∷ fs "f2fs" "Samsung's Flash-Friendly Filesystem (for NAND flash)" (some Mkfs.f2fs_mkfs) 0 108
    ∷ fs "romfs" "Read-Only Filesystem" none 0 0
    ∷ fs "minix" "MINIX Filesystem (MINIX default)" none 0 0
    ∷ fs "gfs" "Red Hat's Global Filesystem v1" none 0 0
    ∷ fs "gfs2" "Red Hat's Global Filesystem v2" none 0 0
    ∷ fs "ocfs" "Oracle Cluster Filesystem v1" none 0 0
    ∷ fs "ocfs2" "Oracle Cluster Filesystem v2" none 0 0
    ∷ fs "oracleasm" "Oracle Automatic Storage Management" none 0 0
    ∷ fs "vxfs" "VERITAS Filesystem (HP-UX JFS) (HP-UX default)" none 0 0
    ∷ fs "squashfs" "Squashed Read-Only Filesystem" none 0 0
    ∷ fs "nss" "Novell Storage Services" none 0 0
    ∷ fs "btrfs" "Oracle's B-Tree Filesystem" (some Mkfs.create_btrfs) 0 76
    ∷ fs "ubifs" "Unsorted Block Image Filesystem" none 0 0
    ∷ fs "bfs" "UNIXWare Boot Filesystem (SCO boot default)" none 0 0
    ∷ fs "VMFS" "VMware's Virtual Machine Filesystem" none 0 0
    ∷ fs "befs" "Be Filesystem (BeOS default)" none 0 0
    ∷ fs "nilfs2" "NTT's New Implementation of Log-structued FS v2" none 80 76
    ∷ fs "exfat" "Microsoft's Extended File Allocation Table" none 0 0
    ∷ []

abbrev pub fss : List FsType
fss = fss_first ++ fss_rest

abbrev pub virtfss : List FsType
virtfss =
    fs "devpts" "Pseudoterminal devices" none 0 0
    ∷ fs "devtmpfs" "Early static /dev filesystem" none 0 0
    ∷ fs "nfs" "Network File System" none 0 0
    ∷ fs "nfs4" "Network File System v4" none 0 0
    ∷ fs "rootfs" "Early trivial filesystem mounted at /" none 0 0
    ∷ fs "proc" "Process information" none 0 0
    ∷ fs "sysfs" "Linux device/driver relationships" none 0 0
    ∷ fs "debugfs" "Linux free-form output filesystem" none 0 0
    ∷ fs "tmpfs" "RAM-backed filesystem" none 0 0
    ∷ fs "binfmt_misc" "Executable filetype management" none 0 0
    ∷ fs "nfsd" "Network filesystem daemon management" none 0 0
    ∷ fs "rpc_pipefs" "Remote Procedure Call pipe filesystem" none 0 0
    ∷ fs "fusectl" "Filesystem in UserSpacE management" none 0 0
    ∷ fs "fuse.fuseiso" "FUSE ISO9660 support" none 0 0
    ∷ fs "fuse.fuseiso9660" "FUSE ISO9660 support" none 0 0
    ∷ []
