-- ===== src/Ptypes/Table.antt =====
-- The table of src/ptypes.c, in its order, without the entry whose NULL name ends it.
use growlight.Prelude.{ℕ, Bool, true, false, List, [], ◌∷◌, ◌++◌, String}

-- `struct ptype`. `gpt_guid` has sixteen bytes.
pub record Ptype : Type 0 where
  pub code : ℕ
  pub name : String
  pub gpt_guid : List ℕ
  pub mbr_code : ℕ
  pub aggregable : Bool

abbrev ptype : ℕ → String → List ℕ → ℕ → Bool → Ptype
ptype c n g m a = record { code = c; name = n; gpt_guid = g; mbr_code = m; aggregable = a }

abbrev pub no_guid : List ℕ
no_guid = 0 ∷ 0 ∷ 0 ∷ 0 ∷ 0 ∷ 0 ∷ 0 ∷ 0 ∷ 0 ∷ 0 ∷ 0 ∷ 0 ∷ 0 ∷ 0 ∷ 0 ∷ 0 ∷ []

-- Microsoft, IBM, ChromeOS, Linux and Intel.
abbrev pub table_vendors : List Ptype
table_vendors =
    ptype 0x0700 "Microsoft basic data"
      (0xa2 ∷ 0xa0 ∷ 0xd0 ∷ 0xeb ∷ 0xe5 ∷ 0xb9 ∷ 0x33 ∷ 0x44 ∷ 0x87 ∷ 0xc0 ∷ 0x68 ∷ 0xb6 ∷ 0xb7
        ∷ 0x26 ∷ 0x99 ∷ 0xc7 ∷ [])
      0x00 false
    ∷ ptype 0x0c01 "Microsoft reserved"
        (0x16 ∷ 0xe3 ∷ 0xc9 ∷ 0xe3 ∷ 0x5c ∷ 0x0b ∷ 0xb8 ∷ 0x4d ∷ 0x81 ∷ 0x7d ∷ 0xf9 ∷ 0x2d ∷ 0xf0
          ∷ 0x02 ∷ 0x15 ∷ 0xae ∷ [])
        0x00 false
    ∷ ptype 0x2700 "Windows Recovery Environment"
        (0xa4 ∷ 0xbb ∷ 0x94 ∷ 0xde ∷ 0xd1 ∷ 0x06 ∷ 0x40 ∷ 0x4d ∷ 0xa1 ∷ 0x6a ∷ 0xbf ∷ 0xd5 ∷ 0x01
          ∷ 0x79 ∷ 0xd6 ∷ 0xac ∷ [])
        0x00 false
    ∷ ptype 0x4200 "Windows Logical Disk Manager data"
        (0xa0 ∷ 0x60 ∷ 0x9b ∷ 0xaf ∷ 0x31 ∷ 0x14 ∷ 0x62 ∷ 0x4f ∷ 0xbc ∷ 0x68 ∷ 0x33 ∷ 0x11 ∷ 0x71
          ∷ 0x4a ∷ 0x69 ∷ 0xad ∷ [])
        0x00 false
    ∷ ptype 0x4201 "Windows Logical Disk Manager metadata"
        (0xaa ∷ 0xc8 ∷ 0x08 ∷ 0x58 ∷ 0x8f ∷ 0x7e ∷ 0xe0 ∷ 0x42 ∷ 0x85 ∷ 0xd2 ∷ 0xe1 ∷ 0xe9 ∷ 0x04
          ∷ 0x34 ∷ 0xcf ∷ 0xb3 ∷ [])
        0x00 false
    ∷ ptype 0x7501 "IBM General Parallel File System"
        (0x90 ∷ 0xfc ∷ 0xaf ∷ 0x37 ∷ 0x7d ∷ 0xef ∷ 0x96 ∷ 0x4e ∷ 0x91 ∷ 0xc3 ∷ 0x2d ∷ 0x7a ∷ 0xe0
          ∷ 0x55 ∷ 0xb1 ∷ 0x74 ∷ [])
        0x00 false
    ∷ ptype 0x7f00 "ChromeOS kernel"
        (0x5d ∷ 0x2a ∷ 0x3a ∷ 0xfe ∷ 0x32 ∷ 0x4f ∷ 0xa7 ∷ 0x41 ∷ 0xb7 ∷ 0x25 ∷ 0xac ∷ 0xcc ∷ 0x32
          ∷ 0x85 ∷ 0xa3 ∷ 0x09 ∷ [])
        0x00 false
    ∷ ptype 0x7f01 "ChromeOS root"
        (0x02 ∷ 0xe2 ∷ 0xb8 ∷ 0x3c ∷ 0x7e ∷ 0x3b ∷ 0xdd ∷ 0x47 ∷ 0x8a ∷ 0x3c ∷ 0x7f ∷ 0xf2 ∷ 0xa1
          ∷ 0x3c ∷ 0xfc ∷ 0xec ∷ [])
        0x00 false
    ∷ ptype 0x7f02 "ChromeOS reserved"
        (0x3d ∷ 0x75 ∷ 0x0a ∷ 0x2e ∷ 0x48 ∷ 0x9e ∷ 0xb0 ∷ 0x43 ∷ 0x83 ∷ 0x37 ∷ 0xb1 ∷ 0x51 ∷ 0x92
          ∷ 0xcb ∷ 0x1b ∷ 0x5e ∷ [])
        0x00 false
    ∷ ptype 0x8200 "Linux swap"
        (0x6d ∷ 0xfd ∷ 0x57 ∷ 0x06 ∷ 0xab ∷ 0xa4 ∷ 0xc4 ∷ 0x43 ∷ 0x84 ∷ 0xe5 ∷ 0x09 ∷ 0x33 ∷ 0xc8
          ∷ 0x4b ∷ 0x4f ∷ 0x4f ∷ [])
        0x82 false
    ∷ ptype 0x8300 "Linux filesystem"
        (0xaf ∷ 0x3d ∷ 0xc6 ∷ 0x0f ∷ 0x83 ∷ 0x84 ∷ 0x72 ∷ 0x47 ∷ 0x8e ∷ 0x79 ∷ 0x3d ∷ 0x69 ∷ 0xd8
          ∷ 0x47 ∷ 0x7d ∷ 0xe4 ∷ [])
        0x83 false
    ∷ ptype 0x8301 "Linux reserved"
        (0x39 ∷ 0x33 ∷ 0xa6 ∷ 0x8d ∷ 0x07 ∷ 0x00 ∷ 0xc0 ∷ 0x60 ∷ 0xc4 ∷ 0x36 ∷ 0x08 ∷ 0x3a ∷ 0xc8
          ∷ 0x23 ∷ 0x09 ∷ 0x08 ∷ [])
        0x00 false
    ∷ ptype 0x8400 "Intel Rapid Start Technology"
        (0xd3 ∷ 0xbf ∷ 0xe2 ∷ 0xde ∷ 0x3d ∷ 0xaf ∷ 0x11 ∷ 0xdf ∷ 0xba ∷ 0x40 ∷ 0xe3 ∷ 0xa5 ∷ 0x56
          ∷ 0xd8 ∷ 0x95 ∷ 0x93 ∷ [])
        0x84 false
    ∷ ptype 0x8e00 "Linux Logical Volume Manager"
        (0x79 ∷ 0xd3 ∷ 0xd6 ∷ 0xe6 ∷ 0x07 ∷ 0xf5 ∷ 0xc2 ∷ 0x44 ∷ 0xa2 ∷ 0x3c ∷ 0x23 ∷ 0x8f ∷ 0x2a
          ∷ 0x3d ∷ 0xf9 ∷ 0x28 ∷ [])
        0x8e false
    ∷ []

-- FreeBSD, EFI, MDRAID, Midnight BSD and NetBSD.
abbrev pub table_bsd : List Ptype
table_bsd =
    ptype 0xa501 "FreeBSD boot"
      (0x9d ∷ 0x6b ∷ 0xbd ∷ 0x83 ∷ 0x41 ∷ 0x7f ∷ 0xdc ∷ 0x11 ∷ 0xbe ∷ 0x0b ∷ 0x00 ∷ 0x15 ∷ 0x60
        ∷ 0xb8 ∷ 0x4f ∷ 0x0f ∷ [])
      0xa5 false
    ∷ ptype 0xa502 "FreeBSD swap"
        (0xb5 ∷ 0x7c ∷ 0x6e ∷ 0x51 ∷ 0xcf ∷ 0x6e ∷ 0xd6 ∷ 0x11 ∷ 0x8f ∷ 0xf8 ∷ 0x00 ∷ 0x02 ∷ 0x2d
          ∷ 0x09 ∷ 0x71 ∷ 0x2b ∷ [])
        0xa5 false
    ∷ ptype 0xa503 "FreeBSD UFS"
        (0xb6 ∷ 0x7c ∷ 0x6e ∷ 0x51 ∷ 0xcf ∷ 0x6e ∷ 0xd6 ∷ 0x11 ∷ 0x8f ∷ 0xf8 ∷ 0x00 ∷ 0x02 ∷ 0x2d
          ∷ 0x09 ∷ 0x71 ∷ 0x2b ∷ [])
        0xa5 false
    ∷ ptype 0xa504 "FreeBSD/Linux ZFS"
        (0xba ∷ 0x7c ∷ 0x6e ∷ 0x51 ∷ 0xcf ∷ 0x6e ∷ 0xd6 ∷ 0x11 ∷ 0x8f ∷ 0xf8 ∷ 0x00 ∷ 0x02 ∷ 0x2d
          ∷ 0x09 ∷ 0x71 ∷ 0x2b ∷ [])
        0xa5 true
    ∷ ptype 0xa505 "FreeBSD Vinum/RAID"
        (0xb8 ∷ 0x7c ∷ 0x6e ∷ 0x51 ∷ 0xcf ∷ 0x6e ∷ 0xd6 ∷ 0x11 ∷ 0x8f ∷ 0xf8 ∷ 0x00 ∷ 0x02 ∷ 0x2d
          ∷ 0x09 ∷ 0x71 ∷ 0x2b ∷ [])
        0xa5 true
    ∷ ptype 0xef00 "EFI System Partition (ESP)"
        (0x28 ∷ 0x73 ∷ 0x2a ∷ 0xc1 ∷ 0x1f ∷ 0xf8 ∷ 0xd2 ∷ 0x11 ∷ 0xba ∷ 0x4b ∷ 0x00 ∷ 0xa0 ∷ 0xc9
          ∷ 0x3e ∷ 0xc9 ∷ 0x3b ∷ [])
        0x00 false
    ∷ ptype 0xef01 "MBR partition scheme"
        (0x41 ∷ 0xee ∷ 0x4d ∷ 0x02 ∷ 0xe7 ∷ 0x33 ∷ 0xd3 ∷ 0x11 ∷ 0x9d ∷ 0x69 ∷ 0x00 ∷ 0x08 ∷ 0xc7
          ∷ 0x81 ∷ 0xf3 ∷ 0x9f ∷ [])
        0x00 false
    ∷ ptype 0xef02 "BIOS boot partition"
        (0x48 ∷ 0x61 ∷ 0x68 ∷ 0x21 ∷ 0x49 ∷ 0x64 ∷ 0x6f ∷ 0x6e ∷ 0x74 ∷ 0x4e ∷ 0x65 ∷ 0x65 ∷ 0x64
          ∷ 0x45 ∷ 0x46 ∷ 0x49 ∷ [])
        0x00 false
    ∷ ptype 0xfd00 "Linux MDRAID"
        (0x0f ∷ 0x88 ∷ 0x9d ∷ 0xa1 ∷ 0xfc ∷ 0x05 ∷ 0x3b ∷ 0x4d ∷ 0xa0 ∷ 0x06 ∷ 0x74 ∷ 0x3f ∷ 0x0f
          ∷ 0x84 ∷ 0x91 ∷ 0x1e ∷ [])
        0xfd true
    ∷ ptype 0xa580 "Midnight BSD data"
        (0x5a ∷ 0xe4 ∷ 0xd5 ∷ 0x85 ∷ 0x7c ∷ 0x23 ∷ 0xe1 ∷ 0x11 ∷ 0xb4 ∷ 0xb3 ∷ 0xe8 ∷ 0x9a ∷ 0x8f
          ∷ 0x7f ∷ 0xc3 ∷ 0xa7 ∷ [])
        0x00 false
    ∷ ptype 0xa581 "Midnight BSD boot"
        (0x5e ∷ 0xe4 ∷ 0xd5 ∷ 0x85 ∷ 0x7c ∷ 0x23 ∷ 0xe1 ∷ 0x11 ∷ 0xb4 ∷ 0xb3 ∷ 0xe8 ∷ 0x9a ∷ 0x8f
          ∷ 0x7f ∷ 0xc3 ∷ 0xa7 ∷ [])
        0x00 false
    ∷ ptype 0xa582 "Midnight BSD swap"
        (0x5b ∷ 0xe4 ∷ 0xd5 ∷ 0x85 ∷ 0x7c ∷ 0x23 ∷ 0xe1 ∷ 0x11 ∷ 0xb4 ∷ 0xb3 ∷ 0xe8 ∷ 0x9a ∷ 0x8f
          ∷ 0x7f ∷ 0xc3 ∷ 0xa7 ∷ [])
        0x00 false
    ∷ ptype 0xa583 "Midnight BSD UFS"
        (0x8b ∷ 0xef ∷ 0x94 ∷ 0x03 ∷ 0x7e ∷ 0x23 ∷ 0xe1 ∷ 0x11 ∷ 0xb4 ∷ 0xb3 ∷ 0xe8 ∷ 0x9a ∷ 0x8f
          ∷ 0x7f ∷ 0xc3 ∷ 0xa7 ∷ [])
        0x00 false
    ∷ ptype 0xa584 "Midnight BSD ZFS"
        (0x5d ∷ 0xe4 ∷ 0xd5 ∷ 0x85 ∷ 0x7c ∷ 0x23 ∷ 0xe1 ∷ 0x11 ∷ 0xb4 ∷ 0xb3 ∷ 0xe8 ∷ 0x9a ∷ 0x8f
          ∷ 0x7f ∷ 0xc3 ∷ 0xa7 ∷ [])
        0x00 true
    ∷ ptype 0xa585 "Midnight BSD Vinum/RAID"
        (0x5c ∷ 0xe4 ∷ 0xd5 ∷ 0x85 ∷ 0x7c ∷ 0x23 ∷ 0xe1 ∷ 0x11 ∷ 0xb4 ∷ 0xb3 ∷ 0xe8 ∷ 0x9a ∷ 0x8f
          ∷ 0x7f ∷ 0xc3 ∷ 0xa7 ∷ [])
        0x00 true
    ∷ ptype 0xa800 "Apple UFS"
        (0x00 ∷ 0x53 ∷ 0x46 ∷ 0x55 ∷ 0x00 ∷ 0x00 ∷ 0xaa ∷ 0x11 ∷ 0xaa ∷ 0x11 ∷ 0x00 ∷ 0x30 ∷ 0x65
          ∷ 0x43 ∷ 0xec ∷ 0xac ∷ [])
        0xa8 false
    ∷ ptype 0xa901 "NetBSD swap"
        (0x32 ∷ 0x8d ∷ 0xf4 ∷ 0x49 ∷ 0x0e ∷ 0xb1 ∷ 0xdc ∷ 0x11 ∷ 0xb9 ∷ 0x9b ∷ 0x00 ∷ 0x19 ∷ 0xd1
          ∷ 0x87 ∷ 0x96 ∷ 0x48 ∷ [])
        0xa9 false
    ∷ ptype 0xa902 "NetBSD FFS"
        (0x5a ∷ 0x8d ∷ 0xf4 ∷ 0x49 ∷ 0x0e ∷ 0xb1 ∷ 0xdc ∷ 0x11 ∷ 0xb9 ∷ 0x9b ∷ 0x00 ∷ 0x19 ∷ 0xd1
          ∷ 0x87 ∷ 0x96 ∷ 0x48 ∷ [])
        0xa9 false
    ∷ ptype 0xa903 "NetBSD LFS"
        (0x82 ∷ 0x8d ∷ 0xf4 ∷ 0x49 ∷ 0x0e ∷ 0xb1 ∷ 0xdc ∷ 0x11 ∷ 0xb9 ∷ 0x9b ∷ 0x00 ∷ 0x19 ∷ 0xd1
          ∷ 0x87 ∷ 0x96 ∷ 0x48 ∷ [])
        0xa9 false
    ∷ ptype 0xa904 "NetBSD concatenated"
        (0xc4 ∷ 0x19 ∷ 0xb5 ∷ 0x2d ∷ 0x0f ∷ 0xb1 ∷ 0xdc ∷ 0x11 ∷ 0xb9 ∷ 0x9b ∷ 0x00 ∷ 0x19 ∷ 0xd1
          ∷ 0x87 ∷ 0x96 ∷ 0x48 ∷ [])
        0xa9 false
    ∷ ptype 0xa905 "NetBSD encrypted filesystem"
        (0xec ∷ 0x19 ∷ 0xb5 ∷ 0x2d ∷ 0x0f ∷ 0xb1 ∷ 0xdc ∷ 0x11 ∷ 0xb9 ∷ 0x9b ∷ 0x00 ∷ 0x19 ∷ 0xd1
          ∷ 0x87 ∷ 0x96 ∷ 0x48 ∷ [])
        0xa9 false
    ∷ ptype 0xa906 "NetBSD RAID"
        (0xaa ∷ 0x8d ∷ 0xf4 ∷ 0x49 ∷ 0x0e ∷ 0xb1 ∷ 0xdc ∷ 0x11 ∷ 0xb9 ∷ 0x9b ∷ 0x00 ∷ 0x19 ∷ 0xd1
          ∷ 0x87 ∷ 0x96 ∷ 0x48 ∷ [])
        0xa9 true
    ∷ []

-- Apple, Solaris and HP/UX.
abbrev pub table_apple_solaris : List Ptype
table_apple_solaris =
    ptype 0xab00 "Apple boot"
      (0x74 ∷ 0x6f ∷ 0x6f ∷ 0x42 ∷ 0x00 ∷ 0x00 ∷ 0xaa ∷ 0x11 ∷ 0xaa ∷ 0x11 ∷ 0x00 ∷ 0x30 ∷ 0x65
        ∷ 0x43 ∷ 0xec ∷ 0xac ∷ [])
      0xab false
    ∷ ptype 0xaf00 "Apple HFS/HFS+"
        (0x00 ∷ 0x53 ∷ 0x46 ∷ 0x48 ∷ 0x00 ∷ 0x00 ∷ 0xaa ∷ 0x11 ∷ 0xaa ∷ 0x11 ∷ 0x00 ∷ 0x30 ∷ 0x65
          ∷ 0x43 ∷ 0xec ∷ 0xac ∷ [])
        0x00 false
    ∷ ptype 0xaf01 "Apple RAID"
        (0x44 ∷ 0x49 ∷ 0x41 ∷ 0x52 ∷ 0x00 ∷ 0x00 ∷ 0xaa ∷ 0x11 ∷ 0xaa ∷ 0x11 ∷ 0x00 ∷ 0x30 ∷ 0x65
          ∷ 0x43 ∷ 0xec ∷ 0xac ∷ [])
        0x00 true
    ∷ ptype 0xaf02 "Apple RAID offline"
        (0x44 ∷ 0x49 ∷ 0x41 ∷ 0x52 ∷ 0x4f ∷ 0x5f ∷ 0xaa ∷ 0x11 ∷ 0xaa ∷ 0x11 ∷ 0x00 ∷ 0x30 ∷ 0x65
          ∷ 0x43 ∷ 0xec ∷ 0xac ∷ [])
        0x00 true
    ∷ ptype 0xaf03 "Apple label"
        (0x65 ∷ 0x62 ∷ 0x61 ∷ 0x4c ∷ 0x00 ∷ 0x6c ∷ 0xaa ∷ 0x11 ∷ 0xaa ∷ 0x11 ∷ 0x00 ∷ 0x30 ∷ 0x65
          ∷ 0x43 ∷ 0xec ∷ 0xac ∷ [])
        0x00 false
    ∷ ptype 0xaf04 "AppleTV recovery"
        (0x6f ∷ 0x63 ∷ 0x65 ∷ 0x52 ∷ 0x65 ∷ 0x76 ∷ 0xaa ∷ 0x11 ∷ 0xaa ∷ 0x11 ∷ 0x00 ∷ 0x30 ∷ 0x65
          ∷ 0x43 ∷ 0xec ∷ 0xac ∷ [])
        0x00 false
    ∷ ptype 0xaf05 "Apple Core Storage"
        (0x72 ∷ 0x6f ∷ 0x74 ∷ 0x53 ∷ 0x67 ∷ 0x61 ∷ 0xaa ∷ 0x11 ∷ 0xaa ∷ 0x11 ∷ 0x00 ∷ 0x30 ∷ 0x65
          ∷ 0x43 ∷ 0xec ∷ 0xac ∷ [])
        0x00 false
    ∷ ptype 0xbe00 "Solaris boot"
        (0x45 ∷ 0xcb ∷ 0x82 ∷ 0x6a ∷ 0xd2 ∷ 0x1d ∷ 0xb2 ∷ 0x11 ∷ 0x99 ∷ 0xa6 ∷ 0x08 ∷ 0x00 ∷ 0x20
          ∷ 0x73 ∷ 0x66 ∷ 0x31 ∷ [])
        0xbe false
    ∷ ptype 0xbf00 "Solaris root"
        (0x4d ∷ 0xcf ∷ 0x85 ∷ 0x6a ∷ 0xd2 ∷ 0x1d ∷ 0xb2 ∷ 0x11 ∷ 0x99 ∷ 0xa6 ∷ 0x08 ∷ 0x00 ∷ 0x20
          ∷ 0x73 ∷ 0x66 ∷ 0x31 ∷ [])
        0xbf false
    ∷ ptype 0xbf01 "ZFS"
        (0xc3 ∷ 0x8c ∷ 0x89 ∷ 0x6a ∷ 0xd2 ∷ 0x1d ∷ 0xb2 ∷ 0x11 ∷ 0x99 ∷ 0xa6 ∷ 0x08 ∷ 0x00 ∷ 0x20
          ∷ 0x73 ∷ 0x66 ∷ 0x31 ∷ [])
        0xbf true
    ∷ ptype 0xbf02 "Solaris swap"
        (0x6f ∷ 0xc4 ∷ 0x87 ∷ 0x6a ∷ 0xd2 ∷ 0x1d ∷ 0xb2 ∷ 0x11 ∷ 0x99 ∷ 0xa6 ∷ 0x08 ∷ 0x00 ∷ 0x20
          ∷ 0x73 ∷ 0x66 ∷ 0x31 ∷ [])
        0xbf false
    ∷ ptype 0xbf03 "Solaris backup"
        (0x2b ∷ 0x64 ∷ 0x8b ∷ 0x6a ∷ 0xd2 ∷ 0x1d ∷ 0xb2 ∷ 0x11 ∷ 0x99 ∷ 0xa6 ∷ 0x08 ∷ 0x00 ∷ 0x20
          ∷ 0x73 ∷ 0x66 ∷ 0x31 ∷ [])
        0xbf false
    ∷ ptype 0xbf04 "Solaris /var"
        (0xe9 ∷ 0xf2 ∷ 0x8e ∷ 0x6a ∷ 0xd2 ∷ 0x1d ∷ 0xb2 ∷ 0x11 ∷ 0x99 ∷ 0xa6 ∷ 0x08 ∷ 0x00 ∷ 0x20
          ∷ 0x73 ∷ 0x66 ∷ 0x31 ∷ [])
        0xbf false
    ∷ ptype 0xbf05 "Solaris /home"
        (0x39 ∷ 0xba ∷ 0x90 ∷ 0x6a ∷ 0xd2 ∷ 0x1d ∷ 0xb2 ∷ 0x11 ∷ 0x99 ∷ 0xa6 ∷ 0x08 ∷ 0x00 ∷ 0x20
          ∷ 0x73 ∷ 0x66 ∷ 0x31 ∷ [])
        0xbf false
    ∷ ptype 0xbf07 "Solaris reserved"
        (0x3b ∷ 0x5a ∷ 0x94 ∷ 0x6a ∷ 0xd2 ∷ 0x1d ∷ 0xb2 ∷ 0x11 ∷ 0x99 ∷ 0xa6 ∷ 0x08 ∷ 0x00 ∷ 0x20
          ∷ 0x73 ∷ 0x66 ∷ 0x31 ∷ [])
        0xbf false
    ∷ ptype 0xc001 "HP/UX data"
        (0x1e ∷ 0x4c ∷ 0x89 ∷ 0x75 ∷ 0xeb ∷ 0x3a ∷ 0xd3 ∷ 0x11 ∷ 0xb7 ∷ 0xc1 ∷ 0x7b ∷ 0x03 ∷ 0xa0
          ∷ 0x00 ∷ 0x00 ∷ 0x00 ∷ [])
        0x00 false
    ∷ ptype 0xc002 "HP/UX service partition"
        (0x28 ∷ 0xe7 ∷ 0xa1 ∷ 0xe2 ∷ 0xe3 ∷ 0x32 ∷ 0xd6 ∷ 0x11 ∷ 0xa6 ∷ 0x82 ∷ 0x7b ∷ 0x03 ∷ 0xa0
          ∷ 0x00 ∷ 0x00 ∷ 0x00 ∷ [])
        0x00 false
    ∷ []

-- The types of a DOS table alone.
abbrev pub table_dos : List Ptype
table_dos =
    ptype 0x0005 "DOS extended" (no_guid) 0x05 false
    ∷ ptype 0x0006 "FAT16" (no_guid) 0x06 false
    ∷ ptype 0x0008 "AIX" (no_guid) 0x08 false
    ∷ ptype 0x0009 "AIX Bootable" (no_guid) 0x09 false
    ∷ ptype 0x000b "FAT32" (no_guid) 0x0b false
    ∷ ptype 0x000c "FAT32 LBA" (no_guid) 0x0c false
    ∷ ptype 0x000e "FAT16 LBA" (no_guid) 0x0e false
    ∷ ptype 0x0085 "Linux extended" (no_guid) 0x85 false
    ∷ ptype 0x00a6 "OpenBSD" (no_guid) 0xa6 false
    ∷ ptype 0x00ee "MBR Protective" (no_guid) 0xee false
    ∷ ptype 0x00ef "EFI FAT" (no_guid) 0xef false
    ∷ []

unfoldable pub ptypes : List Ptype
ptypes = table_vendors ++ (table_bsd ++ (table_apple_solaris ++ table_dos))
