-- ===== src/Stats/Tests.antt =====
-- A run on a file of two devices.
use growlight.Text.{codes}
use growlight.Stats.Lines.{Line}

abbrev sda_line : Line
sda_line = record {
  major = 8;
  minor = 0;
  name = codes "sda";
  f1 = 120;
  f2 = 3;
  f3 = 4096;
  f4 = 17;
  f5 = 60;
  f6 = 0;
  f7 = 2048;
}

abbrev sda1_line : Line
sda1_line = record sda_line { minor = 1; name = codes "sda1"; f3 = 4000 }
