-- ===== src/Session/Disks.antt =====
-- src/main.cpp: each engine is made on a BlockDevice, whose image `main` loads and saves.
use pseudo_fs.UnixFs.{UnixFs}
use pseudo_fs.Fat16.{Fat16Fs}
use pseudo_fs.Session.{Disk}

abbrev pub unix_disk : Disk UnixFs
unix_disk = record {
  dev = λ u. u.imng.vol.dev;
  with_dev = λ u d. record u { imng = record (u.imng) { vol = record (u.imng.vol) { dev = d } } };
}

abbrev pub fat16_disk : Disk Fat16Fs
fat16_disk = record { dev = λ u. u.dev; with_dev = λ u d. record u { dev = d } }
