-- ===== src/Streamer/Tests.antt =====
-- A disk on which every byte is the number of its sector.
use guava_os_pro.Prelude.{ℕ, ◌≡◌, none, some, arith, replicate, length-replicate}
use guava_os_pro.Status.{all_ok}
use guava_os_pro.Streamer.{Device, diskstreamer_read}
use guava_os_pro.Streamer.Sectors.{
  HasSectors, window, diskstreamer_read_lem, diskstreamer_read_overruns,
}

abbrev numbered : Device
numbered lba = replicate 512 lba

numbered-HasSectors : HasSectors numbered
numbered-HasSectors lba = length-replicate {A = ℕ} 512 lba

-- Two sectors and a half, from the third sector on.
diskstreamer_read_lem_example :
    diskstreamer_read numbered (record { position = 1024; disk = 0 }) 1280
    ≡ some (all_ok, window numbered 1024 1280, record { position = 2304; disk = 0 })
diskstreamer_read_lem_example =
    diskstreamer_read_lem numbered numbered-HasSectors 1024 1280 (omega arith) (omega arith)

diskstreamer_read_overruns_example :
    diskstreamer_read numbered (record { position = 500; disk = 0 }) 32 ≡ none
diskstreamer_read_overruns_example =
    diskstreamer_read_overruns numbered numbered-HasSectors 500 32 (λ h. omega arith)
