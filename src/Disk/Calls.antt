-- ===== src/Disk/Calls.antt =====
-- What syncing the data file and writing its header leave when they succeed.
use oxen_db.Prelude.{ℕ, ◌≡◌, refl, List}
use oxen_db.Prelude.Op.{After, After-map}
use oxen_db.Checksum.{Checksum}
use oxen_db.File.{Fate, done, fail, next_fate, sync, sync_with, write_all_at, written}
use oxen_db.Page.{Page, file_offset}
use oxen_db.FileHeader
use oxen_db.Disk
use oxen_db.Disk.{DiskManager}
use oxen_db.Disk.Outcomes.{Overwrites, attempt-After, on_file-After}

-- A sync that succeeds.
pub sync_disk-synced :
    (d : DiskManager)
    → After
        (Disk.sync_disk d)
        (λ _ e.
          (e.file.contents ≡ d.file.contents)
          × (e.file.synced ≡ d.file.contents)
          × (e.page_count ≡ d.page_count))
        (λ _. Unit {0})
unfolding Disk.sync_disk Disk.on_file sync sync_with
sync_disk-synced d = go (next_fate d.file.fates)
  where
    go :
        (w : Fate × List Fate)
        → (let m = sync_with w d.file in
            After {S = DiskManager}
              (m.0, record d { file = m.1 })
              (λ _ e.
                (e.file.contents ≡ d.file.contents)
                × (e.file.synced ≡ d.file.contents)
                × (e.page_count ≡ d.page_count))
              (λ _. Unit {0}))
    go (done, rest) = (refl, refl, refl)
    go (fail n, rest) = tt

module _ ⦃c : Checksum⦄ where
  -- The header page of a database with this page count.
  abbrev pub header_of : ℕ → Page
  header_of count = FileHeader.encode (record { page_count = count })

  pub write_file_header-Overwrites :
      (d : DiskManager)
      → After
          (Disk.write_file_header d)
          (λ _. Overwrites (header_of d.page_count) 0 d)
          (λ _. Unit {0})
  unfolding Disk.write_file_header Disk.on_file write_all_at written file_offset
  write_file_header-Overwrites d =
      let m = Disk.on_file (write_all_at (header_of d.page_count) 0) d in
      After-map m _ _ _ _
        (on_file-After (write_all_at (header_of d.page_count) 0 d.file) d _ _
          (attempt-After (written (header_of d.page_count) 0) (next_fate d.file.fates) d.file))
        (λ _ e w. record { contents = w.0; same_count = w.1 }) (λ e w. tt)
