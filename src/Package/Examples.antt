-- ===== src/Package/Examples.antt =====
-- Moves of data in memory.
use weft_os.Base.{refl, true, ◌||◌, none, some, Text, codes, text_eq, if◌then◌else◌}
use weft_os.Package.{MigrationError, migrate_app_data}
use weft_os.Package.Migrate.{Keeps, MovesTo, migrate_app_data-Keeps, migrate_app_data-MovesTo}
use weft_os.Package.Memory.{Disk, disk, make_entry, rename_entry, parent_of, Lawful_disk}

abbrev old_place : Text
old_place = codes "/h/apps/a.b.c/data"

abbrev new_place : Text
new_place = codes "/x/a.b.c"

abbrev old_disk : Disk
old_disk path = if text_eq path old_place then some true else none

abbrev both_disk : Disk
both_disk path = if text_eq path old_place || text_eq path new_place then some true else none

migrate_app_data-Keeps_example :
    Keeps disk both_disk (migrate_app_data disk both_disk old_place new_place).0
unfolding migrate_app_data make_entry rename_entry parent_of text_eq
migrate_app_data-Keeps_example =
    migrate_app_data-Keeps disk Lawful_disk both_disk old_place new_place
      (MigrationError.conflict old_place new_place) refl

migrate_app_data-MovesTo_example :
    MovesTo disk old_place new_place old_disk (migrate_app_data disk old_disk old_place new_place).0
unfolding migrate_app_data make_entry rename_entry parent_of text_eq
migrate_app_data-MovesTo_example =
    migrate_app_data-MovesTo disk Lawful_disk old_disk old_place new_place (λ dir e h. cc)
      (λ dir e h. cc) refl
