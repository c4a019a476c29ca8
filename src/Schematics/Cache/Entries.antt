-- ===== src/Schematics/Cache/Entries.antt =====
-- internal/schematic/storage/cache/cache.go: what setting an entry and recording an answer leave.
use image_factory.Prelude.{String, ◌≡◌, Option, some, arith, eq_iff, Result, ok, err}
use image_factory.Schematics.{Error}
use image_factory.Schematics.Cache.{Entries, set_entry, get_or_set, record_answer}

-- The present entries of a table are among what a storage holds.
abbrev pub AreHeld : (String → Option String) → Entries → Type 0
AreHeld held entries = (id bytes : String) → entries id ≡ some (some bytes) → held id ≡ some bytes

pub set_entry-AreHeld :
    (held : String → Option String) (entries : Entries) (id bytes : String)
    → AreHeld held entries
    → held id ≡ some bytes
    → AreHeld held (set_entry entries id (some bytes))
unfolding set_entry
set_entry-AreHeld held entries id bytes h now key b e = ground (arith, eq_iff key id, h key b)

pub record_answer-AreHeld :
    (held : String → Option String) (entries : Entries) (id : String) (answer : Result Error String)
    → AreHeld held entries
    → ((bytes : String) → answer ≡ ok bytes → held id ≡ some bytes)
    → AreHeld held (record_answer entries id answer).0
unfolding record_answer get_or_set set_entry
record_answer-AreHeld held entries id (ok bytes) h now key b e =
    ground (arith, eq_iff key id, h key b, h id b, now bytes, now b)
record_answer-AreHeld held entries id (err x) h now key b e =
    ground (arith, eq_iff key id, h key b, h id b)
