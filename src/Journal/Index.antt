-- ===== src/Journal/Index.antt =====
-- The index of x402/journal.go under an append: entries stay, and an append that does not fail
-- leaves one.
use stablecoin_x402_gateway.Base.{
  ℕ, ◌≡◌, refl, length, Bool, true, false, Option, none, some, String, string_eq, ◌==◌, beq_self,
  is_some, Option-cases, inl, inr, if◌then◌else◌, arith,
}
use stablecoin_x402_gateway.Base.Dict.{lookup, insert, lookup-insert}
use stablecoin_x402_gateway.Journal.Records.{JournalEntry}
use stablecoin_x402_gateway.Journal.File.{
  Journal, JournalFile, WriteOutcome, append, after_entry, record_entry,
}
use stablecoin_x402_gateway.Journal.Recovery.{append-new, append-old}

abbrev pub IsIndexed : String → Journal → Type 0
IsIndexed id j = is_some (lookup id j.index) ≡ true

record_entry-absent :
    (e : JournalEntry) (j : Journal)
    → lookup e.id j.index ≡ none
    → (record_entry e j).index ≡ insert e.id (length j.entries) j.index
unfolding record_entry
record_entry-absent e j absent = rw (record_entry, absent) refl

record_entry-present :
    (e : JournalEntry) (n : ℕ) (j : Journal) → lookup e.id j.index ≡ some n → record_entry e j ≡ j
unfolding record_entry
record_entry-present e n j found = rw (record_entry, found) refl

record_entry-IsIndexed : (e : JournalEntry) (j : Journal) → IsIndexed e.id (record_entry e j)
record_entry-IsIndexed e j = elim (Option-cases (lookup e.id j.index)) [
  | inl absent ↦
      rw
        (
          record_entry-absent e j absent,
          lookup-insert e.id e.id (length j.entries) j.index,
          beq_self e.id,
        )
        refl
  | inr (n, found) ↦ rw (record_entry-present e n j found, found) refl
]

pick :
    (b : Bool) (n : ℕ) (o : Option ℕ) → is_some o ≡ true → is_some (if b then some n else o) ≡ true
pick true n o h = refl
pick false n o h = h

record_entry-keeps :
    (id : String) (e : JournalEntry) (j : Journal)
    → IsIndexed id j
    → IsIndexed id (record_entry e j)
record_entry-keeps id e j h = elim (Option-cases (lookup e.id j.index)) [
  | inl absent ↦
      rw (record_entry-absent e j absent, lookup-insert e.id id (length j.entries) j.index)
        (pick (e.id == id) _ _ h)
  | inr (n, found) ↦ rw (record_entry-present e n j found) h
]

after_entry-IsIndexed :
    (e : JournalEntry) (x : Bool × JournalFile) (j : Journal)
    → (after_entry e x j).0 ≡ true
    → IsIndexed e.id (after_entry e x j).1
unfolding after_entry
after_entry-IsIndexed e (true, file) j h = record_entry-IsIndexed e (record j { file = file })
after_entry-IsIndexed e (false, file) j h = ground arith

after_entry-keeps :
    (id : String) (e : JournalEntry) (x : Bool × JournalFile) (j : Journal)
    → IsIndexed id j
    → IsIndexed id (after_entry e x j).1
unfolding after_entry
after_entry-keeps id e (true, file) j h = record_entry-keeps id e (record j { file = file }) h
after_entry-keeps id e (false, file) j h = h

pub append-IsIndexed :
    (e : JournalEntry) (outcome : WriteOutcome) (j : Journal)
    → (append e outcome j).0 ≡ true
    → IsIndexed e.id (append e outcome j).1
append-IsIndexed e outcome j h = elim (Option-cases (lookup e.id j.index)) [
  | inl absent ↦
      let shape = append-new e outcome j absent in
      rw shape (after_entry-IsIndexed e _ j (rw shape at h))
  | inr (n, found) ↦ rw (append-old e outcome j n found, found) refl
]

pub append-keeps :
    (id : String) (e : JournalEntry) (outcome : WriteOutcome) (j : Journal)
    → IsIndexed id j
    → IsIndexed id (append e outcome j).1
append-keeps id e outcome j h = elim (Option-cases (lookup e.id j.index)) [
  | inl absent ↦ rw (append-new e outcome j absent) (after_entry-keeps id e _ j h)
  | inr (n, found) ↦ rw (append-old e outcome j n found) h
]
