-- ===== src/Journal/File.antt =====
-- The journal's file, its replay, and the operations: x402/journal.go.
use stablecoin_x402_gateway.Base.{
  ℕ, String, Bool, true, false, Option, none, some, List, [], ◌∷◌, ◌++◌, length, if◌then◌else◌,
  string_eq,
}
use stablecoin_x402_gateway.Base.Dict.{Dict, lookup, insert}
use stablecoin_x402_gateway.Journal.Records.{JournalEntry}

-- A settlement entry has no type field; a marker has type "published".
pub data Line : Type 0 where
  entry_line : JournalEntry → Line
  marker_line : String → Line
  torn_line : Line

pub record JournalFile : Type 0 where
  pub lines : List Line
  pub tail : Option Line

pub record Journal : Type 0 where
  pub file : JournalFile
  pub entries : List JournalEntry
  pub index : Dict String ℕ
  pub published : Dict String Bool

-- What the operating system does with a line: a write cut short leaves it without its newline,
-- `whole` or torn, and `not_synced` is a written line whose fsync fails. A failed marshal writes
-- nothing.
pub data WriteOutcome : Type 0 where
  written nothing_written not_synced : WriteOutcome
  cut_short : Bool → WriteOutcome

abbrev pub new_journal : JournalFile → Journal
new_journal file = record { file = file; entries = []; index = []; published = [] }

unfoldable pub record_entry : JournalEntry → Journal → Journal
record_entry e j = elim (lookup e.id j.index) [
  | some _ ↦ j
  | none ↦ record j {
    index = insert e.id (length j.entries) j.index;
    entries = j.entries ++ e ∷ [];
  }
]

unfoldable pub replay_line : Line → Journal → Journal
replay_line (entry_line e) j = record_entry e j
replay_line (marker_line id) j = record j { published = insert id true j.published }
replay_line torn_line j = j

unfoldable pub replay : List Line → Journal → Journal
replay [] j = j
replay (line ∷ lines) j = replay lines (replay_line line j)

abbrev pub all_lines : JournalFile → List Line
all_lines file = elim file.tail [ none ↦ file.lines | some line ↦ file.lines ++ line ∷ [] ]

unfoldable pub open_journal : JournalFile → Journal
open_journal file = replay (all_lines file) (new_journal file)

-- A line joins an unterminated one before it, and the joined line parses as nothing.
abbrev pub put_line : Line → JournalFile → JournalFile
put_line line file = record {
  lines = file.lines ++ (elim file.tail [ none ↦ line | some _ ↦ torn_line ]) ∷ [];
  tail = none;
}

abbrev pub put_part : Bool → Line → JournalFile → JournalFile
put_part whole line file = record file {
  tail = some (elim file.tail [ none ↦ if whole then line else torn_line | some _ ↦ torn_line ]);
}

-- `true` is success.
unfoldable pub write_line : Line → WriteOutcome → JournalFile → Bool × JournalFile
write_line line written file = (true, put_line line file)
write_line line nothing_written file = (false, file)
write_line line not_synced file = (false, put_line line file)
write_line line (cut_short whole) file = (false, put_part whole line file)

-- The rest of an operation after its write.
unfoldable pub after_entry : JournalEntry → Bool × JournalFile → Journal → Bool × Journal
after_entry e (true, file) j = (true, record_entry e (record j { file = file }))
after_entry e (false, file) j = (false, record j { file = file })

unfoldable pub after_marker : String → Bool × JournalFile → Journal → Bool × Journal
after_marker id (true, file) j =
    (true, record j { file = file; published = insert id true j.published })
after_marker id (false, file) j = (false, record j { file = file })

unfoldable pub append : JournalEntry → WriteOutcome → Journal → Bool × Journal
unfolding after_entry
append e outcome j = elim (lookup e.id j.index) [
  | some _ ↦ (true, j)
  | none ↦ after_entry e (write_line (entry_line e) outcome j.file) j
]

unfoldable pub is_published : String → Journal → Bool
is_published id j = elim (lookup id j.published) [ none ↦ false | some b ↦ b ]

unfoldable pub mark_published : String → WriteOutcome → Journal → Bool × Journal
unfolding is_published after_marker
mark_published id outcome j =
    if is_published id j
    then (true, j)
    else after_marker id (write_line (marker_line id) outcome j.file) j

unfoldable pub select_unpublished : Journal → List JournalEntry → List JournalEntry
select_unpublished j [] = []
select_unpublished j (e ∷ es) =
    let rest = select_unpublished j es in if is_published e.id j then rest else e ∷ rest

unfoldable pub unpublished : Journal → List JournalEntry
unfolding select_unpublished
unpublished j = select_unpublished j j.entries
